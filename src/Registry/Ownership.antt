-- ===== src/Registry/Ownership.antt =====
-- Who may change which entry of the registry: registrations never replace an entry, and only its
-- own server's deregistration, or `clear`, removes it.
use mcp_shield.Prelude.{
  ℕ, String, ◌≡◌, ◌≢◌, ◌↔◌, sym, ◌∙◌, Bool, false, ◌==◌, some, none, List, arith, eq_iff,
  Bool-cases, Option-cases, inl, inr, if◌then◌else◌, Result-cases, ok, err,
}
use mcp_shield.Text.Defs.{contains_char}
use mcp_shield.Dict.{lookup}
use mcp_shield.Message.{Tool}
use mcp_shield.Error.{McpError}
use mcp_shield.Registry.Errors.{ambiguous}
use mcp_shield.Registry.Canonical.{parse_tool_name-no_colon}
use mcp_shield.Registry.State.{
  RegisteredTool, Registry, admit, register_tool, unregister_server, clear, with_config, lookup_any,
}
use mcp_shield.Registry.Index.{
  IsIndexed, Admitted, admit-Admitted, Admitted-admit, register_tool-IsIndexed, commit-keeps,
  clear-IsIndexed, IsIndexed-with_config,
}
use mcp_shield.Registry.Unregister.{
  unregister-kept, unregister-other, names-disjoint, unregister_server-IsIndexed,
  tools-unregister_server,
}

-- Whatever is registered, by whichever server, the tools that are registered stay as they are.
pub lookup-register_tool :
    (tool : Tool) (server : String) (now : ℕ) (r : Registry) (k : String) (t : RegisteredTool)
    → lookup k r.tools ≡ some t
    → lookup k (register_tool tool server now r).0.tools ≡ some t
unfolding register_tool
lookup-register_tool tool server now r k t h = elim (Result-cases (admit tool server r)) [
  | inl ((p, n), e) ↦
      rw (e, register_tool)
        (commit-keeps tool server now r p n (admit-Admitted tool server r e) k t h)
  | inr (e, failed) ↦ rw (failed, register_tool) h
]

-- A registration succeeds exactly if the name parses, its prefix is allowed and it is not taken.
pub register_tool-eq-ok_iff :
    (tool : Tool) (server : String) (now : ℕ) (r : Registry)
    → ((register_tool tool server now r).1 ≡ ok tt)
      ↔ ((p : String) × (n : String) × Admitted tool r p n)
unfolding register_tool
register_tool-eq-ok_iff tool server now r = (
  λ h. elim (Result-cases (admit tool server r)) [
    | inl ((p, n), e) ↦ (p, n, admit-Admitted tool server r e)
    | inr (e, failed) ↦ absurd (cc (rw (failed, register_tool) at h))
  ],
  λ found. rw (Admitted-admit tool server r found.0 found.1 found.2, register_tool),
)

-- A registration that fails changes nothing.
pub register_tool-err :
    (tool : Tool) (server : String) (now : ℕ) (r : Registry) {e : McpError}
    → (register_tool tool server now r).1 ≡ err e
    → (register_tool tool server now r).0 ≡ r
unfolding register_tool
register_tool-err tool server now r h = ground arith

-- After a deregistration exactly the tools of other servers are left, unchanged.
pub unregister_server_iff :
    (server : String) (r : Registry)
    → IsIndexed r
    → (k : String) (t : RegisteredTool)
    → (lookup k (unregister_server server r).0.tools ≡ some t)
      ↔ ((lookup k r.tools ≡ some t) × (t.server_id ≢ server))
unregister_server_iff server r v k t = (
  λ h. (
    (unregister-kept server r v k t h).1,
    λ mine.
        absurd
          (ground (arith, eq_iff server t.server_id, unregister-other server r v k t h, sym mine)),
  ),
  λ found.
      let other : (server == t.server_id) ≡ false = elim (Bool-cases (server == t.server_id)) [
        | inl same ↦ absurd (found.1 (sym ((eq_iff _ _).0 same)))
        | inr differs ↦ differs
      ] in
      rw
        (
          tools-unregister_server server r k,
          names-disjoint server r v t.server_id k other (v.listed k t found.0),
        )
        found.0,
)

-- What clients and servers do to a registry.
pub data Step : Registry → Registry → Type 0 where
  register :
      (r : Registry) (tool : Tool) (server : String) (now : ℕ)
      → Step r (register_tool tool server now r).0
  unregister : (r : Registry) (server : String) → Step r (unregister_server server r).0
  cleared : (r : Registry) → Step r (clear r)

pub data Reach (r : Registry) : Registry → Type 0 where
  here : Reach r r
  next : {s t : Registry} → Reach r s → Step s t → Reach r t

Step-IsIndexed : {r s : Registry} → Step r s → IsIndexed r → IsIndexed s
Step-IsIndexed (register r tool server now) v = register_tool-IsIndexed tool server now r v
Step-IsIndexed (unregister r server) v = unregister_server-IsIndexed server r v
Step-IsIndexed (cleared r) v = clear-IsIndexed v

Reach-IsIndexed : {r s : Registry} → Reach r s → IsIndexed r → IsIndexed s
Reach-IsIndexed here v = v
Reach-IsIndexed (next path step) v = Step-IsIndexed step (Reach-IsIndexed path v)

-- Whatever sequence of operations is applied to a new registry, its indexes agree and every key is
-- the canonical name of its entry, under an allowed prefix.
pub Reach-with_config-IsIndexed :
    (enforce : Bool) (prefixes : List String) {r : Registry}
    → Reach (with_config enforce prefixes) r
    → IsIndexed r
Reach-with_config-IsIndexed enforce prefixes path =
    Reach-IsIndexed path (IsIndexed-with_config enforce prefixes)

-- The steps of everybody but one server, with no `clear`.
pub data Foreign (owner : String) : Registry → Registry → Type 0 where
  stay : (r : Registry) → Foreign owner r r
  register :
      {r s : Registry} (tool : Tool) (server : String) (now : ℕ)
      → Foreign owner r s
      → Foreign owner r (register_tool tool server now s).0
  unregister :
      {r s : Registry} (server : String)
      → server ≢ owner
      → Foreign owner r s
      → Foreign owner r (unregister_server server s).0

Foreign-keeps :
    {owner : String} {r s : Registry} (k : String) (t : RegisteredTool)
    → Foreign owner r s
    → IsIndexed r
    → lookup k r.tools ≡ some t
    → t.server_id ≡ owner
    → IsIndexed s × (lookup k s.tools ≡ some t)
Foreign-keeps k t (stay r) v h o = (v, h)
Foreign-keeps k t (register {s} tool server now path) v h o =
    let (v', h') = Foreign-keeps k t path v h o in
    (register_tool-IsIndexed tool server now s v', lookup-register_tool tool server now s k t h')
Foreign-keeps k t (unregister {s} server other path) v h o =
    let (v', h') = Foreign-keeps k t path v h o in
    (
      unregister_server-IsIndexed server s v',
      (unregister_server_iff server s v' k t).1 (h', λ e. other (sym e ∙ o)),
    )

-- No hijacking: a server's tool stays registered to it, unchanged, whatever others register and
-- whichever other servers leave.
pub no_hijacking :
    (owner : String) (r s : Registry) (k : String) (t : RegisteredTool)
    → IsIndexed r
    → lookup k r.tools ≡ some t
    → t.server_id ≡ owner
    → Foreign owner r s
    → lookup k s.tools ≡ some t
no_hijacking owner r s k t v h o path = (Foreign-keeps k t path v h o).1

-- A name without a colon never finds a tool; with an underscore it is an error.
pub lookup_any-no_colon :
    (r : Registry) (name : String)
    → IsIndexed r
    → contains_char b':' name ≡ false
    → lookup_any name r ≡ (if contains_char b'_' name then err (ambiguous name) else ok none)
unfolding lookup_any
lookup_any-no_colon r name v h = elim (Option-cases (lookup name r.tools)) [
  | inl missing ↦ rw (missing, lookup_any) (ground arith)
  | inr (t, found) ↦
      cc (parse_tool_name-no_colon name r.enforce_prefix_format h, (v.keyed name t found).1)
]
