-- ===== src/Registry/Index.antt =====
-- The invariant of the registry: both indexes agree, and every key is the canonical name of its
-- entry. Every operation keeps it.
use mcp_shield.Prelude.{
  ℕ, String, ◌≡◌, refl, Bool, true, ◌||◌, ◌&&◌, ◌==◌, some, none, List, [], ◌∷◌, ◌++◌, ok, arith,
  eq_iff, eq_refl, Bool-cases, inl, inr, contains, contains-append, is_empty, Result-cases, ◌⊎◌,
}
use mcp_shield.Dict.{Dict, lookup, insert, lookup-insert, dict_laws}
use mcp_shield.Message.{Tool}
use mcp_shield.Registry.Name.{parse_tool_name, qualify}
use mcp_shield.Registry.Canonical.{parse_tool_name-qualify}
use mcp_shield.Registry.State.{
  RegisteredTool, Registry, names_of, admit, entry, commit, register_tool, clear, with_config,
}

-- The checks of `register_tool` that passed.
pub record Admitted (tool : Tool) (r : Registry) (p n : String) : Type 0 where
  pub parsed : parse_tool_name tool.name r.enforce_prefix_format ≡ ok (p, n)
  pub allowed : (is_empty r.allowed_prefixes || contains r.allowed_prefixes p) ≡ true
  pub fresh : lookup (qualify p n) r.tools ≡ none

pub admit-Admitted :
    (tool : Tool) (server : String) (r : Registry) {p n : String}
    → admit tool server r ≡ ok (p, n)
    → Admitted tool r p n
unfolding admit
admit-Admitted tool server r {p} {n} h = record {
  parsed = ground arith;
  allowed = ground arith;
  fresh = ground arith;
}

pub Admitted-admit :
    (tool : Tool) (server : String) (r : Registry) (p n : String)
    → Admitted tool r p n
    → admit tool server r ≡ ok (p, n)
unfolding admit
Admitted-admit tool server r p n a = rw a.parsed (rw (a.allowed, a.fresh))

-- The two indexes of the registry, and the names in them.
pub record IsIndexed (r : Registry) : Type 0 where
  -- a key is the canonical name of its entry
  pub keyed :
      (k : String) (t : RegisteredTool)
      → lookup k r.tools ≡ some t
      → (t.qualified_name ≡ k) × (parse_tool_name k r.enforce_prefix_format ≡ ok (t.prefix, t.name))
  -- its prefix is allowed
  pub allowed :
      (k : String) (t : RegisteredTool)
      → lookup k r.tools ≡ some t
      → (is_empty r.allowed_prefixes || contains r.allowed_prefixes t.prefix) ≡ true
  -- and its server's index lists it
  pub listed :
      (k : String) (t : RegisteredTool)
      → lookup k r.tools ≡ some t
      → contains (names_of t.server_id r.by_server) k ≡ true
  -- what a server's index lists is a tool of that server
  pub owned :
      (s k : String)
      → contains (names_of s r.by_server) k ≡ true
      → (t : RegisteredTool) × (lookup k r.tools ≡ some t) × (t.server_id ≡ s)

pub IsIndexed-with_config :
    (enforce : Bool) (prefixes : List String) → IsIndexed (with_config enforce prefixes)
unfolding lookup
IsIndexed-with_config enforce prefixes = record {
  keyed = λ k t h. cc;
  allowed = λ k t h. cc;
  listed = λ k t h. cc;
  owned = λ s k h. cc;
}

pub clear-IsIndexed : {r : Registry} → IsIndexed r → IsIndexed (clear r)
unfolding clear lookup
clear-IsIndexed v = record {
  keyed = λ k t h. cc;
  allowed = λ k t h. cc;
  listed = λ k t h. cc;
  owned = λ s k h. cc;
}

-- The index after a registration.
contains-names_of :
    (server s name k : String) (index : Dict (List String))
    → contains (names_of s (insert server (names_of server index ++ name ∷ []) index)) k
      ≡ (contains (names_of s index) k || (server == s && name == k))
contains-names_of server s name k index = elim (Bool-cases (server == s)) [
  | inl same ↦
      let e = (eq_iff server s).0 same in rw e simp (dict_laws, contains-append) (ground arith)
  | inr other ↦ simp lookup-insert (rw other (ground arith))
]

module _ (tool : Tool) (server : String) (now : ℕ) (r : Registry) (p n : String)
    (a : Admitted tool r p n) where
  -- an entry after the registration is the new one, or was there before
  pub commit-cases :
      (k : String) (t : RegisteredTool)
      → lookup k (commit tool server now r (p, n)).tools ≡ some t
      → ((qualify p n ≡ k) × (t ≡ entry tool server now p n)) ⊎ (lookup k r.tools ≡ some t)
  unfolding commit
  commit-cases k t h = ground (
    arith,
    lookup-insert (qualify p n) k (entry tool server now p n) r.tools,
    eq_iff (qualify p n) k,
  )

  pub commit-keeps :
      (k : String) (t : RegisteredTool)
      → lookup k r.tools ≡ some t
      → lookup k (commit tool server now r (p, n)).tools ≡ some t
  unfolding commit
  commit-keeps k t h = ground (
    arith,
    lookup-insert (qualify p n) k (entry tool server now p n) r.tools,
    eq_iff (qualify p n) k,
    a.fresh,
  )

  pub commit-lookup_self :
      lookup (qualify p n) (commit tool server now r (p, n)).tools
      ≡ some (entry tool server now p n)
  unfolding commit
  commit-lookup_self = simp dict_laws

  commit-contains :
      (s k : String)
      → contains (names_of s (commit tool server now r (p, n)).by_server) k
        ≡ (contains (names_of s r.by_server) k || (server == s && qualify p n == k))
  unfolding commit
  commit-contains s k = contains-names_of server s (qualify p n) k r.by_server

module _ (tool : Tool) (server : String) (now : ℕ) (r : Registry) (p n : String) (v : IsIndexed r)
    (a : Admitted tool r p n) where
  commit-owned :
      (s k : String)
      → contains (names_of s (commit tool server now r (p, n)).by_server) k ≡ true
      → (t : RegisteredTool) × (lookup k (commit tool server now r (p, n)).tools ≡ some t)
        × (t.server_id ≡ s)
  commit-owned s k h = elim (Bool-cases (contains (names_of s r.by_server) k)) [
    | inl old ↦
        let (t, found, mine) = v.owned s k old in
        (t, commit-keeps tool server now r p n a k t found, mine)
    | inr fresh ↦
        let is_new = commit-contains tool server now r p n a s k in
        let same : (server ≡ s) × (qualify p n ≡ k) =
          ground (arith, eq_iff server s, eq_iff (qualify p n) k) in
        (
          entry tool server now p n,
          rw (← same.1) (commit-lookup_self tool server now r p n a),
          same.0,
        )
  ]

  commit-IsIndexed : IsIndexed (commit tool server now r (p, n))
  unfolding commit
  commit-IsIndexed = record {
    keyed = λ k t h. elim (commit-cases tool server now r p n a k t h) [
      | inl (same, e) ↦ rw (← same, e) (refl, parse_tool_name-qualify _ _ p n a.parsed)
      | inr old ↦ v.keyed k t old
    ];
    allowed = λ k t h. elim (commit-cases tool server now r p n a k t h) [
      | inl (same, e) ↦ rw e a.allowed
      | inr old ↦ v.allowed k t old
    ];
    listed = λ k t h.
        rw (commit-contains tool server now r p n a t.server_id k)
          elim (commit-cases tool server now r p n a k t h) [
            | inl (same, e) ↦ rw (← same, e) simp eq_refl (ground arith)
            | inr old ↦ rw (v.listed k t old)
          ];
    owned = commit-owned;
  }

-- Registration, successful or not, keeps the invariant.
pub register_tool-IsIndexed :
    (tool : Tool) (server : String) (now : ℕ) (r : Registry)
    → IsIndexed r
    → IsIndexed (register_tool tool server now r).0
unfolding register_tool
register_tool-IsIndexed tool server now r v = elim (Result-cases (admit tool server r)) [
  | inl ((p, n), e) ↦
      rw (e, register_tool)
        (commit-IsIndexed tool server now r p n v (admit-Admitted tool server r e))
  | inr (e, failed) ↦ rw (failed, register_tool) v
]
