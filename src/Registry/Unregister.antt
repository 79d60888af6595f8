-- ===== src/Registry/Unregister.antt =====
-- Unregistering a server keeps the invariant of the registry.
use mcp_shield.Prelude.{
  String, ◌≡◌, refl, ap, true, false, ◌==◌, some, none, List, [], ◌∷◌, arith, eq_iff, Bool-cases,
  Option-cases, inl, inr, contains, if◌then◌else◌,
}
use mcp_shield.Dict.{Dict, lookup, remove, lookup-remove}
use mcp_shield.Registry.State.{RegisteredTool, Registry, names_of, remove_all, unregister_server}
use mcp_shield.Registry.Index.{IsIndexed}

-- Lookup after the removal of a list of names.
pub lookup-remove_all :
    (names : List String) (k : String) (tools : Dict RegisteredTool)
    → lookup k (remove_all names tools) ≡ (if contains names k then none else lookup k tools)
unfolding remove_all
lookup-remove_all [] k tools = refl
lookup-remove_all (name ∷ names) k tools =
    ground (arith, lookup-remove_all names k (remove name tools), lookup-remove name k tools)

module _ (server : String) (r : Registry) where
  -- Whether the server is known or not, its names are removed and so is its index.
  pub tools-unregister_server :
      (k : String)
      → lookup k (unregister_server server r).0.tools
        ≡ (if contains (names_of server r.by_server) k then none else lookup k r.tools)
  unfolding unregister_server
  tools-unregister_server k = elim (Option-cases (lookup server r.by_server)) [
    | inl unknown ↦ rw (unknown, unregister_server)
    | inr (names, known) ↦ rw (known, unregister_server) (lookup-remove_all names k r.tools)
  ]

  pub names-unregister_server :
      (s : String)
      → names_of s (unregister_server server r).0.by_server
        ≡ (if server == s then [] else names_of s r.by_server)
  unfolding unregister_server
  names-unregister_server s = elim (Option-cases (lookup server r.by_server)) [
    | inl unknown ↦ rw (unknown, unregister_server) (ground (arith, eq_iff server s))
    | inr (names, known) ↦
        rw (known, unregister_server) (ground (arith, lookup-remove server s r.by_server))
  ]

  pub config-unregister_server :
      ((unregister_server server r).0.enforce_prefix_format ≡ r.enforce_prefix_format)
      × ((unregister_server server r).0.allowed_prefixes ≡ r.allowed_prefixes)
  unfolding unregister_server
  config-unregister_server = ground arith

-- Unregistering a server keeps the invariant.
module _ (server : String) (r : Registry) (v : IsIndexed r) where
  pub unregister-kept :
      (k : String) (t : RegisteredTool)
      → lookup k (unregister_server server r).0.tools ≡ some t
      → (contains (names_of server r.by_server) k ≡ false) × (lookup k r.tools ≡ some t)
  unregister-kept k t h = ground (arith, tools-unregister_server server r k)

  -- a tool that is kept is another server's
  pub unregister-other :
      (k : String) (t : RegisteredTool)
      → lookup k (unregister_server server r).0.tools ≡ some t
      → (server == t.server_id) ≡ false
  unregister-other k t h =
      let (gone, found) = unregister-kept k t h in
      ground (
        arith,
        eq_iff server t.server_id,
        v.listed k t found,
        ap (λ s. contains (names_of s r.by_server) k),
      )

  -- a name belongs to one server
  pub names-disjoint :
      (s k : String)
      → (server == s) ≡ false
      → contains (names_of s r.by_server) k ≡ true
      → contains (names_of server r.by_server) k ≡ false
  names-disjoint s k other h = elim (Bool-cases (contains (names_of server r.by_server) k)) [
    | inr free ↦ free
    | inl taken ↦
        let (t, found, mine) = v.owned s k h in
        let (t', found', mine') = v.owned server k taken in
        let same : t ≡ t' = ground arith in
        ground (arith, eq_iff server s, ap (λ (x : RegisteredTool). x.server_id) same)
  ]

  unregister-owned :
      (s k : String)
      → contains (names_of s (unregister_server server r).0.by_server) k ≡ true
      → (t : RegisteredTool) × (lookup k (unregister_server server r).0.tools ≡ some t)
        × (t.server_id ≡ s)
  unregister-owned s k h =
      let names = names-unregister_server server r s in
      let kept : ((server == s) ≡ false) × (contains (names_of s r.by_server) k ≡ true) =
        ground (arith, ap (λ l. contains l k) names) in
      let (t, found, mine) = v.owned s k kept.1 in
      (t, rw (tools-unregister_server server r k, names-disjoint s k kept.0 kept.1) found, mine)

  pub unregister_server-IsIndexed : IsIndexed (unregister_server server r).0
  unregister_server-IsIndexed = record {
    keyed =
        λ k t h. rw (config-unregister_server server r).0 (v.keyed k t (unregister-kept k t h).1);
    allowed =
        λ k t h. rw (config-unregister_server server r).1 (v.allowed k t (unregister-kept k t h).1);
    listed = λ k t h.
        rw (names-unregister_server server r t.server_id, unregister-other k t h)
          (v.listed k t (unregister-kept k t h).1);
    owned = unregister-owned;
  }
