-- ===== src/ControlPlane/Loading.antt =====
-- What control_plane/db.rs loads for a tenant, after any run of its methods.
use mcp_shield.Prelude.{
  ℕ, String, ◌≡◌, ◌↔◌, ◌⊎◌, refl, sym, ap, ◌∙◌, inl, inr, Bool, true, false, ◌&&◌, ◌==◌, Option,
  none, some, List, [], ◌∷◌, arith, Bool-cases, eq_iff, eq_sym, ne→eq-false, unwrap_or,
  if◌then◌else◌,
}
use mathlib.Core.Path.{subst}
use mcp_shield.Dict.{Dict, lookup, insert, lookup-insert}
use mcp_shield.ControlPlane.Store.{
  Tenant, PolicyEntry, UpstreamEntry, RateLimitRule, Store, new, select, load_policies,
  update_policy, create_tenant, add_upstream, add_rate_limit_rule,
}

-- A value is one of a list.
abbrev pub Among : {V : Type 0} → V → List V → Type 0
Among v [] = ⊥
Among v (w ∷ vs) = (v ≡ w) ⊎ Among v vs

-- Each key once, which is that of its value.
abbrev IsKeyed : {V : Type 0} → (V → String) → Dict V → Type 0
IsKeyed key [] = Unit {0}
IsKeyed key (entry ∷ m) = (entry.0 ≡ key entry.1) × (lookup entry.0 m ≡ none) × IsKeyed key m

module _ {V : Type 0} (key : V → String) where
  IsKeyed-insert : (v : V) (m : Dict V) → IsKeyed key m → IsKeyed key (insert (key v) v m)
  unfolding insert lookup
  IsKeyed-insert v [] keyed = (refl, refl, tt)
  IsKeyed-insert v (entry ∷ m) (own, fresh, keyed) = elim (Bool-cases (entry.0 == key v)) [
    | inl same ↦
        rw (same, insert)
          (refl, subst (λ k. lookup k m ≡ none) ((eq_iff entry.0 (key v)).0 same) fresh, keyed)
    | inr other ↦
        rw (other, insert)
          (
            own,
            lookup-insert (key v) entry.0 v m
                ∙ ap (λ b. if b then some v else lookup entry.0 m) (eq_sym (key v) entry.0 ∙ other)
                ∙ fresh,
            IsKeyed-insert v m keyed,
          )
  ]

  module _ (keeps : V → Bool) (entry : String × V) (m : Dict V) where
    takes : keeps entry.1 ≡ true → select keeps (entry ∷ m) ≡ entry.1 ∷ select keeps m
    unfolding select
    takes wanted = rw (wanted, select) refl

    leaves : keeps entry.1 ≡ false → select keeps (entry ∷ m) ≡ select keeps m
    unfolding select
    leaves unwanted = rw (unwanted, select) refl

    misses : (k : String) → (entry.0 == k) ≡ false → lookup k (entry ∷ m) ≡ lookup k m
    unfolding lookup
    misses k other = rw (other, lookup) refl

    hits : (k : String) → (entry.0 == k) ≡ true → lookup k (entry ∷ m) ≡ some entry.1
    unfolding lookup
    hits k same = rw (same, lookup) refl

  -- What is selected is stored under its key and is wanted.
  Among-select :
      (keeps : V → Bool) (v : V) (m : Dict V)
      → IsKeyed key m
      → Among v (select keeps m)
      → (lookup (key v) m ≡ some v) × (keeps v ≡ true)
  unfolding select
  Among-select keeps v [] keyed h = absurd h
  Among-select keeps v (entry ∷ m) (own, fresh, keyed) h =
      let later : Among v (select keeps m)
          → (lookup (key v) (entry ∷ m) ≡ some v) × (keeps v ≡ true) =
        λ h.
          let (stored, wanted) = Among-select keeps v m keyed h in
          let other : (entry.0 == key v) ≡ false =
            ne→eq-false entry.0 (key v) (λ same. cc (ap (λ k. lookup k m) same, fresh, stored)) in
          (misses keeps entry m (key v) other ∙ stored, wanted) in
      elim (Bool-cases (keeps entry.1)) [
        | inr unwanted ↦ later (subst (Among v) (leaves keeps entry m unwanted) h)
        | inl wanted ↦
            let h' : (v ≡ entry.1) ⊎ Among v (select keeps m) =
              subst (Among v) (takes keeps entry m wanted) h in
            elim h' [
              | inr h ↦ later h
              | inl is_entry ↦ (
                hits keeps entry m (key v)
                      ((eq_iff entry.0 (key v)).1 (own ∙ ap key (sym is_entry)))
                    ∙ ap some (sym is_entry),
                ap keeps is_entry ∙ wanted,
              )
            ]
      ]

  -- What is stored under its key and is wanted is selected.
  select-Among :
      (keeps : V → Bool) (v : V) (m : Dict V)
      → lookup (key v) m ≡ some v
      → keeps v ≡ true
      → Among v (select keeps m)
  unfolding lookup
  select-Among keeps v [] stored wanted = cc
  select-Among keeps v (entry ∷ m) stored wanted = elim (Bool-cases (entry.0 == key v)) [
    | inl same ↦
        let is_entry : v ≡ entry.1 =
          ap (λ o. unwrap_or o v) (sym stored ∙ hits keeps entry m (key v) same) in
        subst (Among v) (sym (takes keeps entry m (sym (ap keeps is_entry) ∙ wanted)))
          (inl is_entry)
    | inr other ↦
        let later =
          select-Among keeps v m (sym (misses keeps entry m (key v) other) ∙ stored) wanted in
        elim (Bool-cases (keeps entry.1)) [
          | inl kept ↦ subst (Among v) (sym (takes keeps entry m kept)) (inr later)
          | inr left ↦ subst (Among v) (sym (leaves keeps entry m left)) later
        ]
  ]

-- The stores that the methods make of a new one.
pub data Run : Store → Type 0 where
  start : (created updated : ℕ) → Run (new created updated)
  policy : (p : PolicyEntry) {s : Store} → Run s → Run (update_policy p s)
  tenant : (t : Tenant) {s : Store} → Run s → Run (create_tenant t s).0
  upstream : (u : UpstreamEntry) {s : Store} → Run s → Run (add_upstream u s)
  rule : (r : RateLimitRule) {s : Store} → Run s → Run (add_rate_limit_rule r s)

policies-create_tenant : (t : Tenant) (s : Store) → (create_tenant t s).0.policies ≡ s.policies
unfolding create_tenant
policies-create_tenant t s = ground arith

Run-IsKeyed : (s : Store) → Run s → IsKeyed (λ p. p.policy_id) s.policies
unfolding new update_policy add_upstream add_rate_limit_rule
Run-IsKeyed _ (start created updated) = tt
Run-IsKeyed _ (policy p {s} run) =
    IsKeyed-insert (λ p. p.policy_id) p s.policies (Run-IsKeyed s run)
Run-IsKeyed _ (tenant t {s} run) =
    subst (IsKeyed (λ p. p.policy_id)) (sym (policies-create_tenant t s)) (Run-IsKeyed s run)
Run-IsKeyed _ (upstream u {s} run) = Run-IsKeyed s run
Run-IsKeyed _ (rule r {s} run) = Run-IsKeyed s run

-- The last update of the policy with an identifier.
abbrev pub latest : {s : Store} → String → Run s → Option PolicyEntry
latest id (start created updated) = none
latest id (policy p run) = if p.policy_id == id then some p else latest id run
latest id (tenant t run) = latest id run
latest id (upstream u run) = latest id run
latest id (rule r run) = latest id run

lookup-latest : (s : Store) (id : String) (run : Run s) → lookup id s.policies ≡ latest id run
unfolding new lookup update_policy add_upstream add_rate_limit_rule
lookup-latest _ id (start created updated) = refl
lookup-latest _ id (policy p {s} run) =
    lookup-insert p.policy_id id p s.policies
    ∙ ap (λ o. if p.policy_id == id then some p else o) (lookup-latest s id run)
lookup-latest _ id (tenant t {s} run) =
    ap (lookup id) (policies-create_tenant t s) ∙ lookup-latest s id run
lookup-latest _ id (upstream u {s} run) = lookup-latest s id run
lookup-latest _ id (rule r {s} run) = lookup-latest s id run

-- After any run of the methods, the policies loaded for a tenant are those that are the last update
-- of their identifier, whoever made it, and belong to the tenant and are enabled.
pub load_policies_iff :
    (s : Store) (tenant_id : String) (p : PolicyEntry) (run : Run s)
    → Among p (load_policies tenant_id s)
      ↔ ((latest p.policy_id run ≡ some p) × (p.tenant_id ≡ tenant_id) × (p.enabled ≡ true))
unfolding load_policies
load_policies_iff s tenant_id p run =
    let key = λ (q : PolicyEntry). q.policy_id in
    let keeps = λ (q : PolicyEntry). q.tenant_id == tenant_id && q.enabled in
    let same = lookup-latest s p.policy_id run in
    (
      λ loaded.
          let (stored, wanted) = Among-select key keeps p s.policies (Run-IsKeyed s run) loaded in
          (
            sym same ∙ stored,
            (eq_iff p.tenant_id tenant_id).0 (ground (arith, wanted)),
            ground (arith, wanted),
          ),
      λ (stored, owned, enabled).
          select-Among key keeps p s.policies (same ∙ stored)
            (ground (arith, (eq_iff p.tenant_id tenant_id).1 owned, enabled)),
    )
