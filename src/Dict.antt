-- ===== src/Dict.antt =====
-- `HashMap<String, V>` as an association list, in the order of iteration, which `HashMap` leaves
-- open: theorems range over every order.
use mcp_shield.Prelude.{
  String, ◌≡◌, refl, Option, none, some, List, [], ◌∷◌, arith, ◌==◌, eq_iff, eq_refl, Bool, ℕ,
  if◌then◌else◌, length, is_some,
}

abbrev pub Dict {ℓ} : Type ℓ → Type ℓ
Dict V = List (String × V)

module _ {ℓ} {V : Type ℓ} where
  -- `map.get(key)`
  unfoldable pub lookup : String → Dict V → Option V
  lookup key (entry ∷ rest) = if entry.0 == key then some entry.1 else lookup key rest
  lookup key [] = none

  -- `map.insert(key, value)`: the entry of the key is overwritten, or a new one is added.
  unfoldable pub insert : String → V → Dict V → Dict V
  insert key value (entry ∷ rest) =
      if entry.0 == key then (key, value) ∷ rest else entry ∷ insert key value rest
  insert key value [] = (key, value) ∷ []

  -- `map.remove(k)`
  unfoldable pub remove : String → Dict V → Dict V
  remove k [] = []
  remove k ((j, v) ∷ m) = let rest = remove k m in if j == k then rest else (j, v) ∷ rest

module _ {ℓ} {V : Type ℓ} where
  pub lookup-insert :
      (key other : String) (value : V) (m : Dict V)
      → lookup other (insert key value m) ≡ (if key == other then some value else lookup other m)
  unfolding insert lookup
  lookup-insert key other value (entry ∷ rest) =
      let inner = lookup-insert key other value rest in
      ground (arith, inner, eq_iff entry.0 key, eq_iff entry.0 other, eq_iff key other)
  lookup-insert key other value [] = refl

  pub lookup-remove :
      (k j : String) (m : Dict V) → lookup j (remove k m) ≡ (if k == j then none else lookup j m)
  unfolding lookup remove
  lookup-remove k j [] = ground arith
  lookup-remove k j ((i, v) ∷ m) =
      ground (arith, lookup-remove k j m, eq_iff i k, eq_iff i j, eq_iff k j)

  pub lookup-insert_self :
      (key : String) (value : V) (m : Dict V) → lookup key (insert key value m) ≡ some value
  lookup-insert_self key value m = rw (lookup-insert key key value m, eq_refl key)

pub ruleset dict_laws = (lookup-insert, lookup-remove, eq_refl)
