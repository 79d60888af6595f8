-- ===== src/Prelude.antt =====
-- The names that the modules share: the libraries', passed on, and Boolean tests, results and
-- predicates on lists.
use Prim.Native.Nat.{compare, Ordering}
pub use Prim.Native.Nat.{ℕ, zero, suc, ◌+◌, ◌-◌, ◌*◌, ◌^◌, ◌≤◌, ◌<◌}
pub use Prim.Native.Char.{Char, code}
pub use Prim.Native.String.{String}
pub use mathlib.Core.Path.{◌≡◌, refl, sym, ap, ◌∙◌, ◌≡⟨◌⟩◌, ◌∎}
pub use mathlib.Core.Logic.{◌≢◌, ◌↔◌, ◌⊎◌, inl, inr}
pub use mathlib.Core.Bool.{Bool, true, false, not, ◌&&◌, ◌||◌}
pub use mathlib.Core.Option.{Option, none, some}
pub use mathlib.Core.List.{List, [], ◌∷◌, ◌++◌, map}
pub use native.Mathlib.Omega.{arith}
pub use text.Mathlib.Text.{◌==◌, starts_with}
pub use text.Mathlib.TextEquality.{eq_iff}
pub use text.Mathlib.TextPositions.{eq_refl}

abbrev pub ltb : ℕ → ℕ → Bool
ltb a b = elim (compare a b) [ Ordering.lt ↦ true | _ ↦ false ]

abbrev pub leb : ℕ → ℕ → Bool
leb a b = elim (compare a b) [ Ordering.gt ↦ false | _ ↦ true ]

abbrev pub eqb : ℕ → ℕ → Bool
eqb a b = elim (compare a b) [ Ordering.eq ↦ true | _ ↦ false ]

infix 1 if◌then◌else◌
abbrev pub if◌then◌else◌ {ℓ} : {A : Type ℓ} → Bool → A → A → A
if true then x else y = x
if false then x else y = y

pub Bool-cases : (b : Bool) → (b ≡ true) ⊎ (b ≡ false)
Bool-cases true = inl refl
Bool-cases false = inr refl

pub Option-cases {ℓ} : {A : Type ℓ} (o : Option A) → (o ≡ none) ⊎ ((a : A) × (o ≡ some a))
Option-cases none = inl refl
Option-cases (some a) = inr (a, refl)

pub List-cases {ℓ} :
    {A : Type ℓ} (l : List A) → (l ≡ []) ⊎ ((x : A) × (rest : List A) × (l ≡ x ∷ rest))
List-cases [] = inl refl
List-cases (x ∷ rest) = inr (x, rest, refl)

-- Rust's `Result<A, E>`, the error type first.
pub data Result {ℓ κ} (E : Type ℓ) (A : Type κ) : Type (ℓ ⊔ κ) where
  ok : A → Result E A
  err : E → Result E A

pub Result-cases {ℓ κ} :
    {E : Type ℓ} {A : Type κ} (r : Result E A) → ((a : A) × (r ≡ ok a)) ⊎ ((e : E) × (r ≡ err e))
Result-cases (ok a) = inl (a, refl)
Result-cases (err e) = inr (e, refl)

pub ok-injective {ℓ κ} :
    {E : Type ℓ} {A : Type κ} {a b : A} → ◌≡◌ {A = Result E A} (ok a) (ok b) → a ≡ b
ok-injective h = cc

-- The `?` operator.
infixl 5 ◌>>=◌
abbrev pub ◌>>=◌ {ℓ κ μ} :
    {A : Type ℓ} {B : Type κ} {E : Type μ} → Result E A → (A → Result E B) → Result E B
◌>>=◌ action continue = elim action [ err e ↦ err e | ok value ↦ continue value ]

infixl 5 ◌>>◌
abbrev pub ◌>>◌ {ℓ μ} : {B : Type ℓ} {E : Type μ} → Result E (Unit {0}) → Result E B → Result E B
◌>>◌ action after = elim action [ err e ↦ err e | ok _ ↦ after ]

-- A check that returns early with an error.
abbrev pub guard {ℓ} : {E : Type ℓ} → Bool → E → Result E (Unit {0})
guard passes error = if passes then ok tt else err error

-- `Option::ok_or`.
abbrev pub ok_or {ℓ κ} : {E : Type ℓ} {A : Type κ} → Option A → E → Result E A
ok_or (some a) e = ok a
ok_or none e = err e

abbrev pub is_ok {ℓ κ} : {E : Type ℓ} {A : Type κ} → Result E A → Bool
is_ok (ok a) = true
is_ok (err e) = false

abbrev pub unwrap_or {ℓ} : {A : Type ℓ} → Option A → A → A
unwrap_or (some a) d = a
unwrap_or none d = d

abbrev pub is_some {ℓ} : {A : Type ℓ} → Option A → Bool
is_some (some a) = true
is_some none = false

pub >>=-eq-ok {ℓ κ μ} :
    {A : Type ℓ} {B : Type κ} {E : Type μ} (action : Result E A) (continue : A → Result E B) {b : B}
    → (action >>= continue) ≡ ok b
    → (value : A) × (action ≡ ok value) × (continue value ≡ ok b)
>>=-eq-ok (err e) continue returns = cc
>>=-eq-ok (ok value) continue returns = (value, refl, returns)

pub guard-eq-ok {ℓ} : {E : Type ℓ} (b : Bool) (e : E) {u : Unit {0}} → guard b e ≡ ok u → b ≡ true
guard-eq-ok true e h = refl
guard-eq-ok false e h = cc

module _ {ℓ} {A : Type ℓ} where
  abbrev pub length : List A → ℕ
  length [] = 0
  length (x ∷ xs) = suc (length xs)

  abbrev pub is_empty : List A → Bool
  is_empty [] = true
  is_empty (x ∷ xs) = false

abbrev pub All {ℓ κ} : {A : Type ℓ} → (A → Type κ) → List A → Type κ
All P [] = Unit
All P (x ∷ xs) = P x × All P xs

pub All-append {ℓ κ} :
    {A : Type ℓ} (P : A → Type κ) (front back : List A)
    → All P front
    → All P back
    → All P (front ++ back)
All-append P (x ∷ front) back (first, middle) others =
    (first, All-append P front back middle others)
All-append P [] back empty others = others

-- `contains` of a list of texts.
abbrev pub contains : List String → String → Bool
contains [] s = false
contains (x ∷ xs) s = x == s || contains xs s

pub contains-append :
    (xs : List String) (x s : String) → contains (xs ++ x ∷ []) s ≡ contains xs s || x == s
contains-append [] x s = ground arith
contains-append (y ∷ xs) x s = ground (arith, contains-append xs x s)

pub ne→eq-false : (s t : String) → s ≢ t → (s == t) ≡ false
ne→eq-false s t h = ground (arith, eq_iff s t)

pub eq_sym : (s t : String) → (s == t) ≡ (t == s)
eq_sym s t = ground (arith, eq_iff s t, eq_iff t s)

-- What holds of each text of a list holds of a text that the list contains.
pub All-contains {ℓ} :
    (P : String → Type ℓ) (xs : List String) (s : String) → All P xs → contains xs s ≡ true → P s
All-contains P [] s h k = cc
All-contains P (x ∷ xs) s (hx, h) k = elim (Bool-cases (x == s)) [
  | inl same ↦ rw (← (eq_iff x s).0 same) hx
  | inr other ↦ All-contains P xs s h (ground arith)
]
