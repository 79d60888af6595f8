-- ===== src/Text/Splitting.antt =====
-- Laws of `splitn(2, c)` and of `contains` of a character.
use Prim.Native.String
use Prim.Native.String.{[], ◌∷◌}
use text.Mathlib.TextLemmas.{nil-append, cons-append}
use mcp_shield.Prelude.{
  ℕ, Char, code, String, ◌≡◌, refl, false, Option, none, some, arith, Bool-cases, inl, inr, eqb,
  sym, ap,
}
use mcp_shield.Text.Defs.{contains_char, split_once, prepend}

prepend-eq-some :
    (c : Char) (o : Option (String × String)) {a b : String}
    → prepend c o ≡ some (a, b)
    → (r : String) × (o ≡ some (r, b)) × (a ≡ c ∷ r)
prepend-eq-some c none h = cc
prepend-eq-some c (some (r, b')) h = (r, ground arith, ground arith)

-- The part before the separator does not hold it, and the text is its parts joined.
pub record Parts (d : ℕ) (s a b : String) : Type 0 where
  pub clean : contains_char d a ≡ false
  pub separator : Char
  pub is_separator : code separator ≡ d
  pub joined : s ≡ String.◌++◌ a (separator ∷ b)

Parts-here : (d : ℕ) (c : Char) (s : String) → code c ≡ d → Parts d (c ∷ s) [] s
unfolding contains_char
Parts-here d c s e = record {
  clean = refl;
  separator = c;
  is_separator = e;
  joined = sym (nil-append (c ∷ s));
}

Parts-later :
    (d : ℕ) (c : Char) (s a b : String)
    → eqb (code c) d ≡ false
    → Parts d s a b
    → Parts d (c ∷ s) (c ∷ a) b
unfolding contains_char
Parts-later d c s a b other p = record {
  clean = rw other p.clean;
  separator = p.separator;
  is_separator = p.is_separator;
  joined = rw cons-append (ap (λ t. c ∷ t) p.joined);
}

pub split_once-Parts : (d : ℕ) (s a b : String) → split_once d s ≡ some (a, b) → Parts d s a b
unfolding split_once
split_once-Parts d [] a b h = cc
split_once-Parts d (c ∷ s) a b h = elim (Bool-cases (eqb (code c) d)) [
  | inl same ↦
      let here : ◌≡◌ {A = Option (String × String)} (some ([], s)) (some (a, b)) = rw same at h in
      let first : [] ≡ a = ground arith in
      let second : s ≡ b = ground arith in rw (← first, ← second) (Parts-here d c s (ground arith))
  | inr other ↦
      let (r, rest, e) = prepend-eq-some c (split_once d s) (rw other at h) in
      rw e (Parts-later d c s r b other (split_once-Parts d s r b rest))
]

-- A text splits at the first separator.
pub split_once-append :
    (d : ℕ) (a : String) (c : Char) (b : String)
    → code c ≡ d
    → contains_char d a ≡ false
    → split_once d (String.◌++◌ a (c ∷ b)) ≡ some (a, b)
unfolding contains_char split_once
split_once-append d [] c b h k = rw nil-append (ground arith)
split_once-append d (x ∷ a) c b h k = rw cons-append (ground (arith, split_once-append d a c b h))

-- A text without the separator is not split.
pub split_once-eq-none : (d : ℕ) (s : String) → contains_char d s ≡ false → split_once d s ≡ none
unfolding contains_char split_once
split_once-eq-none d [] h = refl
split_once-eq-none d (c ∷ s) h = ground (arith, split_once-eq-none d s)
