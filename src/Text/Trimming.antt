-- ===== src/Text/Trimming.antt =====
-- Laws of `trim`.
use Prim.Native.String.{[], ◌∷◌}
use mcp_shield.Prelude.{
  ℕ, code, String, ◌≡◌, refl, false, arith, ap, ◌∙◌, Bool-cases, inl, inr, ◌&&◌, ◌==◌,
}
use mcp_shield.Text.Defs.{contains_char, is_whitespace, trim_start, trim_end, trim}

-- The text does not begin with whitespace.
abbrev IsFlush : String → Type 0
IsFlush [] = Unit
IsFlush (c ∷ s) = is_whitespace (code c) ≡ false

trim_start-IsFlush : (s : String) → IsFlush (trim_start s)
unfolding trim_start
trim_start-IsFlush [] = tt
trim_start-IsFlush (c ∷ s) = elim (Bool-cases (is_whitespace (code c))) [
  | inl blank ↦ rw blank (trim_start-IsFlush s)
  | inr plain ↦ rw (plain, plain)
]

trim_start_of_IsFlush : (s : String) → IsFlush s → trim_start s ≡ s
unfolding trim_start
trim_start_of_IsFlush [] h = refl
trim_start_of_IsFlush (c ∷ s) h = rw h

trim_end-IsFlush : (s : String) → IsFlush s → IsFlush (trim_end s)
unfolding trim_end
trim_end-IsFlush [] h = tt
trim_end-IsFlush (c ∷ s) h = rw h h

trim_end_idem : (s : String) → trim_end (trim_end s) ≡ trim_end s
unfolding trim_end
trim_end_idem [] = refl
trim_end_idem (c ∷ s) = elim (Bool-cases (is_whitespace (code c) && trim_end s == "")) [
  | inl cut ↦ rw cut
  | inr kept ↦ rw kept (rw (trim_end_idem s, kept))
]

-- A second `trim` changes nothing.
pub trim_idem : (s : String) → trim (trim s) ≡ trim s
unfolding trim
trim_idem s =
    ap trim_end (trim_start_of_IsFlush _ (trim_end-IsFlush _ (trim_start-IsFlush s)))
    ∙ trim_end_idem (trim_start s)

module _ (d : ℕ) where
  contains_char-trim_start :
      (s : String) → contains_char d s ≡ false → contains_char d (trim_start s) ≡ false
  unfolding contains_char trim_start
  contains_char-trim_start [] h = refl
  contains_char-trim_start (c ∷ s) h = ground (arith, contains_char-trim_start s)

  contains_char-trim_end :
      (s : String) → contains_char d s ≡ false → contains_char d (trim_end s) ≡ false
  unfolding contains_char trim_end
  contains_char-trim_end [] h = refl
  contains_char-trim_end (c ∷ s) h =
      elim (Bool-cases (is_whitespace (code c) && trim_end s == "")) [
        | inl cut ↦ rw cut
        | inr kept ↦ rw kept (ground (arith, contains_char-trim_end s))
      ]

  -- What a text does not hold, it does not hold after `trim`.
  pub contains_char-trim :
      (s : String) → contains_char d s ≡ false → contains_char d (trim s) ≡ false
  unfolding trim
  contains_char-trim s h = contains_char-trim_end _ (contains_char-trim_start s h)
