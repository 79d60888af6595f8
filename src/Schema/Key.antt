-- ===== src/Schema/Key.antt =====
-- The keys of the cache of protocol/schema.rs.
use text.Mathlib.TextLemmas.{append_cancel_left, append_cancel_right}
use mcp_shield.Prelude.{
  ℕ, ◌<◌, ◌-◌, String, ◌≡◌, refl, inl, inr, true, false, Option, none, some, arith, unwrap_or, ltb,
  [], ◌∷◌, Bool-cases, Option-cases, ap, sym, ◌∙◌,
}
use mcp_shield.Text.Defs.{format, byte_len, slice_to, width}
use mcp_shield.Schema.Validator.{key_of}

abbrev len_or : ℕ → Option String → ℕ
len_or n none = n
len_or n (some s) = byte_len s

-- A slice has the bytes that were asked for.
len_or-slice_to : (n : ℕ) (s : String) → len_or n (slice_to n s) ≡ n
unfolding slice_to byte_len
len_or-slice_to n String.[] = ground arith
len_or-slice_to n (String.◌∷◌ c s) =
    let inner = len_or-slice_to (n - width c) s in
    elim (Option-cases (slice_to (n - width c) s)) [
      | inl absent ↦ ground (arith, absent)
      | inr (t, present) ↦ ground (arith, present, inner, ap (len_or (n - width c)) present)
    ]

key-injective :
    (s t : String)
    → ◌≡◌ {A = Option String}
        (some (format ("schema:" ∷ s ∷ [])))
        (some (format ("schema:" ∷ t ∷ [])))
    → s ≡ t
unfolding format
key-injective s t same =
    append_cancel_right s t "" (append_cancel_left "schema:" _ _ (ap (λ o. unwrap_or o "") same))

-- A text shorter than 1024 bytes has a key of its own.
pub key_of-short : (s t : String) → byte_len s < 1024 → key_of t ≡ key_of s → t ≡ s
unfolding key_of
key_of-short s t short same = elim (Bool-cases (ltb 1024 (byte_len t))) [
  | inr fits ↦ key-injective t s (rw (← own s (ground arith)) (rw (← own t fits) same))
  | inl longer ↦ elim (Option-cases (slice_to 1024 t)) [
    | inl panics ↦ absurd (ground (arith, panics, longer, own s (ground arith)))
    | inr (u, cut) ↦
        let equal : u ≡ s =
          key-injective u s (sym (long u longer cut) ∙ (same ∙ own s (ground arith))) in
        absurd (ground (arith, len_or-slice_to 1024 t, ap (len_or 1024) cut, ap byte_len equal))
  ]
]
  where
    own :
        (x : String) → ltb 1024 (byte_len x) ≡ false → key_of x ≡ some (format ("schema:" ∷ x ∷ []))
    own x fits = rw (fits, key_of) refl

    long :
        (u : String)
        → ltb 1024 (byte_len t) ≡ true
        → slice_to 1024 t ≡ some u
        → key_of t ≡ some (format ("schema:" ∷ u ∷ []))
    long u longer cut = rw (longer, key_of) (rw cut refl)
