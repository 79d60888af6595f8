-- ===== src/Egress/Clean.antt =====
-- What guardrail/egress.rs flags, and what it leaves as it is.
use mathlib.Core.List.{append_assoc, append-nil}
use mcp_shield.Prelude.{
  ℕ, suc, String, Bool, true, false, not, ◌||◌, ◌&&◌, ◌==◌, Option, none, some, List, [], ◌∷◌, ◌++◌,
  ok, is_empty, ◌≡◌, refl, sym, ap, ◌∙◌, arith, eq_refl, eq_iff, Bool-cases, Option-cases,
  List-cases, inl, inr, ◌⊎◌,
}
use mcp_shield.Json.{
  Value, Fields, null, bool, integer, float, string, array, object, end, field, find_field,
  set_field,
}
use mcp_shield.Egress.Defs.{InspectableResult, PatternType, InjectionPattern, InspectionResult}
use mcp_shield.Egress.Inspector.{
  Regex, detection, PatternEgressInspector, inspect_matches, inspect_patterns, inspect_text,
  text_of, with_text, sanitize_block, sanitize_blocks, sanitize_response,
}

-- No pattern matches the text.
abbrev pub finds_nothing : List (PatternType × Regex) → String → Bool
finds_nothing [] text = true
finds_nothing (p ∷ patterns) text = is_empty (p.1.find_iter text) && finds_nothing patterns text

abbrev pub clean_text : PatternEgressInspector → Option String → Bool
clean_text i none = true
clean_text i (some text) = finds_nothing i.patterns text

-- No pattern matches the text of a block.
abbrev pub clean : PatternEgressInspector → List Value → Bool
clean i [] = true
clean i (block ∷ blocks) = clean_text i (text_of block) && clean i blocks

is_empty-snoc : {A : Type 0} (xs : List A) (x : A) → is_empty (xs ++ x ∷ []) ≡ false
is_empty-snoc [] x = refl
is_empty-snoc (y ∷ xs) x = refl

is_empty-inspect_matches :
    (t : PatternType) (regex : Regex) (replacement : String) (idx : ℕ) (mats : List (ℕ × String))
    (found : List InjectionPattern × String)
    → is_empty (inspect_matches t regex replacement idx mats found).0
      ≡ is_empty found.0 && is_empty mats
unfolding inspect_matches
is_empty-inspect_matches t regex replacement idx [] found = ground arith
is_empty-inspect_matches t regex replacement idx (mat ∷ mats) found =
    is_empty-inspect_matches t regex replacement idx mats _
    ∙ ground (arith, is_empty-snoc found.0 (detection t idx mat))

is_empty-inspect_patterns :
    (replacement text : String) (idx : ℕ) (patterns : List (PatternType × Regex))
    (found : List InjectionPattern × String)
    → is_empty (inspect_patterns replacement text idx patterns found).0
      ≡ is_empty found.0 && finds_nothing patterns text
unfolding inspect_patterns
is_empty-inspect_patterns replacement text idx [] found = ground arith
is_empty-inspect_patterns replacement text idx (p ∷ patterns) found = ground (
  arith,
  is_empty-inspect_patterns replacement text idx patterns
      (inspect_matches p.0 p.1 replacement idx (p.1.find_iter text) found),
  is_empty-inspect_matches p.0 p.1 replacement idx (p.1.find_iter text) found,
)

-- Without a match nothing changes.
inspect_patterns-clean :
    (replacement text : String) (idx : ℕ) (patterns : List (PatternType × Regex))
    (found : List InjectionPattern × String)
    → finds_nothing patterns text ≡ true
    → inspect_patterns replacement text idx patterns found ≡ found
unfolding inspect_patterns inspect_matches
inspect_patterns-clean replacement text idx [] found h = refl
inspect_patterns-clean replacement text idx (p ∷ patterns) found h =
    elim (List-cases (p.1.find_iter text)) [
      | inl empty ↦
          ap
            (λ mats.
              inspect_patterns replacement text idx patterns
                (inspect_matches p.0 p.1 replacement idx mats found))
            empty
          ∙ inspect_patterns-clean replacement text idx patterns found (ground (arith, empty, h))
      | inr (m, ms, nonempty) ↦ absurd (ground (arith, nonempty, h))
    ]

set_field-same :
    (k : String) (v : Value) (fs : Fields) → find_field k fs ≡ some v → set_field k v fs ≡ fs
unfolding find_field set_field
set_field-same k v end h = cc
set_field-same k v (field j w fs) h = elim (Bool-cases (j == k)) [
  | inl same ↦ ground (arith, eq_iff j k, same, h)
  | inr other ↦ ground (arith, other, h, set_field-same k v fs)
]

field_text :
    (fs : Fields) (v : Value) (text : String)
    → find_field "text" fs ≡ some v
    → text_of (object fs) ≡ some text
    → v ≡ string text
unfolding text_of
field_text fs null text present h = ground (arith, present, h)
field_text fs (bool b) text present h = ground (arith, present, h)
field_text fs (integer n) text present h = ground (arith, present, h)
field_text fs (float s) text present h = ground (arith, present, h)
field_text fs (string s) text present h = ground (arith, present, h)
field_text fs (array vs) text present h = ground (arith, present, h)
field_text fs (object gs) text present h = ground (arith, present, h)

-- Writing back the text that was read changes nothing.
with_text-text_of :
    (block : Value) (text : String) → text_of block ≡ some text → with_text block text ≡ block
unfolding text_of with_text
with_text-text_of null text h = refl
with_text-text_of (bool b) text h = refl
with_text-text_of (integer n) text h = refl
with_text-text_of (float s) text h = refl
with_text-text_of (string s) text h = refl
with_text-text_of (array vs) text h = refl
with_text-text_of (object fs) text h = elim (Option-cases (find_field "text" fs)) [
  | inl absent ↦ rw (absent, with_text) refl
  | inr (v, present) ↦
      rw (present, with_text)
        (ap object (
          set_field-same "text" (string text) fs
            (present ∙ ap some (field_text fs v text present h))))
]

or_false : (b : Bool) (text : String) → (b || not true || not (text == text)) ≡ b
or_false b text = ground (arith, eq_refl text)

module _ (i : PatternEgressInspector) (idx : ℕ) (block : Value) (r : InspectionResult) where
  inspect_text-clean :
      (text : String) → finds_nothing i.patterns text ≡ true → inspect_text i text idx ≡ ([], text)
  unfolding inspect_text
  inspect_text-clean text h = inspect_patterns-clean i.replacement text idx i.patterns ([], text) h

  is_empty-inspect_text :
      (text : String) → is_empty (inspect_text i text idx).0 ≡ finds_nothing i.patterns text
  unfolding inspect_text
  is_empty-inspect_text text =
      is_empty-inspect_patterns i.replacement text idx i.patterns ([], text)

  -- A block whose text no pattern matches is kept, and changes nothing else.
  sanitize_block-clean :
      clean_text i (text_of block) ≡ true
      → sanitize_block i idx block r
        ≡ record r { sanitized_content = r.sanitized_content ++ block ∷ [] }
  unfolding sanitize_block
  sanitize_block-clean h = elim (Option-cases (text_of block)) [
    | inl absent ↦ rw (absent, sanitize_block) refl
    | inr (text, present) ↦
        rw (present, sanitize_block)
          (ap
              (λ (d : List InjectionPattern × String). record {
                modified = r.modified || not (is_empty d.0) || not (d.1 == text);
                sanitized_content = r.sanitized_content ++ with_text block d.1 ∷ [];
                detected_patterns = r.detected_patterns ++ d.0;
              })
              (inspect_text-clean text (ground (arith, present, h)))
            ∙ λ j. record {
              modified = or_false r.modified text j;
              sanitized_content =
                  r.sanitized_content ++ with_text-text_of block text present j ∷ [];
              detected_patterns = append-nil r.detected_patterns j;
            })
  ]

  sanitize_block-found :
      clean_text i (text_of block) ≡ false → (sanitize_block i idx block r).modified ≡ true
  unfolding sanitize_block
  sanitize_block-found h = elim (Option-cases (text_of block)) [
    | inl absent ↦ absurd (ground (arith, absent, h))
    | inr (text, present) ↦
        let some_found : is_empty (inspect_text i text idx).0 ≡ false =
          is_empty-inspect_text text ∙ ground (arith, present, h) in
        rw (present, sanitize_block) (ground (arith, some_found))
  ]

-- A flag that is set stays set.
sanitize_block-modified :
    (i : PatternEgressInspector) (idx : ℕ) (block : Value) (r : InspectionResult)
    → (sanitize_block i idx block r).modified ≡ r.modified || not (clean_text i (text_of block))
sanitize_block-modified i idx block r = elim (Bool-cases (clean_text i (text_of block))) [
  | inl nothing ↦
      ap (λ (q : InspectionResult). q.modified) (sanitize_block-clean i idx block r nothing)
      ∙ ground (arith, nothing)
  | inr found ↦ sanitize_block-found i idx block r found ∙ ground (arith, found)
]

sanitize_blocks-modified :
    (i : PatternEgressInspector) (idx : ℕ) (blocks : List Value) (r : InspectionResult)
    → (sanitize_blocks i idx blocks r).modified ≡ r.modified || not (clean i blocks)
unfolding sanitize_blocks
sanitize_blocks-modified i idx [] r = ground arith
sanitize_blocks-modified i idx (block ∷ blocks) r = ground (
  arith,
  sanitize_blocks-modified i (suc idx) blocks (sanitize_block i idx block r),
  sanitize_block-modified i idx block r,
)

sanitize_blocks-clean :
    (i : PatternEgressInspector) (idx : ℕ) (blocks : List Value) (r : InspectionResult)
    → clean i blocks ≡ true
    → sanitize_blocks i idx blocks r
      ≡ record r { sanitized_content = r.sanitized_content ++ blocks }
unfolding sanitize_blocks
sanitize_blocks-clean i idx [] r h =
    λ j. record r { sanitized_content = sym (append-nil r.sanitized_content) j }
sanitize_blocks-clean i idx (block ∷ blocks) r h =
    ap (sanitize_blocks i (suc idx) blocks) (sanitize_block-clean i idx block r (ground (arith, h)))
    ∙ sanitize_blocks-clean i (suc idx) blocks
        (record r { sanitized_content = r.sanitized_content ++ block ∷ [] }) (ground (arith, h))
    ∙ λ j. record r { sanitized_content = append_assoc r.sanitized_content (block ∷ []) blocks j }

-- An inspection succeeds; it flags a result exactly if some pattern matches the text of one of its
-- blocks; and a result is flagged, or has its blocks as they were and no detections.
pub sanitize_response-clean :
    (i : PatternEgressInspector) (result : InspectableResult)
    → (r : InspectionResult) × (sanitize_response i result ≡ ok r)
      × (r.modified ≡ not (clean i result.content))
      × ((r.modified ≡ true)
          ⊎ ((r.sanitized_content ≡ result.content) × (r.detected_patterns ≡ [])))
unfolding sanitize_response
sanitize_response-clean i result =
    let start : InspectionResult = record {
      modified = false;
      sanitized_content = [];
      detected_patterns = [];
    } in
    let r = sanitize_blocks i 0 result.content start in
    let flag = sanitize_blocks-modified i 0 result.content start in
    elim (Bool-cases (clean i result.content)) [
      | inr found ↦ (r, refl, flag, inl (ground (arith, flag, found)))
      | inl nothing ↦
          let same = sanitize_blocks-clean i 0 result.content start nothing in
          (
            r,
            refl,
            flag,
            inr (
              ap (λ (q : InspectionResult). q.sanitized_content) same,
              ap (λ (q : InspectionResult). q.detected_patterns) same,
            ),
          )
    ]
