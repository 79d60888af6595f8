-- ===== src/Registry/Canonical.antt =====
-- What `parse_tool_name` accepts, and that it brings names to one form.
use Prim.Native.String
use Prim.Native.String.{◌∷◌}
use text.Mathlib.TextLemmas.{nil-append, cons-append, append-nil}
use mcp_shield.Prelude.{
  Char, String, ◌≡◌, ◌≤◌, ◌≢◌, refl, sym, ap, ◌∙◌, Bool, true, false, not, ◌||◌, Option, some, ok,
  err, arith, eq_iff, Option-cases, inl, inr,
}
use mcp_shield.Text.Defs.{byte_len, split_once, trim, contains_char, all_chars}
use mcp_shield.Text.Splitting.{split_once-append, split_once-Parts, split_once-eq-none}
use mcp_shield.Text.Trimming.{trim_idem, contains_char-trim}
use mcp_shield.Registry.Errors.{unqualified}
use mcp_shield.Registry.Name.{is_prefix_char, is_name_char, check_parts, parse_tool_name, qualify}

-- The form of the parts under which a tool is registered.
pub record IsCanonical (enforce : Bool) (prefix name : String) : Type 0 where
  pub prefix_nonempty : prefix ≢ ""
  pub name_nonempty : name ≢ ""
  pub dotted : (not enforce || contains_char b'.' prefix) ≡ true
  pub prefix_chars : (not enforce || all_chars is_prefix_char prefix) ≡ true
  pub name_chars : all_chars is_name_char name ≡ true
  pub shortest : 1 ≤ byte_len name
  pub longest : byte_len name ≤ 128

check_parts-IsCanonical :
    (enforce : Bool) (p n : String) {q : String × String}
    → check_parts enforce p n ≡ ok q
    → IsCanonical enforce p n
unfolding check_parts
check_parts-IsCanonical enforce p n h = record {
  prefix_nonempty = ground (arith, eq_iff p "");
  name_nonempty = ground (arith, eq_iff n "");
  dotted = ground arith;
  prefix_chars = ground arith;
  name_chars = ground arith;
  shortest = ground arith;
  longest = ground arith;
}

check_parts-eq :
    (enforce : Bool) (p n : String) {q : String × String}
    → check_parts enforce p n ≡ ok q
    → q ≡ (p, n)
unfolding check_parts
check_parts-eq enforce p n h = ground arith

-- The parts that a successful parse has cut and trimmed.
record Cut (raw : String) (enforce : Bool) (p n : String) : Type 0 where
  before : String
  after : String
  split : split_once b':' raw ≡ some (before, after)
  prefix : p ≡ trim before
  name : n ≡ trim after
  checked : check_parts enforce (trim before) (trim after) ≡ ok (trim before, trim after)

Cut-parse :
    (raw : String) (enforce : Bool) {p n : String}
    → parse_tool_name raw enforce ≡ ok (p, n)
    → Cut raw enforce p n
unfolding parse_tool_name
Cut-parse raw enforce {p} {n} h = elim (Option-cases (split_once b':' raw)) [
  | inl missing ↦ cc (rw missing at h)
  | inr ((a, b), found) ↦
      let checked : check_parts enforce (trim a) (trim b) ≡ ok (p, n) = rw found at h in
      let same = check_parts-eq enforce (trim a) (trim b) checked in
      record {
        before = a;
        after = b;
        split = found;
        prefix = ap (λ t. t.0) same;
        name = ap (λ t. t.1) same;
        checked = rw same at checked;
      }
]

-- What is accepted is canonical.
pub parse_tool_name-IsCanonical :
    (raw : String) (enforce : Bool) {p n : String}
    → parse_tool_name raw enforce ≡ ok (p, n)
    → IsCanonical enforce p n
parse_tool_name-IsCanonical raw enforce h =
    let c = Cut-parse raw enforce h in
    rw (c.prefix, c.name) (check_parts-IsCanonical enforce _ _ c.checked)

-- No accepted prefix holds a colon.
pub no_colon-parse_tool_name :
    (raw : String) (enforce : Bool) {p n : String}
    → parse_tool_name raw enforce ≡ ok (p, n)
    → contains_char b':' p ≡ false
no_colon-parse_tool_name raw enforce h =
    let c = Cut-parse raw enforce h in
    rw c.prefix (contains_char-trim b':' _ (split_once-Parts b':' raw _ _ c.split).clean)

split_once-qualify :
    (p n : String) → contains_char b':' p ≡ false → split_once b':' (qualify p n) ≡ some (p, n)
unfolding qualify
split_once-qualify p n h =
    let colon : Char = ":" in
    let joined : String.◌++◌ ":" n ≡ colon ∷ n =
      cons-append colon "" n ∙ ap (λ t. colon ∷ t) (nil-append n) in
    simp append-nil (rw joined (split_once-append b':' p colon n refl h))

-- A qualified name parses to the parts that it was made of: parsing it again changes nothing.
pub parse_tool_name-qualify :
    (raw : String) (enforce : Bool) (p n : String)
    → parse_tool_name raw enforce ≡ ok (p, n)
    → parse_tool_name (qualify p n) enforce ≡ ok (p, n)
unfolding parse_tool_name
parse_tool_name-qualify raw enforce p n h =
    let c = Cut-parse raw enforce h in
    let split = split_once-qualify p n (no_colon-parse_tool_name raw enforce h) in
    rw split (rw (c.prefix, c.name) (rw (trim_idem, trim_idem) c.checked))

-- The parts can be read off a qualified name, so that two tools share one only if they agree in both.
pub qualify-injective :
    (p n p' n' : String)
    → contains_char b':' p ≡ false
    → contains_char b':' p' ≡ false
    → qualify p n ≡ qualify p' n'
    → (p ≡ p') × (n ≡ n')
qualify-injective p n p' n' h h' e =
    let left = split_once-qualify p n h in
    let right = split_once-qualify p' n' h' in
    let both : ◌≡◌ {A = Option (String × String)} (some (p, n)) (some (p', n')) =
      sym left ∙ (rw e right) in
    (ground arith, ground arith)

-- A name without a colon is refused.
pub parse_tool_name-no_colon :
    (raw : String) (enforce : Bool)
    → contains_char b':' raw ≡ false
    → parse_tool_name raw enforce ≡ err (unqualified raw)
unfolding parse_tool_name
parse_tool_name-no_colon raw enforce h = rw (split_once-eq-none b':' raw h)
