-- ===== src/Text/Defs.antt =====
-- The operations on `str` that the program calls.
use Prim.Native.String
use Prim.Native.String.{[], ◌∷◌}
use mathlib.Core.List
use mcp_shield.Prelude.{
  ℕ, suc, zero, ◌+◌, ◌-◌, ltb, Char, code, String, Bool, true, false, Option, none, some, ◌&&◌,
  ◌||◌, ◌==◌, starts_with, leb, eqb, if◌then◌else◌,
}

-- `char::is_whitespace`: the code points with the property White_Space.
unfoldable pub is_whitespace : ℕ → Bool
is_whitespace c =
    (leb 9 c && leb c 13)
    || eqb c 32
    || eqb c 133
    || eqb c 160
    || eqb c 5760
    || (leb 8192 c && leb c 8202)
    || eqb c 8232
    || eqb c 8233
    || eqb c 8239
    || eqb c 8287
    || eqb c 12288

-- `char::is_ascii_lowercase` and `char::is_ascii_digit`.
abbrev pub is_ascii_lowercase : ℕ → Bool
is_ascii_lowercase c = leb b'a' c && leb c b'z'

abbrev pub is_ascii_digit : ℕ → Bool
is_ascii_digit c = leb b'0' c && leb c b'9'

-- `s.chars().all(p)`
unfoldable pub all_chars : (ℕ → Bool) → String → Bool
all_chars p [] = true
all_chars p (c ∷ s) = p (code c) && all_chars p s

-- `s.contains(c)`
unfoldable pub contains_char : ℕ → String → Bool
contains_char d [] = false
contains_char d (c ∷ s) = eqb (code c) d || contains_char d s

-- `s.splitn(2, c)`, where `none` is the single part of a text without `c`.
abbrev pub prepend : Char → Option (String × String) → Option (String × String)
prepend c none = none
prepend c (some (a, b)) = some (c ∷ a, b)

unfoldable pub split_once : ℕ → String → Option (String × String)
split_once d [] = none
split_once d (c ∷ s) = if eqb (code c) d then some ([], s) else prepend c (split_once d s)

unfoldable pub trim_start : String → String
trim_start [] = []
trim_start (c ∷ s) = if is_whitespace (code c) then trim_start s else c ∷ s

unfoldable pub trim_end : String → String
trim_end [] = []
trim_end (c ∷ s) =
    let rest = trim_end s in if is_whitespace (code c) && rest == "" then [] else c ∷ rest

unfoldable pub trim : String → String
unfolding trim_start trim_end
trim s = trim_end (trim_start s)

-- `format!`, with its pieces in order.
unfoldable pub format : List.List String → String
format List.[] = ""
format (List.◌∷◌ s ss) = String.◌++◌ s (format ss)

-- `Vec::join`
unfoldable pub join : String → List.List String → String
join separator List.[] = ""
join separator (List.◌∷◌ s List.[]) = s
join separator (List.◌∷◌ s (List.◌∷◌ t ss)) =
    String.◌++◌ s (String.◌++◌ separator (join separator (List.◌∷◌ t ss)))

-- The number of bytes of a character in UTF-8.
abbrev pub width : Char → ℕ
width c =
    if ltb (code c) 128
    then 1
    else if ltb (code c) 2048
    then 2
    else if ltb (code c) 65536
    then 3
    else 4

unfoldable pub byte_len : String → ℕ
byte_len [] = 0
byte_len (c ∷ s) = width c + byte_len s

abbrev pub prepend_char : Char → Option String → Option String
prepend_char c none = none
prepend_char c (some s) = some (c ∷ s)

-- `&s[..n]`; `none` is the panic off the end or inside a character.
unfoldable pub slice_to : ℕ → String → Option String
slice_to n [] = if eqb n 0 then some "" else none
slice_to n (c ∷ s) =
    if eqb n 0
    then some ""
    else if ltb n (width c)
    then none
    else prepend_char c (slice_to (n - width c) s)

-- `s.chars().take(n).collect()`
unfoldable pub take_chars : ℕ → String → String
take_chars zero s = []
take_chars (suc n) [] = []
take_chars (suc n) (c ∷ s) = c ∷ take_chars n s

-- `s.contains(pattern)`
unfoldable pub contains_text : String → String → Bool
contains_text pattern [] = pattern == ""
contains_text pattern (c ∷ s) = starts_with (c ∷ s) pattern || contains_text pattern s
