-- ===== src/Text.antt =====
-- What the program uses of `str` and `String`: `splitn(2, c)`, `trim`, `chars().all`, `contains`
-- and `format!`. A text is a list of Unicode scalar values.
pub mod Defs
pub mod Splitting
pub mod Trimming
