-- ===== src/Text.antt =====
-- Python's `str.strip` and pathlib's pure POSIX paths, as far as the sources use them.
pub mod Decimal
use Prim.Native.Char.{code}
use Prim.Native.String
use Prim.Native.String.{[], ◌∷◌}
use mathlib.Core.List.{[], ◌∷◌}
use text.Mathlib.Text.{find?}
pub use text.Mathlib.Text.{starts_with}
use md_harness.Prelude.{
  leb, if◌then◌else◌, is_some, ◌==◌, contains, ℕ, String, Bool, true, false, not, ◌&&◌, ◌||◌, List,
  nat_eq, string_eq,
}
use md_harness.Sql.{fetchall}

-- The characters that `str.isspace` holds of.
abbrev pub is_space : ℕ → Bool
is_space n =
    leb 9 n && leb n 13
    || leb 28 n && leb n 32
    || leb 8192 n && leb n 8202
    || contains (133 ∷ 160 ∷ 5760 ∷ 8232 ∷ 8233 ∷ 8239 ∷ 8287 ∷ 12288 ∷ []) n

-- `not text.strip()`
unfoldable pub is_blank : String → Bool
is_blank [] = true
is_blank (c ∷ s) = is_space (code c) && is_blank s

abbrev pub slash : ℕ
slash = 47

-- `path.split("/")`, with the part that is being read in front.
unfoldable pub split_slash : String → String → List String
split_slash current [] = current ∷ []
split_slash current (c ∷ s) =
    let closed = split_slash "" s in
    let longer = split_slash (String.◌++◌ current (c ∷ "")) s in
    if code c == slash then current ∷ closed else longer

abbrev pub is_part : String → Bool
is_part part = not (part == "" || part == ".")

-- `PurePosixPath(path).parts` of a relative path
unfoldable pub parts : String → List String
unfolding split_slash
parts path = fetchall is_part (split_slash "" path)

unfoldable pub is_absolute : String → Bool
is_absolute [] = false
is_absolute (c ∷ s) = code c == slash

-- `as_posix` of the relative path with these parts
unfoldable pub as_posix : List String → String
as_posix [] = "."
as_posix (part ∷ []) = part
as_posix (part ∷ (next ∷ rest)) = String.◌++◌ part (String.◌++◌ "/" (as_posix (next ∷ rest)))

-- `list(text)`
abbrev pub characters : String → List String
characters [] = []
characters (c ∷ s) = (c ∷ "") ∷ characters s

-- `part in text`
abbrev pub occurs_in : String → String → Bool
occurs_in text part = is_some (find? text part)
