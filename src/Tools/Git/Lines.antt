-- ===== src/Tools/Git/Lines.antt =====
-- What src/harness/tools/git.py does to git's output and to paths.
use Prim.Native.Char.{code}
use Prim.Native.String
use Prim.Native.String.{[], ◌∷◌}
use mathlib.Core.List.{[], ◌∷◌}
use md_harness.Prelude.{
  leb, if◌then◌else◌, ◌==◌, contains, ℕ, String, Bool, false, not, ◌&&◌, ◌||◌, List, nat_eq,
  string_eq,
}
use md_harness.Text.{is_space, slash, parts, is_absolute, as_posix}

-- `text.lstrip()`
unfoldable pub lstrip : String → String
lstrip [] = ""
lstrip (c ∷ s) = let rest = lstrip s in if is_space (code c) then rest else (c ∷ s)

-- `text.rstrip()`
unfoldable pub rstrip : String → String
rstrip [] = ""
rstrip (c ∷ s) = let rest = rstrip s in if is_space (code c) && rest == "" then "" else (c ∷ rest)

abbrev pub strip : String → String
strip text = lstrip (rstrip text)

abbrev pub star : ℕ
star = 42

-- `text.lstrip("*")`
unfoldable pub lstrip_stars : String → String
lstrip_stars [] = ""
lstrip_stars (c ∷ s) = let rest = lstrip_stars s in if code c == star then rest else (c ∷ s)

-- The characters that end a line.
abbrev pub is_break : ℕ → Bool
is_break n = leb 10 n && leb n 13 || leb 28 n && leb n 30 || contains (133 ∷ 8232 ∷ 8233 ∷ []) n

abbrev pub starts_line_feed : String → Bool
starts_line_feed [] = false
starts_line_feed (c ∷ s) = code c == 10

abbrev pub onto_first : String → List String → List String
onto_first character [] = character ∷ []
onto_first character (line ∷ rest) = String.◌++◌ character line ∷ rest

-- The lines, and what follows the last line break; "\r\n" is one line break.
unfoldable pub split_breaks : String → List String
split_breaks [] = "" ∷ []
split_breaks (c ∷ s) =
    let rest = split_breaks s in
    if code c == 13 && starts_line_feed s
    then rest
    else if is_break (code c)
    then "" ∷ rest
    else onto_first (c ∷ "") rest

abbrev pub drop_empty_end : List String → List String
drop_empty_end [] = []
drop_empty_end (line ∷ []) = if line == "" then [] else line ∷ []
drop_empty_end (line ∷ (next ∷ rest)) = line ∷ drop_empty_end (next ∷ rest)

-- `text.splitlines()`
unfoldable pub splitlines : String → List String
unfolding split_breaks
splitlines text = drop_empty_end (split_breaks text)

-- `" ".join(words)`
unfoldable pub join_words : List String → String
join_words [] = ""
join_words (word ∷ []) = word
join_words (word ∷ (next ∷ rest)) = String.◌++◌ word (String.◌++◌ " " (join_words (next ∷ rest)))

-- The root of an absolute path: two slashes stay two, more become one.
abbrev pub root_of : String → String
root_of (a ∷ (b ∷ (c ∷ s))) = if code b == slash && not (code c == slash) then "//" else "/"
root_of (a ∷ (b ∷ [])) = if code b == slash then "//" else "/"
root_of _ = "/"

abbrev pub below_root : List String → String
below_root [] = ""
below_root (part ∷ rest) = as_posix (part ∷ rest)

-- `str(Path(path))`
unfoldable pub path_text : String → String
unfolding parts is_absolute as_posix
path_text path =
    if is_absolute path
    then String.◌++◌ (root_of path) (below_root (parts path))
    else as_posix (parts path)
