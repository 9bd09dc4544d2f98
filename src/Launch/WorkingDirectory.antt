-- ===== src/Launch/WorkingDirectory.antt =====
-- `normalizeWorkingDirectory` of apps/server/src/lib/domain.ts, on the code units of a text. What it
-- takes from Node's `path` and from `String` is written out as documented.
pub mod Inside
use relaydock.Prelude.{
  ℕ, Bool, true, false, not, ◌&&◌, ◌||◌, Option, none, some, List, [], ◌∷◌, ◌++◌, any, mem, length,
  or_else, map_option, ◌==◌, leb, if◌then◌else◌,
}
use relaydock.Errors.{Result, ok, err, working_directory_invalid}
use relaydock.Pairing.{Text}

-- `trim` takes off white space and line terminators.
abbrev pub is_space : ℕ → Bool
is_space c =
    (leb 9 c && leb c 13)
    || ((leb 8192 c && leb c 8202)
        || mem c (32 ∷ 160 ∷ 5760 ∷ 8232 ∷ 8233 ∷ 8239 ∷ 8287 ∷ 12288 ∷ 65279 ∷ []))

unfoldable pub trim_start : Text → Text
trim_start [] = []
trim_start (c ∷ s) = if is_space c then trim_start s else c ∷ s

unfoldable pub trim_end : Text → Text
trim_end [] = []
trim_end (c ∷ s) = elim (trim_end s) [ [] ↦ if is_space c then [] else c ∷ [] | d ∷ r ↦ c ∷ d ∷ r ]

-- `replaceAll('\\', '/').split('/')`, and the same of one that has slashes only.
abbrev pub add_char : ℕ → List Text → List Text
add_char c [] = (c ∷ []) ∷ []
add_char c (s ∷ rest) = (c ∷ s) ∷ rest

abbrev pub is_separator : ℕ → Bool
is_separator c = c == b'/' || c == 92

unfoldable pub segments : Text → List Text
segments [] = [] ∷ []
segments (c ∷ s) = if is_separator c then [] ∷ segments s else add_char c (segments s)

unfoldable pub join : List Text → Text
join [] = []
join (s ∷ rest) = elim rest [ [] ↦ s | t ∷ more ↦ s ++ b'/' ∷ join rest ]

abbrev pub is_parent : Text → Bool
is_parent (c ∷ d ∷ []) = c == b'.' && d == b'.'
is_parent _ = false

abbrev pub is_current : Text → Bool
is_current (c ∷ []) = c == b'.'
is_current _ = false

abbrev pub is_empty : Text → Bool
is_empty [] = true
is_empty (c ∷ s) = false

-- One segment of a path that is normalised, on a stack of those before it.
abbrev pub after_parent : Text → List Text → List Text
after_parent s [] = s ∷ []
after_parent s (t ∷ stack) = if is_parent t then s ∷ (t ∷ stack) else stack

abbrev pub rev_onto : List Text → List Text → List Text
rev_onto [] out = out
rev_onto (s ∷ stack) out = rev_onto stack (s ∷ out)

unfoldable pub resolve : List Text → List Text → List Text
resolve stack [] = rev_onto stack []
resolve stack (s ∷ rest) =
    resolve
      (if is_empty s || is_current s
        then stack
        else if is_parent s
        then after_parent s stack
        else s ∷ stack)
      rest

abbrev pub ends_empty : List Text → Bool
ends_empty [] = false
ends_empty (s ∷ []) = is_empty s
ends_empty (s ∷ t ∷ rest) = ends_empty (t ∷ rest)

-- The text of a relative path from its segments, with a slash at its end or without.
unfoldable pub path_text : List Text → (slash : Bool) → Text
unfolding join
path_text [] slash = b'.' ∷ (if slash then b'/' ∷ [] else [])
path_text (s ∷ rest) slash = join (s ∷ rest) ++ (if slash then b'/' ∷ [] else [])

-- `path.posix.normalize` on a relative path, given by its segments.
unfoldable pub posix_normalize : List Text → Text
unfolding resolve path_text
posix_normalize segs = path_text (resolve [] segs) (ends_empty segs)

abbrev pub is_letter : ℕ → Bool
is_letter c = (leb b'A' c && leb c b'Z') || (leb b'a' c && leb c b'z')

-- `path.posix.isAbsolute(s) || path.win32.isAbsolute(s)`
abbrev pub is_absolute : Text → Bool
is_absolute [] = false
is_absolute (c ∷ []) = is_separator c
is_absolute (c ∷ d ∷ []) = is_separator c
is_absolute (c ∷ d ∷ e ∷ s) = is_separator c || (is_letter c && (d == b':' && is_separator e))

abbrev pub unless_current : Text → Text
unless_current s = if is_current s then [] else s

unfoldable pub normalize_working_directory : (value : Option Text) → Result Text
unfolding trim_start trim_end segments posix_normalize
normalize_working_directory value =
    let directory = or_else (map_option (λ s. trim_end (trim_start s)) value) [] in
    if is_empty directory || is_current directory
    then ok []
    else if mem 0 directory || is_absolute directory
    then err working_directory_invalid
    else if any is_parent (segments directory)
    then err working_directory_invalid
    else ok (unless_current (posix_normalize (segments directory)))

-- `safeWorkingDirectory` and `workingDirectory` of the routes.
unfoldable pub safe_working_directory : Text → Result Text
unfolding normalize_working_directory
safe_working_directory value = normalize_working_directory (some value)
