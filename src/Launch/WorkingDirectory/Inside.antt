-- ===== src/Launch/WorkingDirectory/Inside.antt =====
-- A working directory that is accepted stays inside the repository, where paths have no drives.
use relaydock.Prelude.{
  ℕ, ◌≡◌, refl, ◌∙◌, ap, subst, Bool, true, false, ◌||◌, Option, List, [], ◌∷◌, ◌++◌, append-nil,
  append_assoc, any, mem, All, All-map, or_else, map_option, if◌then◌else◌, if_elim, Bool-cases,
  inl, inr, arith,
}
use relaydock.Errors.{Result, ok, err, working_directory_invalid}
use relaydock.Pairing.{Text}
use relaydock.Launch.WorkingDirectory.{
  trim_start, trim_end, add_char, is_separator, segments, join, is_parent, is_current, is_empty,
  rev_onto, resolve, ends_empty, path_text, posix_normalize, is_absolute, unless_current,
  normalize_working_directory,
}

abbrev pub starts_at_root : Text → Bool
starts_at_root [] = false
starts_at_root (c ∷ s) = is_separator c

-- A segment without a separator in it.
abbrev IsWhole : Text → Type 0
IsWhole s = any is_separator s ≡ false

-- One that is kept: not empty, and not the parent.
abbrev IsKept : Text → Type 0
IsKept s = IsWhole s × (is_empty s ≡ false) × (is_parent s ≡ false)

add_char-IsWhole :
    (c : ℕ) (segs : List Text)
    → is_separator c ≡ false
    → All IsWhole segs
    → All IsWhole (add_char c segs)
add_char-IsWhole c [] e h = (rw e refl, tt)
add_char-IsWhole c (s ∷ segs) e h = (rw e h.0, h.1)

segments-IsWhole : (s : Text) → All IsWhole (segments s)
unfolding segments
segments-IsWhole [] = (refl, tt)
segments-IsWhole (c ∷ s) =
    if_elim (All IsWhole) (is_separator c) ([] ∷ segments s) (add_char c (segments s))
      (λ e. (refl, segments-IsWhole s))
      (λ e. add_char-IsWhole c (segments s) e (segments-IsWhole s))

-- A whole segment before a slash is the first of its text.
segments-slash : (s t : Text) → IsWhole s → segments (s ++ b'/' ∷ t) ≡ s ∷ segments t
unfolding segments
segments-slash [] t h = refl
segments-slash (c ∷ s) t h =
    let e : is_separator c ≡ false = ground arith in rw (e, segments-slash s t (ground arith)) refl

segments-whole : (s : Text) → IsWhole s → segments s ≡ s ∷ []
unfolding segments
segments-whole [] h = refl
segments-whole (c ∷ s) h =
    let e : is_separator c ≡ false = ground arith in rw (e, segments-whole s (ground arith)) refl

segments-join :
    (s : Text) (rest : List Text)
    → IsWhole s
    → All IsWhole rest
    → segments (join (s ∷ rest)) ≡ s ∷ rest
unfolding join
segments-join s [] h k = segments-whole s h
segments-join s (t ∷ rest) h k =
    segments-slash s (join (t ∷ rest)) h ∙ ap (◌∷◌ s) (segments-join t rest k.0 k.1)

segments-join_slash :
    (s : Text) (rest : List Text)
    → IsWhole s
    → All IsWhole rest
    → segments (join (s ∷ rest) ++ b'/' ∷ []) ≡ (s ∷ rest) ++ [] ∷ []
unfolding join
segments-join_slash s [] h k = segments-slash s [] h ∙ unfold segments in refl
segments-join_slash s (t ∷ rest) h k =
    ap segments (append_assoc s (b'/' ∷ join (t ∷ rest)) (b'/' ∷ []))
    ∙ segments-slash s (join (t ∷ rest) ++ b'/' ∷ []) h
    ∙ ap (◌∷◌ s) (segments-join_slash t rest k.0 k.1)

rev_onto-All :
    (stack out : List Text) → All IsKept stack → All IsKept out → All IsKept (rev_onto stack out)
rev_onto-All [] out h k = k
rev_onto-All (s ∷ stack) out h k = rev_onto-All stack (s ∷ out) h.1 (h.0, k)

resolve-All :
    (stack segs : List Text)
    → All IsKept stack
    → All IsWhole segs
    → any is_parent segs ≡ false
    → All IsKept (resolve stack segs)
unfolding resolve
resolve-All stack [] h k p = rev_onto-All stack [] h tt
resolve-All stack (s ∷ segs) h k p =
    let plain : is_parent s ≡ false = ground arith in
    let rest : any is_parent segs ≡ false = ground arith in
    rw plain (
      resolve-All (if is_empty s || is_current s then stack else s ∷ stack) segs
        (if_elim (All IsKept) (is_empty s || is_current s) stack (s ∷ stack) (λ e. h)
          (λ e. ((k.0, ground arith, plain), h)))
        k.1 rest)

not_parent : (segs : List Text) → All IsKept segs → any is_parent segs ≡ false
not_parent [] h = refl
not_parent (s ∷ segs) h = rw (h.0.2, not_parent segs h.1) refl

not_parent_end : (segs : List Text) → All IsKept segs → any is_parent (segs ++ [] ∷ []) ≡ false
not_parent_end [] h = refl
not_parent_end (s ∷ segs) h = rw (h.0.2, not_parent_end segs h.1) refl

-- A path whose segments name no parent and that does not start at the root.
pub record IsPlain (d : Text) : Type 0 where
  pub stays : any is_parent (segments d) ≡ false
  pub relative : starts_at_root d ≡ false

joined : (s : Text) (rest : List Text) → IsKept s → starts_at_root (join (s ∷ rest)) ≡ false
unfolding join
joined [] rest k = absurd (ground arith)
joined (c ∷ s) [] k = ground arith
joined (c ∷ s) (t ∷ rest) k = ground arith

joined_slash :
    (s : Text) (rest : List Text) → IsKept s → starts_at_root (join (s ∷ rest) ++ b'/' ∷ []) ≡ false
unfolding join
joined_slash [] rest k = absurd (ground arith)
joined_slash (c ∷ s) [] k = ground arith
joined_slash (c ∷ s) (t ∷ rest) k = ground arith

kept-IsWhole : (segs : List Text) → All IsKept segs → All IsWhole segs
kept-IsWhole segs h = All-map IsKept IsWhole segs (λ s k. k.0) h

path_text-IsPlain :
    (segs : List Text) (slash : Bool) → All IsKept segs → IsPlain (path_text segs slash)
unfolding path_text
path_text-IsPlain [] true h = record { stays = unfold segments in refl; relative = refl }
path_text-IsPlain [] false h = record { stays = unfold segments in refl; relative = refl }
path_text-IsPlain (s ∷ rest) true h = record {
  stays =
      ap (any is_parent) (segments-join_slash s rest h.0.0 (kept-IsWhole rest h.1))
      ∙ not_parent_end (s ∷ rest) h;
  relative = joined_slash s rest h.0;
}
path_text-IsPlain (s ∷ rest) false h = rw (append-nil (join (s ∷ rest))) (record {
  stays =
      ap (any is_parent) (segments-join s rest h.0.0 (kept-IsWhole rest h.1))
      ∙ not_parent (s ∷ rest) h;
  relative = joined s rest h.0;
})

normalized-IsPlain :
    (segs : List Text)
    → All IsWhole segs
    → any is_parent segs ≡ false
    → IsPlain (posix_normalize segs)
unfolding posix_normalize
normalized-IsPlain segs k p =
    path_text-IsPlain (resolve [] segs) (ends_empty segs) (resolve-All [] segs tt k p)

none-IsPlain : IsPlain []
none-IsPlain = record { stays = unfold segments in refl; relative = refl }

abbrev text : Text → Result Text → Text
text d (ok t) = t
text d (err e) = d

abbrev checked : Text → Result Text
checked directory =
    if mem 0 directory || is_absolute directory
    then err working_directory_invalid
    else if any is_parent (segments directory)
    then err working_directory_invalid
    else ok (unless_current (posix_normalize (segments directory)))

accepted-IsPlain :
    (directory : Text)
    → any is_parent (segments directory) ≡ false
    → IsPlain (unless_current (posix_normalize (segments directory)))
accepted-IsPlain directory plain =
    if_elim IsPlain (is_current (posix_normalize (segments directory))) []
      (posix_normalize (segments directory)) (λ e. none-IsPlain)
      (λ e. normalized-IsPlain (segments directory) (segments-IsWhole directory) plain)

checked-IsPlain : (directory d : Text) → checked directory ≡ ok d → IsPlain d
checked-IsPlain directory d e = elim (Bool-cases (mem 0 directory || is_absolute directory)) [
  | inl bad ↦ absurd (cc (rw bad at e))
  | inr fine ↦ elim (Bool-cases (any is_parent (segments directory))) [
    | inl parent ↦ absurd (cc (rw parent at (rw fine at e)))
    | inr plain ↦
        subst IsPlain (ap (text d) (rw plain at (rw fine at e))) (accepted-IsPlain directory plain)
  ]
]

-- A working directory that is accepted names no parent directory and does not start at the root,
-- whatever was asked for, with slashes or backslashes between its segments.
normalize-IsPlain :
    (value : Option Text) (d : Text) → normalize_working_directory value ≡ ok d → IsPlain d
unfolding normalize_working_directory
normalize-IsPlain value d e =
    let directory = or_else (map_option (λ s. trim_end (trim_start s)) value) [] in
    if_elim (λ (r : Result Text). r ≡ ok d → IsPlain d) (is_empty directory || is_current directory)
      (ok []) (checked directory) (λ empty is. subst IsPlain (ap (text d) is) none-IsPlain)
      (λ some_text is. checked-IsPlain directory d is) e

-- What resolution does to segments that name no parent: they are taken on from where it starts.
resolve-onto :
    (stack segs : List Text)
    → any is_parent segs ≡ false
    → (rest : List Text) × (resolve stack segs ≡ rev_onto stack rest)
unfolding resolve
resolve-onto stack [] p = ([], refl)
resolve-onto stack (s ∷ segs) p =
    let plain : is_parent s ≡ false = ground arith in
    let others : any is_parent segs ≡ false = ground arith in
    elim (Bool-cases (is_empty s || is_current s)) [
      | inl skipped ↦ rw (plain, skipped) (resolve-onto stack segs others)
      | inr kept ↦
          let (rest, e) = resolve-onto (s ∷ stack) segs others in rw (plain, kept) (s ∷ rest, e)
    ]

-- Where `/` starts the only absolute paths: a path that is not absolute and that, followed from a
-- directory, given by its segments from the last to the first, leads to it or below it. (`C:/x` is
-- such a path too.)
pub record IsInsideOnPosix (d : Text) : Type 0 where
  pub relative : starts_at_root d ≡ false
  pub below :
      (directory : List Text)
      → (rest : List Text) × (resolve directory (segments d) ≡ rev_onto directory rest)

-- A working directory that is accepted stays inside the repository on a system whose absolute paths
-- start with a slash, whatever was asked for.
pub normalize-IsInsideOnPosix :
    (value : Option Text) (d : Text) → normalize_working_directory value ≡ ok d → IsInsideOnPosix d
normalize-IsInsideOnPosix value d e =
    let plain = normalize-IsPlain value d e in
    record {
      relative = plain.relative;
      below = λ directory. resolve-onto directory (segments d) plain.stays;
    }
