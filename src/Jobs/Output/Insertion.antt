-- ===== src/Jobs/Output/Insertion.antt =====
-- Insertion of new rows: how many rows and bytes it can add, and when it adds all.
use relaydock.Prelude.{
  ℕ, suc, negsuc, ◌+◌, ◌-◌, ◌≤◌, false, ◌||◌, List, [], ◌∷◌, ◌≡◌, refl, ◌==◌, mem, length, arith,
  ◌⊎◌, inr, ap, ◌∙◌,
}
use relaydock.Jobs.Output.{
  ChunkRow, insert_row, insert_rows, with_ids, sequences, bytes, ids_to_remove,
}
use relaydock.Jobs.Output.Eviction.{evicted, kept, ids, IsBeyond}

pub length-insert_rows :
    (news rs : List ChunkRow) → length (insert_rows news rs) ≤ length news + length rs
length-insert_rows [] rs = omega arith
length-insert_rows (n ∷ news) rs =
    omega (arith, length-insert_rows news (insert_row n rs), length-insert_row n rs)
  where
    length-insert_row :
        (n : ChunkRow) (rs : List ChunkRow) → length (insert_row n rs) ≤ suc (length rs)
    length-insert_row n [] = omega arith
    length-insert_row n (r ∷ rs) = ground (arith, length-insert_row n rs)

pub bytes-insert_row-le :
    (n : ChunkRow) (rs : List ChunkRow) → bytes (insert_row n rs) ≤ n.byte_length + bytes rs
bytes-insert_row-le n [] = omega arith
bytes-insert_row-le n (r ∷ rs) = ground (arith, bytes-insert_row-le n rs)

pub bytes-insert_rows-le :
    (news rs : List ChunkRow) → bytes (insert_rows news rs) ≤ bytes news + bytes rs
bytes-insert_rows-le [] rs = omega arith
bytes-insert_rows-le (n ∷ news) rs =
    omega (arith, bytes-insert_rows-le news (insert_row n rs), bytes-insert_row-le n rs)

bytes-insert_row :
    (n : ChunkRow) (rs : List ChunkRow)
    → mem n.sequence (sequences rs) ≡ false
    → bytes (insert_row n rs) ≡ n.byte_length + bytes rs
bytes-insert_row n [] e = refl
bytes-insert_row n (r ∷ rs) e = ground (arith, bytes-insert_row n rs)

mem-insert_row :
    (s : ℕ) (n : ChunkRow) (rs : List ChunkRow)
    → mem s (sequences (insert_row n rs)) ≡ (n.sequence == s || mem s (sequences rs))
mem-insert_row s n [] = refl
mem-insert_row s n (r ∷ rs) = ground (arith, mem-insert_row s n rs)

-- No sequence occurs twice among the new rows, or stands in the table already.
abbrev pub AreFresh : List ChunkRow → List ChunkRow → Type 0
AreFresh [] rs = Unit
AreFresh (n ∷ news) rs =
    (mem n.sequence (sequences rs) ≡ false)
    × (mem n.sequence (sequences news) ≡ false)
    × AreFresh news rs

AreFresh-insert_row :
    (n : ChunkRow) (news rs : List ChunkRow)
    → mem n.sequence (sequences news) ≡ false
    → AreFresh news rs
    → AreFresh news (insert_row n rs)
AreFresh-insert_row n [] rs e f = tt
AreFresh-insert_row n (m ∷ news) rs e f = (
  rw (mem-insert_row m.sequence n rs) (ground (arith, f.0)),
  f.1,
  AreFresh-insert_row n news rs (ground arith) f.2,
)

pub bytes-insert_rows :
    (news rs : List ChunkRow)
    → AreFresh news rs
    → bytes (insert_rows news rs) ≡ bytes news + bytes rs
bytes-insert_rows [] rs f = omega arith
bytes-insert_rows (n ∷ news) rs f = omega (
  arith,
  bytes-insert_rows news (insert_row n rs) (AreFresh-insert_row n news rs f.1 f.2),
  bytes-insert_row n rs f.0,
)

pub bytes-with_ids : (chosen : ℕ → ℕ) (rs : List ChunkRow) → bytes (with_ids chosen rs) ≡ bytes rs
bytes-with_ids chosen [] = refl
bytes-with_ids chosen (r ∷ rs) = omega (arith, bytes-with_ids chosen rs)

pub length-with_ids :
    (chosen : ℕ → ℕ) (rs : List ChunkRow) → length (with_ids chosen rs) ≡ length rs
length-with_ids chosen [] = refl
length-with_ids chosen (r ∷ rs) = omega (arith, length-with_ids chosen rs)

pub sequences-with_ids :
    (chosen : ℕ → ℕ) (rs : List ChunkRow) → sequences (with_ids chosen rs) ≡ sequences rs
sequences-with_ids chosen [] = refl
sequences-with_ids chosen (r ∷ rs) = rw (sequences-with_ids chosen rs)

-- The reference of the domain module and the loop agree on what goes.
pub ids-evicted :
    (need b : ℕ) (cs : List ChunkRow) → ids (evicted need b cs) ≡ ids_to_remove cs (need - b)
unfolding ids_to_remove
ids-evicted need b [] = refl
ids-evicted need b (c ∷ cs) =
    let e : need - (b + c.byte_length) ≡ need - b - c.byte_length = omega arith in
    let rest = ids-evicted need (b + c.byte_length) cs ∙ ap (ids_to_remove cs) e in
    ground (arith, rest)

-- The loop reclaims what it must, unless it removes everything.
pub evicted_suffices :
    (need b : ℕ) (cs : List ChunkRow)
    → (need ≤ b + bytes (evicted need b cs)) ⊎ (kept need b cs ≡ [])
evicted_suffices need b [] = inr refl
evicted_suffices need b (c ∷ cs) = ground (arith, evicted_suffices need (b + c.byte_length) cs)

pub IsBeyond-start : (rs : List ChunkRow) → IsBeyond (negsuc 0) rs
IsBeyond-start [] = tt
IsBeyond-start (r ∷ rs) = (omega arith, IsBeyond-start rs)
