-- ===== src/Pairing/Normal.antt =====
-- What is made of a code that is typed: case and separators do not matter.
use relaydock.Prelude.{
  ℕ, zero, suc, ◌-◌, ◌%◌, ◌<◌, ◌≤◌, ◌≡◌, refl, ◌∙◌, ap, Bool, true, false, ◌&&◌, List, [], ◌∷◌,
  ◌++◌, map, length, length-map, take, drop, keep_if, All, leb, if◌then◌else◌, arith,
}
use relaydock.Pairing.{
  Text, alphabet, char_at, characters, create_pairing_code, is_code_char, compact,
  normalize_pairing_code,
}

-- The upper case of an ASCII letter.
abbrev pub ascii_upper : ℕ → ℕ
ascii_upper c = if leb b'a' c && leb c b'z' then c - 32 else c

abbrev pub IsAscii : Text → Type 0
IsAscii = All (λ c. c < 128)

-- `toUpperCase` on an ASCII text.
abbrev pub UppersAscii : (Text → Text) → Type 0
UppersAscii upper = (s : Text) → IsAscii s → upper s ≡ map ascii_upper s

all_below : ℕ → (ℕ → Bool) → Bool
all_below zero p = true
all_below (suc n) p = p n && all_below n p

all_below_sound : (n : ℕ) (p : ℕ → Bool) (i : ℕ) → all_below n p ≡ true → i < n → p i ≡ true
unfolding all_below
all_below_sound zero p i h lt = absurd (omega arith)
all_below_sound (suc n) p i h lt = ground (arith, all_below_sound n p i)

alphabet_table : all_below 32 (λ i. is_code_char (char_at alphabet i)) ≡ true
unfolding all_below
alphabet_table = refl

abbrev AllCode : Text → Type 0
AllCode = All (λ c. is_code_char c ≡ true)

-- Every character of a code is a capital or a digit, whatever the random bytes are.
characters-AllCode : (bytes : List ℕ) → AllCode (characters bytes)
characters-AllCode [] = tt
characters-AllCode (b ∷ bytes) = (
  all_below_sound 32 (λ i. is_code_char (char_at alphabet i)) (b % 32) alphabet_table (omega arith),
  characters-AllCode bytes,
)

-- How a code may be typed: each of its characters as it is or, if a letter, in lower case, with
-- any ASCII characters between that are neither letters nor digits.
pub data Typed : Text → Text → Type 0 where
  ends : Typed [] []
  separates :
      {s t : Text} (c : ℕ)
      → c < 128
      → is_code_char (ascii_upper c) ≡ false
      → Typed s t
      → Typed s (c ∷ t)
  types :
      {s t : Text} (c d : ℕ)
      → c < 128
      → ascii_upper c ≡ d
      → is_code_char d ≡ true
      → Typed s t
      → Typed (d ∷ s) (c ∷ t)

code_char_small : (c : ℕ) → is_code_char c ≡ true → c < 128
code_char_small c h = ground arith

code_char_upper : (c : ℕ) → is_code_char c ≡ true → ascii_upper c ≡ c
code_char_upper c h = ground arith

Typed-self : (s : Text) → AllCode s → Typed s s
Typed-self [] h = ends
Typed-self (c ∷ s) h =
    types c c (code_char_small c h.0) (code_char_upper c h.0) h.0 (Typed-self s h.1)

Typed-hyphen : (n : ℕ) (s : Text) → AllCode s → Typed s (take n s ++ b'-' ∷ drop n s)
Typed-hyphen zero s h = separates b'-' (omega arith) refl (Typed-self s h)
Typed-hyphen (suc n) [] h = separates b'-' (omega arith) refl ends
Typed-hyphen (suc n) (c ∷ s) h =
    types c c (code_char_small c h.0) (code_char_upper c h.0) h.0 (Typed-hyphen n s h.1)

-- A code may be typed as it is shown.
pub Typed-create : (bytes : List ℕ) → Typed (characters bytes) (create_pairing_code bytes)
unfolding create_pairing_code
Typed-create bytes = Typed-hyphen 4 (characters bytes) (characters-AllCode bytes)

Typed-IsAscii : {s t : Text} → Typed s t → IsAscii t
Typed-IsAscii ends = tt
Typed-IsAscii (separates c small other h) = (small, Typed-IsAscii h)
Typed-IsAscii (types c d small up good h) = (small, Typed-IsAscii h)

keep_if-Typed : {s t : Text} → Typed s t → keep_if is_code_char (map ascii_upper t) ≡ s
keep_if-Typed ends = refl
keep_if-Typed (separates c small other h) = rw other (keep_if-Typed h)
keep_if-Typed (types c d small up good h) = rw (up, good) (ap (◌∷◌ d) (keep_if-Typed h))

pub Typed-length : {s t : Text} → Typed s t → length s ≤ length t
Typed-length ends = omega arith
Typed-length (separates c small other h) = omega (arith, Typed-length h)
Typed-length (types c d small up good h) = omega (arith, Typed-length h)

-- A code is recognised however it is typed.
pub normalize-Typed :
    (upper : Text → Text) (bytes : List ℕ) (typed : Text)
    → UppersAscii upper
    → length bytes ≡ 8
    → Typed (characters bytes) typed
    → normalize_pairing_code upper typed ≡ create_pairing_code bytes
unfolding normalize_pairing_code create_pairing_code
normalize-Typed upper bytes typed ascii eight h =
    let kept : compact upper typed ≡ characters bytes =
      ap (keep_if is_code_char) (ascii typed (Typed-IsAscii h)) ∙ keep_if-Typed h in
    let long : length (characters bytes) ≡ 8 =
      length-map bytes (λ byte. char_at alphabet (byte % 32)) ∙ eight in
    rw (kept, long) refl
