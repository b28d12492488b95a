-- ===== src/Ingest/Texts.antt =====
-- Python's operations on texts that ingest/sonicgrid.py uses, on lists of characters.
use bugalizer.Store.{Text}
use Prim.Native.Char.{code}
use Prim.Native.String.{[] as end_of_text, ◌∷◌ as first}
use bugalizer.Prelude.{
  ℕ, zero, suc, ◌+◌, ◌≤◌, ◌≡◌, Bool, true, false, ◌&&◌, ◌||◌, List, [], ◌∷◌, ◌++◌, String, nat_beq,
  leb, if◌then◌else◌, arith,
}

-- The code points of a text.
unfoldable pub chars : String → Text
chars end_of_text = []
chars (first c s) = code c ∷ chars s

unfoldable pub length {ℓ} : {A : Type ℓ} → List A → ℕ
length [] = 0
length (x ∷ xs) = suc (length xs)

-- text[:n]
unfoldable pub take {ℓ} : {A : Type ℓ} → ℕ → List A → List A
take zero xs = []
take (suc n) [] = []
take (suc n) (x ∷ xs) = x ∷ take n xs

abbrev pub within : ℕ → ℕ → ℕ → Bool
within low high n = leb low n && leb n high

-- str.isspace
abbrev pub is_space : ℕ → Bool
is_space n =
    within 9 13 n
    || within 28 32 n
    || nat_beq n 133
    || nat_beq n 160
    || nat_beq n 5760
    || within 8192 8202 n
    || nat_beq n 8232
    || nat_beq n 8233
    || nat_beq n 8239
    || nat_beq n 8287
    || nat_beq n 12288

-- A boundary of str.splitlines. The pair "\r\n" is one boundary there, and here two, with an empty
-- line between.
abbrev pub ends_line : ℕ → Bool
ends_line n = within 10 13 n || within 28 30 n || nat_beq n 133 || nat_beq n 8232 || nat_beq n 8233

-- Splits at the characters of a test; the pieces may be empty.
abbrev pub cut_at : Bool → ℕ → Text × List Text → Text × List Text
cut_at true c (piece, pieces) = ([], piece ∷ pieces)
cut_at false c (piece, pieces) = (c ∷ piece, pieces)

unfoldable pub pieces : (ℕ → Bool) → Text → Text × List Text
pieces p [] = ([], [])
pieces p (c ∷ cs) = cut_at (p c) c (pieces p cs)

unfoldable pub split_at : (ℕ → Bool) → Text → List Text
split_at p cs = let (piece, rest) = pieces p cs in piece ∷ rest

abbrev pub is_empty {ℓ} : {A : Type ℓ} → List A → Bool
is_empty [] = true
is_empty (x ∷ xs) = false

-- " ".join(text.split()): the words, one space between two
unfoldable pub join_words : List Text → Text
join_words [] = []
join_words (w ∷ ws) =
    let rest = join_words ws in
    if is_empty w then rest else if is_empty rest then w else w ++ 32 ∷ rest

unfoldable pub collapse : Text → Text
collapse cs = join_words (split_at is_space cs)

-- text.rstrip(), text.lstrip() and text.strip()
unfoldable pub rstrip : Text → Text
rstrip [] = []
rstrip (c ∷ cs) = let rest = rstrip cs in if is_space c && is_empty rest then [] else c ∷ rest

unfoldable pub lstrip : Text → Text
lstrip [] = []
lstrip (c ∷ cs) = let rest = lstrip cs in if is_space c then rest else c ∷ cs

unfoldable pub strip : Text → Text
strip cs = rstrip (lstrip cs)

-- The head of text.rpartition(" "): what stands before the last space, or nothing.
unfoldable pub before_last_space : Text → Text
before_last_space [] = []
before_last_space (c ∷ cs) =
    let rest = before_last_space cs in let later = any_space cs in if later then c ∷ rest else []
  where
    any_space : Text → Bool
    any_space [] = false
    any_space (c ∷ cs) = if nat_beq c 32 then true else any_space cs

pub length-take {ℓ} : {A : Type ℓ} (n : ℕ) (xs : List A) → length (take n xs) ≤ n
unfolding length take
length-take zero xs = omega arith
length-take (suc n) [] = omega arith
length-take (suc n) (x ∷ xs) = omega (arith, length-take n xs)

pub length-append {ℓ} : {A : Type ℓ} (xs ys : List A) → length (xs ++ ys) ≡ length xs + length ys
unfolding length
length-append [] ys = omega arith
length-append (x ∷ xs) ys = omega (arith, length-append xs ys)

pub length-rstrip : (cs : Text) → length (rstrip cs) ≤ length cs
unfolding length rstrip
length-rstrip [] = omega arith
length-rstrip (c ∷ cs) = ground (arith, length-rstrip cs)

pub length-before_last_space : (cs : Text) → length (before_last_space cs) ≤ length cs
unfolding length before_last_space
length-before_last_space [] = omega arith
length-before_last_space (c ∷ cs) = ground (arith, length-before_last_space cs)
