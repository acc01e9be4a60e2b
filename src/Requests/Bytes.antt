-- ===== src/Requests/Bytes.antt =====
-- Slices of bytes, and numbers in them as encoding/binary's BigEndian writes and reads them.
use goxdcr.Prelude.{
  ℕ, suc, ◌+◌, ◌*◌, ◌/◌, ◌%◌, ◌^◌, ◌≤◌, ◌<◌, ◌≡◌, refl, sym, ap, ◌∙◌, List, [], ◌∷◌, ◌++◌, arith,
  leb, true, if◌then◌else◌, length, take, drop, Outcome, done, panics, length-append,
}

-- s[from:from+n], of the bytes up to the slice's capacity, past which it panics.
abbrev pub slice : List ℕ → ℕ → ℕ → Outcome (List ℕ)
slice xs from n = if leb (from + n) (length xs) then done (take n (drop from xs)) else panics

-- The bytes written over those from an index on.
abbrev pub put_bytes : ℕ → List ℕ → List ℕ → Outcome (List ℕ)
put_bytes from bytes xs =
    if leb (from + length bytes) (length xs)
    then done (take from xs ++ bytes ++ drop (from + length bytes) xs)
    else panics

abbrev pub be_uint32 : ℕ → List ℕ
be_uint32 v = (v / 16777216 % 256) ∷ (v / 65536 % 256) ∷ (v / 256 % 256) ∷ (v % 256) ∷ []

abbrev pub be_uint64 : ℕ → List ℕ
be_uint64 v = be_uint32 (v / 4294967296) ++ be_uint32 (v % 4294967296)

-- The number that bytes stand for.
abbrev pub be_value : ℕ → List ℕ → ℕ
be_value acc [] = acc
be_value acc (b ∷ bs) = be_value (acc * 256 + b) bs

pub be_value-be_uint32 : (v : ℕ) → v < 2 ^ 32 → be_value 0 (be_uint32 v) ≡ v
be_value-be_uint32 v h = omega arith

pub be_value-be_uint64 : (v : ℕ) → v < 2 ^ 64 → be_value 0 (be_uint64 v) ≡ v
be_value-be_uint64 v h = omega arith

take-append : (xs ys : List ℕ) → take (length xs) (xs ++ ys) ≡ xs
take-append [] ys = refl
take-append (x ∷ xs) ys = ap (λ l. x ∷ l) (take-append xs ys)

drop-append : (n : ℕ) (xs ys : List ℕ) → drop (length xs + n) (xs ++ ys) ≡ drop n ys
drop-append n [] ys = let e : 0 + n ≡ n = omega arith in rw e refl
drop-append n (x ∷ xs) ys =
    let e : suc (length xs) + n ≡ suc (length xs + n) = omega arith in rw e (drop-append n xs ys)

-- A write after what is written already.
pub put_bytes_next :
    (from : ℕ) (written bytes rest : List ℕ)
    → length written ≡ from
    → length bytes ≤ length rest
    → put_bytes from bytes (written ++ rest) ≡ done ((written ++ bytes) ++ drop (length bytes) rest)
put_bytes_next from written bytes rest h l =
    let e : leb (from + length bytes) (length (written ++ rest)) ≡ true =
      ground (arith, length-append written rest) in
    let t : take from (written ++ rest) ≡ written =
      ap (λ n. take n (written ++ rest)) (sym h) ∙ take-append written rest in
    let d : drop (from + length bytes) (written ++ rest) ≡ drop (length bytes) rest =
      ap (λ n. drop (n + length bytes) (written ++ rest)) (sym h)
      ∙ drop-append (length bytes) written rest in
    rw (e, t, d) refl
