-- ===== src/Wire/Codec.antt =====
-- The fields of a message: big-endian words (encoding/binary), `make` with `copy`, and the
-- `bytes.Trim` by zero bytes with which jfsnotify/utils.go reads a field back.
use fs_lib.Prelude.{
  List, ℕ, zero, suc, ◌+◌, ◌-◌, ◌*◌, ◌/◌, ◌%◌, ◌^◌, ◌≤◌, ◌<◌, [], ◌∷◌, ◌++◌, ◌≡◌, refl, ap, ◌∙◌,
  ◌==◌, if◌then◌else◌, arith, Bytes, length, take, drop, replicate, length-append, length-take,
  length-replicate, take-all,
}

-- binary.BigEndian.PutUint32 into four fresh bytes; the caller's `uint32(...)` is the `%`
unfoldable pub put_uint32 : ℕ → Bytes
put_uint32 n = (n / 2 ^ 24 % 256) ∷ (n / 2 ^ 16 % 256) ∷ (n / 2 ^ 8 % 256) ∷ (n % 256) ∷ []

-- bytesToInt, and binary.BigEndian.Uint32 of a slice of four bytes. A short read leaves `mlen` 0.
unfoldable pub bytes_to_int : Bytes → ℕ
bytes_to_int (a ∷ b ∷ c ∷ d ∷ rest) = a * 2 ^ 24 + b * 2 ^ 16 + c * 2 ^ 8 + d
bytes_to_int _ = 0

-- make([]byte, n)
abbrev pub zeros : ℕ → Bytes
zeros n = replicate n 0

-- copy(dst, src), as the bytes of dst afterwards
unfoldable pub copy : Bytes → Bytes → Bytes
copy dst src = take (length dst) src ++ drop (length src) dst

-- b := make([]byte, n); copy(b, src)
unfoldable pub field : ℕ → Bytes → Bytes
unfolding copy
field n src = copy (zeros n) src

trim_left : Bytes → Bytes
trim_left [] = []
trim_left (x ∷ xs) = let rest = trim_left xs in if x == 0 then rest else x ∷ xs

keep_right : ℕ → Bytes → Bytes
keep_right x [] = if x == 0 then [] else x ∷ []
keep_right x (y ∷ ys) = x ∷ y ∷ ys

trim_right : Bytes → Bytes
trim_right [] = []
trim_right (x ∷ xs) = keep_right x (trim_right xs)

-- bytes.Trim(b, "\x00"): from the right, then from the left
unfoldable pub trim : Bytes → Bytes
unfolding trim_left trim_right keep_right
trim b = trim_left (trim_right b)

pub length-put_uint32 : (n : ℕ) → length (put_uint32 n) ≡ 4
unfolding put_uint32
length-put_uint32 n = refl

pub bytes_to_int-put_uint32 :
    (n : ℕ) (rest : Bytes) → bytes_to_int (put_uint32 n ++ rest) ≡ n % 2 ^ 32
unfolding bytes_to_int put_uint32
bytes_to_int-put_uint32 n rest = omega arith

pub bytes_to_int-put_uint32_lt :
    (n : ℕ) (rest : Bytes) → n < 2 ^ 32 → bytes_to_int (put_uint32 n ++ rest) ≡ n
bytes_to_int-put_uint32_lt n rest h = omega (arith, bytes_to_int-put_uint32 n rest)

pub drop-replicate : (n k : ℕ) → drop k (zeros n) ≡ zeros (n - k)
unfolding drop replicate
drop-replicate n zero = ap zeros (omega arith)
drop-replicate zero (suc k) = ap zeros {x = 0} (omega arith)
drop-replicate (suc n) (suc k) = drop-replicate n k ∙ ap zeros {x = n - k} (omega arith)

-- A field is the text, cut at the width and padded with zero bytes.
pub field-eq : (n : ℕ) (s : Bytes) → field n s ≡ take n s ++ zeros (n - length s)
unfolding field copy
field-eq n s = rw (length-replicate {A = ℕ} n 0, drop-replicate n (length s)) refl

pub length-field : (n : ℕ) (s : Bytes) → length (field n s) ≡ n
length-field n s = rw field-eq (
    omega (
      arith,
      length-append (take n s) (zeros (n - length s)),
      length-take n s,
      length-replicate {A = ℕ} (n - length s) 0,
    ))

trim_right-zeros : (n : ℕ) → trim_right (zeros n) ≡ []
unfolding trim_right keep_right replicate
trim_right-zeros zero = refl
trim_right-zeros (suc n) = rw (trim_right-zeros n) refl

trim_right-append : (s : Bytes) (n : ℕ) → trim_right (s ++ zeros n) ≡ trim_right s
unfolding trim_right
trim_right-append [] n = trim_right-zeros n
trim_right-append (x ∷ xs) n = ap (keep_right x) (trim_right-append xs n)

-- What a reader of the field gets: the text cut at the width, without zero bytes at its ends.
pub trim-field : (n : ℕ) (s : Bytes) → trim (field n s) ≡ trim (take n s)
unfolding trim
trim-field n s = rw field-eq (ap trim_left (trim_right-append (take n s) (n - length s)))

-- A text that a field of this width carries unchanged.
pub record Fits (n : ℕ) (s : Bytes) : Type 0 where
  pub short : length s ≤ n
  pub clean : trim s ≡ s

pub trim-field_self : (n : ℕ) (s : Bytes) → Fits n s → trim (field n s) ≡ s
trim-field_self n s h = trim-field n s ∙ ap trim (take-all n s h.short) ∙ h.clean

-- Texts as 255-byte fields, one behind the other: the layout of WATCH and UNWATCH.
abbrev pub fields : List Bytes → Bytes
fields [] = []
fields (s ∷ ss) = field 255 s ++ fields ss

pub length-fields : (ss : List Bytes) → length (fields ss) ≡ length ss * 255
length-fields [] = refl
length-fields (s ∷ ss) =
    omega (arith, length-append (field 255 s) (fields ss), length-field 255 s, length-fields ss)
