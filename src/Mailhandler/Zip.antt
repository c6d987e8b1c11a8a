-- ===== src/Mailhandler/Zip.antt =====
-- The first file of a zip archive: `unzip` of src/mailhandler/mailhandler.c.
use comfirm_dmarc_report_ser.Common.{
  ℕ, zero, suc, ◌+◌, ◌*◌, ◌/◌, ◌%◌, ◌^◌, ◌≤◌, ◌<◌, ◌≡◌, refl, sym, ap, ap₂, ◌∙◌, not, ◌&&◌, [], ◌∷◌,
  ◌++◌, Option, none, some, arith, ltb, leb, lt→ltb, le→leb, if◌then◌else◌, length, length-append,
  take, drop, take-append, drop-append, Bytes, str_eq,
}
use comfirm_dmarc_report_ser.Common.Outcome.{Outcome, ok, fault, out_of_bounds}

-- A field of the header, and the number that two or four of its bytes are, the lowest first.
abbrev pub field : Bytes → ℕ → ℕ → Bytes
field z i n = take n (drop i z)

abbrev pub number : Bytes → ℕ
number [] = 0
number (c ∷ cs) = c + 256 * number cs

abbrev pub filename_len : Bytes → ℕ
filename_len z = number (field z 26 2)

abbrev pub extra_field_len : Bytes → ℕ
extra_field_len z = number (field z 28 2)

abbrev pub compr_len : Bytes → ℕ
compr_len z = number (field z 18 4)

abbrev pub uncompr_len : Bytes → ℕ
uncompr_len z = number (field z 22 4)

-- Where the compressed data begins.
abbrev pub data_at : Bytes → ℕ
data_at z = 30 + filename_len z + extra_field_len z

-- zlib: the bytes that `inflate` gives for a stream where there is room for so many, `none` where
-- `inflateInit` fails. And the byte that `malloc` leaves behind the result, which nothing sets.
module _ (inflate : Bytes → ℕ → Option Bytes) (stale : ℕ) where
  -- The part of `unzip` behind the tests, for where the data begins and the two sizes. `int` holds
  -- both sizes if they are small enough: arrays of a negative size are not allowed.
  unfoldable pub extract : ℕ → ℕ → ℕ → Bytes → Outcome (Option Bytes)
  extract start compr uncompr z =
      if ltb (compr + 2) (2 ^ 31) && ltb uncompr (2 ^ 31) && leb (start + compr) (length z)
      then ok (elim (inflate (120 ∷ 156 ∷ field z start compr) uncompr) [
        | none ↦ none
        | some out ↦ some (out ++ stale ∷ [])
      ])
      else fault out_of_bounds

  -- `unzip`, for the memory at `zipdata`; `zipdata_len` is not read. The memory returned, or `none`
  -- for NULL.
  unfoldable pub unzip : Bytes → Outcome (Option Bytes)
  unfolding extract
  unzip z =
      if leb 30 (length z)
      then (if not (str_eq (field z 0 4) (80 ∷ 75 ∷ 3 ∷ 4 ∷ []))
          then ok none
          else if not (str_eq (field z 8 2) (8 ∷ 0 ∷ []))
          then ok none
          else extract (data_at z) (compr_len z) (uncompr_len z) z)
      else fault out_of_bounds

-- The lowest `n` bytes of a number.
abbrev pub bytes_of : ℕ → ℕ → Bytes
bytes_of zero m = []
bytes_of (suc n) m = m % 256 ∷ bytes_of n (m / 256)

-- A file in an archive: its name, the extra field and the compressed data, the size it has once it
-- is inflated, and the version, flags, times and checksum as they stand in the header.
pub record Entry : Type 0 where
  pub version : ℕ × ℕ
  pub flags : ℕ × ℕ
  pub time : ℕ × ℕ
  pub date : ℕ × ℕ
  pub crc : ℕ × ℕ × ℕ × ℕ
  pub name : Bytes
  pub extra : Bytes
  pub data_bytes : Bytes
  pub full_size : ℕ

-- The local file header of the zip format with the name, the extra field and the data behind it.
abbrev pub print : Entry → Bytes → Bytes
print e rest =
    80
    ∷ 75
    ∷ 3
    ∷ 4
    ∷ e.version.0
    ∷ e.version.1
    ∷ e.flags.0
    ∷ e.flags.1
    ∷ 8
    ∷ 0
    ∷ e.time.0
    ∷ e.time.1
    ∷ e.date.0
    ∷ e.date.1
    ∷ e.crc.0
    ∷ e.crc.1
    ∷ e.crc.2
    ∷ e.crc.3
    ∷ (bytes_of 4 (length e.data_bytes)
        ++ (bytes_of 4 e.full_size
            ++ (bytes_of 2 (length e.name)
                ++ (bytes_of 2 (length e.extra)
                    ++ (e.name ++ (e.extra ++ (e.data_bytes ++ rest)))))))

number-bytes_of2 : (m : ℕ) → m < 2 ^ 16 → number (bytes_of 2 m) ≡ m
number-bytes_of2 m h = omega arith

number-bytes_of4 : (m : ℕ) → m < 2 ^ 32 → number (bytes_of 4 m) ≡ m
number-bytes_of4 m h = omega arith

drop-plus : (m n : ℕ) (xs : Bytes) → drop (m + n) xs ≡ drop n (drop m xs)
drop-plus zero n xs = ap (λ (k : ℕ). drop k xs) {x = 0 + n} {y = n} (omega arith)
drop-plus (suc m) n [] =
    ap (λ (k : ℕ). drop {A = ℕ} k []) {x = suc m + n} {y = suc (m + n)} (omega arith)
    ∙ sym (drop-nil n)
  where
    drop-nil : (n : ℕ) → drop {A = ℕ} n [] ≡ []
    drop-nil zero = refl
    drop-nil (suc n) = refl
drop-plus (suc m) n (x ∷ xs) =
    ap (λ (k : ℕ). drop k (x ∷ xs)) {x = suc m + n} {y = suc (m + n)} (omega arith)
    ∙ drop-plus m n xs

field-behind :
    (name extra d rest : Bytes)
    → take (length d) (drop (length name + length extra) (name ++ (extra ++ (d ++ rest)))) ≡ d
field-behind name extra d rest =
    ap (take (length d)) (
      drop-plus (length name) (length extra) (name ++ (extra ++ (d ++ rest)))
      ∙ ap (drop (length extra)) (drop-append name (extra ++ (d ++ rest)))
      ∙ drop-append extra (d ++ rest))
    ∙ take-append d rest

field-print :
    (e : Entry) (rest : Bytes)
    → field (print e rest) (30 + (length e.name + length e.extra)) (length e.data_bytes)
      ≡ e.data_bytes
field-print e rest =
    ap (take (length e.data_bytes)) (drop-plus 30 (length e.name + length e.extra) (print e rest))
    ∙ field-behind e.name e.extra e.data_bytes rest

length-print :
    (e : Entry) (rest : Bytes)
    → 30 + (length e.name + length e.extra) + length e.data_bytes ≤ length (print e rest)
length-print e rest = omega (
  arith,
  length-append e.name (e.extra ++ (e.data_bytes ++ rest)),
  length-append e.extra (e.data_bytes ++ rest),
  length-append e.data_bytes rest,
)

extract-print :
    (inflate : Bytes → ℕ → Option Bytes) (stale : ℕ) (e : Entry) (rest out : Bytes)
    → length e.data_bytes + 2 < 2 ^ 31
    → e.full_size < 2 ^ 31
    → inflate (120 ∷ 156 ∷ e.data_bytes) e.full_size ≡ some out
    → extract inflate stale
        (30 + (length e.name + length e.extra))
        (length e.data_bytes)
        e.full_size
        (print e rest)
      ≡ ok (some (out ++ stale ∷ []))
unfolding extract
extract-print inflate stale e rest out d f i = rw (lt→ltb (length e.data_bytes + 2) (2 ^ 31) d) (
    rw (lt→ltb e.full_size (2 ^ 31) f)
      (rw (le→leb _ _ (length-print e rest)) (rw (field-print e rest) (simp i))))

-- An archive begins with a local header for the method 8, whose name, extra field and data have
-- lengths that fit in their fields, and sizes that fit in an `int`, and zlib gives `out` for a
-- stream of this data and room for the full size: `unzip` returns `out`, with one byte behind it
-- that nothing set, whatever follows the data.
pub unzip-print :
    (inflate : Bytes → ℕ → Option Bytes) (stale : ℕ) (e : Entry) (rest out : Bytes)
    → length e.name < 2 ^ 16
    → length e.extra < 2 ^ 16
    → length e.data_bytes + 2 < 2 ^ 31
    → e.full_size < 2 ^ 31
    → inflate (120 ∷ 156 ∷ e.data_bytes) e.full_size ≡ some out
    → unzip inflate stale (print e rest) ≡ ok (some (out ++ stale ∷ []))
unfolding unzip
unzip-print inflate stale e rest out n x d f i =
    rw (le→leb 30 (length z) (omega (arith, length-print e rest))) refl
    ∙ ap (λ (k : ℕ). extract inflate stale k (compr_len z) (uncompr_len z) z) {x = data_at z}
        {y = 30 + (length e.name + length e.extra)}
        (omega (arith, number-bytes_of2 (length e.name) n, number-bytes_of2 (length e.extra) x))
    ∙ ap₂ (λ (c u : ℕ). extract inflate stale (30 + (length e.name + length e.extra)) c u z)
        (number-bytes_of4 (length e.data_bytes) (omega arith))
        (number-bytes_of4 e.full_size (omega arith))
    ∙ extract-print inflate stale e rest out d f i
  where
    z : Bytes
    z = print e rest
