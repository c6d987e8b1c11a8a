-- ===== src/Base64/Quads.antt =====
-- Four characters and the three bytes that they stand for.
use Prim.Native.Nat.{bit_or}
use comfirm_dmarc_report_ser.Common.{
  ℕ, zero, suc, ◌+◌, ◌*◌, ◌/◌, ◌%◌, ◌<◌, ◌≡◌, refl, ap, ap₂, Bool, true, false, ◌&&◌, arith, ◌==◌,
  if◌then◌else◌, get_or,
}
use comfirm_dmarc_report_ser.Base64.{base64_table, isbase64, base64_value}

-- A property of six, eight, ten or twelve bits is looked up for each number that they make.
module _ (good : ℕ → Bool) where
  every : ℕ → Bool
  every zero = true
  every (suc k) = let smaller = every k in if good k then smaller else false

  good_lem : {k : ℕ} (n : ℕ) → k < n → every n ≡ true → good k ≡ true
  unfolding every
  good_lem zero h e = absurd (omega arith)
  good_lem {k} (suc n) h e = ground (arith, good_lem {k = k} n)

eq_lem : (a b : ℕ) → (a == b) ≡ true → a ≡ b
eq_lem a b h = ground arith

-- The character for six bits.
abbrev pub digit : ℕ → ℕ
digit k = get_or base64_table k 0

digits_table : every (λ k. base64_value (digit k) == k && isbase64 (digit k)) 64 ≡ true
unfolding every base64_value isbase64
digits_table = refl

both_lem : (a b : Bool) → (a && b) ≡ true → (a ≡ true) × (b ≡ true)
both_lem true b h = (refl, h)
both_lem false b h = cc

pub digit_lem : (k : ℕ) → k < 64 → (base64_value (digit k) ≡ k) × (isbase64 (digit k) ≡ true)
digit_lem k h = let t = both_lem _ _ (good_lem _ 64 h digits_table) in (eq_lem _ _ t.0, t.1)

fields_table : every (λ x. bit_or (x / 4 * 4) (x % 4) == x) 256 ≡ true
unfolding every
fields_table = refl

fields_table_2 : every (λ x. bit_or (x / 16 * 16) (x % 16) == x) 1024 ≡ true
unfolding every
fields_table_2 = refl

fields_table_3 : every (λ x. bit_or (x / 64 * 64) (x % 64) == x) 4096 ≡ true
unfolding every
fields_table_3 = refl

-- Two fields that do not overlap, put together.
low : (x : ℕ) → x < 256 → bit_or (x / 4 * 4) (x % 4) ≡ x
low x h = eq_lem _ _ (good_lem _ 256 h fields_table)

middle : (x : ℕ) → x < 1024 → bit_or (x / 16 * 16) (x % 16) ≡ x
middle x h = eq_lem _ _ (good_lem _ 1024 h fields_table_2)

high : (x : ℕ) → x < 4096 → bit_or (x / 64 * 64) (x % 64) ≡ x
high x h = eq_lem _ _ (good_lem _ 4096 h fields_table_3)

pub first_byte : (x w : ℕ) → x < 256 → w < 16 → bit_or (x / 4 * 4) ((x % 4 * 16 + w) / 16) % 256 ≡ x
first_byte x w h k = omega (
  arith,
  low x h,
  ap (λ (t : ℕ). bit_or (x / 4 * 4) t) {x = (x % 4 * 16 + w) / 16} {y = x % 4} (omega arith),
)

pub second_byte :
    (a y w : ℕ)
    → a < 4
    → y < 256
    → w < 4
    → bit_or ((a * 16 + y / 16) * 16) ((y % 16 * 4 + w) / 4) % 256 ≡ y
second_byte a y w ha hy hw = omega (
  arith,
  middle (a * 256 + y) (omega arith),
  ap₂ bit_or {x = (a * 16 + y / 16) * 16} {y = (a * 256 + y) / 16 * 16} {u = (y % 16 * 4 + w) / 4}
      {v = (a * 256 + y) % 16} (omega arith) (omega arith),
)

pub third_byte : (a z : ℕ) → a < 16 → z < 256 → bit_or ((a * 4 + z / 64) * 64) (z % 64) % 256 ≡ z
third_byte a z ha hz = omega (
  arith,
  high (a * 256 + z) (omega arith),
  ap₂ bit_or {x = (a * 4 + z / 64) * 64} {y = (a * 256 + z) / 64 * 64} {u = z % 64}
      {v = (a * 256 + z) % 64} (omega arith) (omega arith),
)
