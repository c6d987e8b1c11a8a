-- ===== src/Base64.antt =====
-- The decoder of the server, src/base64.c with the table of src/base64.h.
pub mod Quads
pub mod Encode
pub mod Rounds
pub mod RoundTrip
use Prim.Native.Nat.{bit_or}
use comfirm_dmarc_report_ser.Common.{
  ℕ, zero, suc, ◌+◌, ◌-◌, ◌*◌, ◌/◌, ◌%◌, ◌^◌, Bool, true, false, not, ◌||◌, List, [], ◌∷◌, ◌++◌,
  Option, none, some, ◌==◌, if◌then◌else◌, Bytes, codes, take, length,
}
use comfirm_dmarc_report_ser.Common.Outcome.{Outcome, ok, fault, out_of_bounds}

abbrev pub base64_table : Bytes
base64_table = codes "ABCDEFGHIJKLMNOPQRSTUVWXYZabcdefghijklmnopqrstuvwxyz0123456789+/"

-- `strchr` in the table from its entry `n` on, as an index. It finds the terminating NUL too.
abbrev pub strchr : ℕ → Bytes → ℕ → Option ℕ
strchr n [] c = if c == 0 then some n else none
strchr n (t ∷ ts) c = if c == t then some n else strchr (suc n) ts c

abbrev pub is_some : Option ℕ → Bool
is_some none = false
is_some (some _) = true

unfoldable pub isbase64 : ℕ → Bool
isbase64 c = if c == 0 then false else is_some (strchr 0 base64_table c)

abbrev pub or_zero : Option ℕ → ℕ
or_zero none = 0
or_zero (some n) = n

unfoldable pub base64_value : ℕ → ℕ
base64_value c = or_zero (strchr 0 base64_table c)

-- The three bytes that a round writes, from the four values.
abbrev pub three : ℕ → ℕ → ℕ → ℕ → Bytes
three a b c d =
    (bit_or (a * 4) (b / 16) % 256)
    ∷ (bit_or (b * 16) (c / 4) % 256)
    ∷ (bit_or (c * 64) d % 256)
    ∷ []

-- The line ends behind four characters; the byte behind them is read too.
abbrev pub skip_eol : Bytes → Option Bytes
skip_eol [] = none
skip_eol (c ∷ cs) = if c == 13 || c == 10 then skip_eol cs else some (c ∷ cs)

abbrev pub is_readable : Option Bytes → Bool
is_readable none = false
is_readable (some _) = true

-- `srclen -= 4`, an `int` of 32 bits.
abbrev pub less_four : ℕ → ℕ
less_four len = (len + (2 ^ 32 - 4)) % 2 ^ 32

-- The loop, with what it has written, on the memory from `src` on. Each round takes at least four
-- bytes, so as many rounds as bytes are enough.
unfoldable pub loop : ℕ → Option Bytes → ℕ → Bytes → Outcome Bytes
loop (suc fuel) (some (a ∷ b ∷ c ∷ d ∷ src)) len out =
    let bytes = three (base64_value a) (base64_value b) (base64_value c) (base64_value d) in
    let rest = loop fuel (skip_eol src) (less_four len) (out ++ bytes) in
    if not (isbase64 b)
    then ok (out ++ take 1 bytes)
    else if not (isbase64 c)
    then ok (out ++ take 1 bytes)
    else if not (isbase64 d)
    then ok (out ++ take 2 bytes)
    else if less_four len == 0
    then (if is_readable (skip_eol src) then ok (out ++ bytes) else fault out_of_bounds)
    else rest
loop _ _ len out = fault out_of_bounds

-- `base64_decode`: the bytes in front of the NUL that it writes last; their number is returned.
unfoldable pub base64_decode : Bytes → ℕ → Outcome Bytes
unfolding loop
base64_decode [] len = fault out_of_bounds
base64_decode (c ∷ src) len =
    if c == 0 || len == 0 then ok [] else loop (suc (length src)) (some (c ∷ src)) len []
