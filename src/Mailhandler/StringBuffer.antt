-- ===== src/Mailhandler/StringBuffer.antt =====
-- The string buffer that the JSON text is built in, src/mailhandler/string_buffer.c.
use comfirm_dmarc_report_ser.Common.{
  ℕ, ◌+◌, ◌-◌, ◌≤◌, ◌<◌, ◌≡◌, refl, [], ◌∷◌, ◌++◌, Option, none, some, arith, leb, ◌==◌,
  if◌then◌else◌, length, length-append, Bytes, sym, append-nil,
}
use comfirm_dmarc_report_ser.Common.Outcome.{Outcome, ok, fault, out_of_bounds}

abbrev pub chunk_size : ℕ
chunk_size = 512

-- `string_buffer`. `str` is NULL, or an array of `alloc_size + 1` bytes that begins with a text of
-- `size` bytes.
pub record StringBuffer : Type 0 where
  pub str : Option Bytes
  pub alloc_size : ℕ

abbrev pub text : StringBuffer → Bytes
text sb = elim sb.str [ none ↦ [] | some s ↦ s ]

abbrev pub size : StringBuffer → ℕ
size sb = length (text sb)

-- `string_buffer_init`
unfoldable pub init : StringBuffer
init = record { str = none; alloc_size = 0 }

-- The `realloc` block: one chunk more, however long the value is.
unfoldable pub grow : StringBuffer → ℕ → StringBuffer
grow sb n =
    if leb (sb.alloc_size - size sb) n
    then record { str = some (text sb); alloc_size = sb.alloc_size + chunk_size }
    else sb

-- `string_buffer_append`, where the text stays within `alloc_size`: the copy and the NUL behind it
-- take `size + strlen + 1` bytes.
unfoldable pub append : StringBuffer → Bytes → Outcome StringBuffer
unfolding grow
append sb value =
    if length value == 0
    then ok sb
    else (let big = grow sb (length value) in
        if leb (size sb + length value + 1) (big.alloc_size + 1)
        then ok (record big { str = some (text sb ++ value) })
        else fault out_of_bounds)

-- The text fits in the allocation.
abbrev pub Fits : StringBuffer → Type 0
Fits sb = size sb ≤ sb.alloc_size

-- To a buffer whose text fits in the allocation: a value that is at most one chunk longer than the
-- room left is appended, and the text fits again.
pub append_lem :
    (sb : StringBuffer) (value : Bytes)
    → Fits sb
    → size sb + length value ≤ sb.alloc_size + chunk_size
    → (sb' : StringBuffer) × (append sb value ≡ ok sb') × (text sb' ≡ text sb ++ value) × Fits sb'
unfolding append
append_lem sb [] fits room = (sb, refl, sym (append-nil (text sb)), fits)
append_lem sb (c ∷ cs) fits room = (
  record (grow sb (length (c ∷ cs))) { str = some (text sb ++ c ∷ cs) },
  ground arith,
  refl,
  ground (arith, length-append (text sb) (c ∷ cs)),
)

-- To a buffer whose text fits in the allocation: a value that is more than one chunk longer than
-- the room left is written past the end of the allocation.
pub append_overflows :
    (sb : StringBuffer) (value : Bytes)
    → Fits sb
    → sb.alloc_size + chunk_size < size sb + length value
    → append sb value ≡ fault out_of_bounds
unfolding append
append_overflows sb value fits long = ground arith
