-- ===== src/Response.antt =====
-- The reply buffer of a connection, src/response.c.
pub mod Uuid
use comfirm_dmarc_report_ser.Common.{
  ℕ, ◌+◌, ◌<◌, ◌≡◌, refl, [], ◌++◌, arith, leb, if◌then◌else◌, length, length-append, Bytes,
}
use comfirm_dmarc_report_ser.Common.Outcome.{Outcome, ok, fault, out_of_bounds}

-- `response`. `text` is the first `data_len` bytes of `data`; `data_alloc` is 0 while `data` is NULL.
pub record Response : Type 0 where
  pub data_alloc : ℕ
  pub text : Bytes

abbrev pub data_len : Response → ℕ
data_len r = length r.text

-- `response_init`
unfoldable pub init : Response
init = record { data_alloc = 0; text = [] }

-- The `realloc` block of `response_append`, for a string of `n` bytes.
unfoldable pub grow : Response → ℕ → Response
grow r n =
    if leb r.data_alloc (data_len r + n + 1)
    then record r { data_alloc = data_len r + n + 512 }
    else r

-- `response_append`. The copy takes the NUL too, so `data_len + strlen + 1` bytes must be there.
unfoldable pub append : Response → Bytes → Outcome Response
unfolding grow
append r s =
    let big = grow r (length s) in
    if leb (data_len r + length s + 1) big.data_alloc
    then ok (record big { text = r.text ++ s })
    else fault out_of_bounds

-- The buffer with the string behind its text.
abbrev pub appended : Response → Bytes → Response
appended r s = record (grow r (length s)) { text = r.text ++ s }

pub append-ok : (r : Response) (s : Bytes) → append r s ≡ ok (appended r s)
unfolding append
append-ok r s = ground arith

-- Whatever the buffer holds, appending a string stays inside the allocation, and leaves the old
-- bytes followed by the string, with room for the terminating NUL.
pub append_in_bounds :
    (r : Response) (s : Bytes)
    → (r' : Response) × (append r s ≡ ok r')
      × (r'.text ≡ r.text ++ s)
      × (data_len r' < r'.data_alloc)
unfolding append
append_in_bounds r s = (appended r s, append-ok r s, refl, ground (arith, length-append r.text s))
