-- ===== src/Data.antt =====
-- The data that the components share: src/base.h, without the handles of sockets and semaphores.
use comfirm_dmarc_report_ser.Common.{ℕ, List, Bytes}

abbrev pub key_max_len : ℕ
key_max_len = 128

abbrev pub value_max_len : ℕ
value_max_len = 1024

abbrev pub header_max_len : ℕ
header_max_len = 20

abbrev pub body_max_len : ℕ
body_max_len = 8000

-- `hdr`: two character arrays, of `key_max_len` and `value_max_len` bytes.
pub record Hdr : Type 0 where
  pub key : Bytes
  pub value : Bytes

-- `mail`: an array of `header_max_len` headers, and one of `body_max_len` bytes.
pub record Mail : Type 0 where
  pub headers : List Hdr
  pub header_count : ℕ
  pub body : Bytes
