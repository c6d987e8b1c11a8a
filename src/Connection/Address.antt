-- ===== src/Connection/Address.antt =====
-- The address of a client: `connection_get_ip` and `connection_get_iplong` of src/connection.c.
use comfirm_dmarc_report_ser.Common.{ℕ, Option, none, some, Bytes}

-- What `getpeername` stores: an IPv4 address, with `s_addr` as a number, or that of another family.
pub data Peer : Type 0 where
  inet : ℕ → Peer
  inet6 : Bytes → Peer

-- `inet_ntop` for the two families is the C library's.
module _ (ntop : ℕ → Bytes) (ntop6 : Bytes → Bytes) where
  abbrev pub text_of : Peer → Bytes
  text_of (inet a) = ntop a
  text_of (inet6 a) = ntop6 a

  -- `connection_get_ip`, with what `getpeername` stores (`none` is -1): NULL where it fails.
  unfoldable pub get_ip : Option Peer → Option Bytes
  get_ip none = none
  get_ip (some p) = some (text_of p)

-- `connection_get_iplong`: 0 where it fails, and for every address that is not of IPv4.
unfoldable pub get_iplong : Option Peer → ℕ
get_iplong none = 0
get_iplong (some (inet a)) = a
get_iplong (some (inet6 a)) = 0
