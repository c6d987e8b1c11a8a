-- ===== src/Mailhandler/Reports.antt =====
-- What the mail handler does with a mail it took from the queue: `validate_dkim`, `decode_content`
-- and the body of the loop of `main` in src/mailhandler/mailhandler.c, `dns_gettxt` of
-- src/mailhandler/dns.c and `base64_decode` of src/mailhandler/base64.c.
pub mod Signed
use comfirm_dmarc_report_ser.Common.{
  ℕ, Bool, true, false, ◌&&◌, ◌||◌, not, List, [], ◌∷◌, ◌++◌, Option, none, some, leb, ◌==◌,
  if◌then◌else◌, take, Bytes, codes, c_string, starts_with, str_eq, length, replicate, ◌-◌,
}
use comfirm_dmarc_report_ser.Common.Outcome.{Outcome, ok, fault, null_deref, out_of_bounds, ◌>>=◌}
use comfirm_dmarc_report_ser.Data.{Hdr, Mail, header_max_len}
use comfirm_dmarc_report_ser.Mailhandler.StringBuffer
use comfirm_dmarc_report_ser.Mailhandler.StringBuffer.{StringBuffer}
use comfirm_dmarc_report_ser.Mailhandler.Text.{base64_wrap}
use comfirm_dmarc_report_ser.Mailhandler.Zip.{unzip}
use comfirm_dmarc_report_ser.Mailhandler.Json.{Node, parse_xml}

-- What the code reads of firm-dkim's `dkim_header` and `dkim_record`.
pub record DkimHeader : Type 0 where
  pub s : Bytes
  pub d : Bytes

pub record DkimRecord : Type 0 where
  pub k : Bytes
  pub p : Bytes

-- The first record of an answer of the resolver: whether its class is IN and its type TXT, and its
-- data.
pub record Answer : Type 0 where
  pub class_in : Bool
  pub type_txt : Bool
  pub rdata : Bytes

-- The libraries: firm-dkim, the resolver (`none` where one of its calls fails), OpenSSL's reader of
-- base64, zlib, and libxml. And the byte behind what `unzip` returns.
pub record Services : Type 0 where
  pub dkim_get_header : List Hdr → Option DkimHeader
  pub dkim_parse_dns : Bytes → DkimRecord
  pub dkim_validate : List Hdr → Bytes → DkimHeader → Bytes → ℕ
  pub resolve : Bytes → Option Answer
  pub bio_read : Bytes → Bytes
  pub inflate : Bytes → ℕ → Option Bytes
  pub stale : ℕ
  pub content : Node → Bytes
  pub read_memory : Bytes → Option (Option Node)

-- The bytes of a record that are kept.
unfoldable pub kept : Bytes → Bytes
kept [] = []
kept (c ∷ cs) = if c == 183 || c == 218 then kept cs else c ∷ kept cs

-- The two lines around the key.
abbrev pub public_key : Bytes → Bytes
public_key key =
    codes "-----BEGIN PUBLIC KEY-----\n"
    ++ (base64_wrap key ++ codes "\n-----END PUBLIC KEY-----\n")

-- The domain asked for a header.
abbrev pub domain : DkimHeader → Bytes
domain h = h.s ++ (codes "._domainkey." ++ h.d)

-- The header of the content encoding: the first with this name.
abbrev pub content_encoding : List Hdr → Option Bytes
content_encoding [] = none
content_encoding (h ∷ hs) =
    if str_eq (c_string h.key) (codes "Content-Transfer-Encoding")
    then some (c_string h.value)
    else content_encoding hs

-- The headers of a mail: the array has `header_max_len` places.
unfoldable pub headers_of : Mail → Outcome (List Hdr)
headers_of m =
    if leb m.header_count header_max_len
    then ok (take m.header_count m.headers)
    else fault out_of_bounds

-- `strlen` of memory that need not have a NUL.
abbrev pub has_nul : Bytes → Bool
has_nul [] = false
has_nul (c ∷ cs) = if c == 0 then true else has_nul cs

module _ (lib : Services) where
  -- `dns_gettxt`
  unfoldable pub dns_gettxt : Bytes → Option Bytes
  dns_gettxt name = elim (lib.resolve name) [
    | none ↦ none
    | some a ↦ if a.class_in && a.type_txt then some (c_string (kept a.rdata)) else none
  ]

  -- The test of the key's type, and the check of the signature.
  unfoldable pub check_record : List Hdr → Bytes → DkimHeader → DkimRecord → ℕ
  check_record headers body h r =
      if starts_with r.k (codes "rsa") then lib.dkim_validate headers body h (public_key r.p) else 0

  -- With the answer from the DNS, and with the DKIM header, or without.
  abbrev pub with_answer : List Hdr → Bytes → DkimHeader → Option Bytes → ℕ
  with_answer headers body h none = 0
  with_answer headers body h (some resp) = check_record headers body h (lib.dkim_parse_dns resp)

  abbrev pub with_header : List Hdr → Bytes → Option DkimHeader → ℕ
  with_header headers body none = 0
  with_header headers body (some h) = with_answer headers body h (dns_gettxt (domain h))

  -- `validate_dkim`
  unfoldable pub validate_dkim : Mail → Outcome ℕ
  validate_dkim m = headers_of m >>= λ hs. ok (with_header hs m.body (lib.dkim_get_header hs))

  -- `base64_decode`: the buffer, of zero bytes but for what OpenSSL writes to it.
  unfoldable pub base64_decode : Bytes → Bytes
  base64_decode input =
      let wrapped = base64_wrap input in
      let out = lib.bio_read wrapped in out ++ replicate (length wrapped - length out) 0

  -- `decode_content`, the NULL encoding compared all the same.
  unfoldable pub decode_content : Mail → Outcome (Option Bytes)
  decode_content m = headers_of m >>= λ hs. elim (content_encoding hs) [
    | none ↦ fault null_deref
    | some e ↦
        if str_eq e (codes "base64") then ok (some (base64_decode (c_string m.body))) else ok none
  ]

  -- From the XML to what is posted, if anything: the buffer must hold something.
  unfoldable pub convert : Option Bytes → Outcome (Option Bytes)
  convert none = ok none
  convert (some xml) =
      if has_nul xml
      then (parse_xml lib.content lib.read_memory (c_string xml) StringBuffer.init >>= λ (_, sb).
          ok sb.str)
      else fault out_of_bounds

  unfoldable pub open_content : Option Bytes → Outcome (Option Bytes)
  open_content none = ok none
  open_content (some zip) = unzip lib.inflate lib.stale zip >>= convert

  -- The branch of the loop for a mail: the data handed to `post_data`, if any.
  unfoldable pub report : Mail → Outcome (Option Bytes)
  report m = validate_dkim m >>= λ valid.
      if valid == 0 then ok none else (decode_content m >>= open_content)
