-- ===== src/Request/Headers/Print.antt =====
-- Mail texts as a reporter sends them: header lines, an empty line, a body.
use comfirm_dmarc_report_ser.Common.{ℕ, ◌<◌, ◌≢◌, ◌≡◌, List, [], ◌∷◌, ◌++◌, length, Bytes, set}
use comfirm_dmarc_report_ser.Data.{Hdr, key_max_len, value_max_len}
use comfirm_dmarc_report_ser.Request.Headers.Arrays.{blit}

pub record Field : Type 0 where
  pub key : Bytes
  pub value : Bytes

-- The header lines of `fs`, in front of `rest`.
abbrev pub print : List Field → Bytes → Bytes
print [] rest = rest
print (f ∷ fs) rest = f.key ++ (b':' ∷ b' ' ∷ (f.value ++ (b'\r' ∷ b'\n' ∷ print fs rest)))

-- A mail text: the lines, the empty line, and what follows it.
abbrev pub mail_text : List Field → Bytes → Bytes
mail_text fs rest = print fs (b'\r' ∷ b'\n' ∷ rest)

-- A byte that a header's name may hold: no colon, no white space, no NUL.
abbrev pub KeyByte : ℕ → Type 0
KeyByte c = (c ≢ b':') × (c ≢ b' ') × (c ≢ b'\t') × (c ≢ b'\r') × (c ≢ 0)

abbrev pub KeyBytes : Bytes → Type 0
KeyBytes [] = Unit
KeyBytes (c ∷ cs) = KeyByte c × KeyBytes cs

-- A byte that a header's value may hold.
abbrev pub ValueByte : ℕ → Type 0
ValueByte c = (c ≢ b'\r') × (c ≢ 0)

abbrev pub ValueBytes : Bytes → Type 0
ValueBytes [] = Unit
ValueBytes (c ∷ cs) = ValueByte c × ValueBytes cs

-- A header line that fits in a `hdr`, with a NUL behind its name and its value.
pub record IsField (f : Field) : Type 0 where
  pub key_bytes : KeyBytes f.key
  pub key_fits : length f.key < key_max_len
  pub value_bytes : ValueBytes f.value
  pub value_fits : length f.value < value_max_len

abbrev pub AllFields : List Field → Type 0
AllFields [] = Unit
AllFields (f ∷ fs) = IsField f × AllFields fs

-- What does not go on with a folded header line.
abbrev pub NoFold : Bytes → Type 0
NoFold [] = Unit
NoFold (c ∷ cs) = (c ≢ b' ') × (c ≢ b'\t')

-- The character arrays of a header, as `hdr` declares them.
pub record IsHdr (h : Hdr) : Type 0 where
  pub key_size : length h.key ≡ key_max_len
  pub value_size : length h.value ≡ value_max_len

abbrev pub AllHdrs : List Hdr → Type 0
AllHdrs [] = Unit
AllHdrs (h ∷ hs) = IsHdr h × AllHdrs hs

-- A field written to a header, byte by byte, with the NULs.
abbrev pub fill : Field → Hdr → Hdr
fill f h = record {
  key = set (blit h.key 0 f.key) (length f.key) 0;
  value = set (blit h.value 0 f.value) (length f.value) 0;
}

abbrev pub fill_all : List Field → List Hdr → List Hdr
fill_all [] hs = hs
fill_all (f ∷ fs) [] = []
fill_all (f ∷ fs) (h ∷ hs) = fill f h ∷ fill_all fs hs
