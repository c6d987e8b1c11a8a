-- ===== src/Mailhandler/Text.antt =====
-- The two text conversions of the mail handler: `json_escape` of src/mailhandler/mailhandler.c and
-- `base64_wrap` of src/mailhandler/base64.c.
use comfirm_dmarc_report_ser.Common.{
  ℕ, suc, ◌+◌, ◌*◌, ◌≤◌, ◌≡◌, ◌≢◌, Bool, true, false, ◌||◌, [], ◌∷◌, ◌++◌, arith, ◌==◌,
  if◌then◌else◌, length, Bytes,
}

-- The bytes written for one byte.
unfoldable pub escape_byte : ℕ → Bytes
escape_byte c =
    if c == 9
    then 92 ∷ 116 ∷ []
    else if c == 10
    then 92 ∷ 110 ∷ []
    else if c == 92
    then 92 ∷ 92 ∷ []
    else if c == 13
    then 92 ∷ 114 ∷ []
    else c ∷ []

-- `json_escape`
unfoldable pub json_escape : Bytes → Bytes
json_escape [] = []
json_escape (c ∷ cs) = escape_byte c ++ json_escape cs

-- A reader of the escapes, byte by byte: whether a backslash stands before, and what it read.
abbrev pub meant : ℕ → ℕ
meant c = if c == 116 then 9 else if c == 110 then 10 else if c == 114 then 13 else c

abbrev pub unescape : Bool → Bytes → Bytes
unescape _ [] = []
unescape true (c ∷ cs) = meant c ∷ unescape false cs
unescape false (c ∷ cs) = if c == 92 then unescape true cs else c ∷ unescape false cs

-- No raw tab, line feed or carriage return.
abbrev pub OneLine : Bytes → Type 0
OneLine [] = Unit
OneLine (c ∷ cs) = (c ≢ 9) × (c ≢ 10) × (c ≢ 13) × OneLine cs

-- For every text: reading the escapes gives the text back, the result has no raw tab, line feed or
-- carriage return, and with its NUL it fits in the `len * 2 + 1` bytes allocated.
pub json_escape_lem :
    (s : Bytes)
    → (unescape false (json_escape s) ≡ s)
      × OneLine (json_escape s)
      × (length (json_escape s) + 1 ≤ length s * 2 + 1)
unfolding json_escape escape_byte
json_escape_lem [] = ground arith
json_escape_lem (c ∷ cs) = ground (arith, json_escape_lem cs)

-- The loop of `base64_wrap`, with `lcount` bytes on the line so far.
unfoldable pub wrap : ℕ → Bytes → Bytes
wrap lcount [] = []
wrap lcount (c ∷ cs) =
    if c == 32 || lcount == 75 then c ∷ 13 ∷ 10 ∷ wrap 0 cs else c ∷ wrap (suc lcount) cs

-- `base64_wrap`
unfoldable pub base64_wrap : Bytes → Bytes
base64_wrap s = wrap 0 s

-- The text without its line ends.
abbrev pub unwrap : Bytes → Bytes
unwrap [] = []
unwrap (c ∷ cs) = if c == 13 || c == 10 then unwrap cs else c ∷ unwrap cs

-- From here on no line has more than 76 bytes and its line end, if `n` bytes stand on this one.
abbrev pub ShortLines : ℕ → Bytes → Type 0
ShortLines n [] = n ≤ 76
ShortLines n (c ∷ cs) =
    if c == 13 || c == 10 then (n ≤ 76) × ShortLines 0 cs else ShortLines (suc n) cs
