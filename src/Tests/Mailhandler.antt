-- ===== src/Tests/Mailhandler.antt =====
-- The text conversions of the mail handler at concrete inputs.
use comfirm_dmarc_report_ser.Common.{
  ℕ, ◌+◌, ◌≤◌, ◌≡◌, refl, false, [], ◌∷◌, Option, none, some, arith, length, Bytes, codes,
}
use comfirm_dmarc_report_ser.Common.Outcome.{ok}
use comfirm_dmarc_report_ser.Mailhandler.StringBuffer.{StringBuffer, append, text, Fits, append_lem}
use comfirm_dmarc_report_ser.Mailhandler.Text.{
  escape_byte, json_escape, json_escape_lem, unescape, OneLine,
}
use comfirm_dmarc_report_ser.Mailhandler.Zip.{unzip, Entry, print, unzip-print}
use comfirm_dmarc_report_ser.Mailhandler.Json.{Node, element, other, Nodes, end, next, to_json}
use comfirm_dmarc_report_ser.Mailhandler.Json.Render.{to_json_lem}

json_escape_lem_example :
    (unescape false (json_escape (codes "a\t\\b\n")) ≡ codes "a\t\\b\n")
    × OneLine (json_escape (codes "a\t\\b\n"))
    × (length (json_escape (codes "a\t\\b\n")) + 1 ≤ 11)
json_escape_lem_example = json_escape_lem (codes "a\t\\b\n")

-- A buffer that holds two bytes, after one `realloc`.
abbrev buffer : StringBuffer
buffer = record { str = some (codes "{\""); alloc_size = 512 }

append_lem_example :
    (sb' : StringBuffer) × (append buffer (codes "org") ≡ ok sb')
    × (text sb' ≡ codes "{\"org")
    × Fits sb'
append_lem_example = append_lem buffer (codes "org") (omega arith) (omega arith)

-- The content of a text node.
abbrev content : Node → Bytes
content (element _ _) = []
content (other t) = t

abbrev nodes : Nodes
nodes = next (other (codes "\n")) (next (element (codes "p") (next (other (codes "none")) end)) end)

length_none : length (json_escape (codes "none")) ≤ 512
length_none = omega (arith, (json_escape_lem (codes "none")).2)

to_json_lem_example :
    (sb' : StringBuffer) × (to_json content (λ _. none) (some (codes "policy")) nodes buffer
      ≡ ok sb')
    × (text sb' ≡ codes "{\"\"policy\": {\"p\": \"none\"}")
    × Fits sb'
unfolding json_escape escape_byte
to_json_lem_example =
    to_json_lem content (λ _. none) (codes "policy") nodes buffer (omega arith) (omega arith)
      (omega arith, length_none, tt)

abbrev entry : Entry
entry = record {
  version = (20, 0);
  flags = (0, 0);
  time = (1, 2);
  date = (3, 4);
  crc = (5, 6, 7, 8);
  name = codes "r.xml";
  extra = [];
  data_bytes = 1 ∷ 2 ∷ [];
  full_size = 3;
}

-- A stand-in for zlib that gives the stream back.
abbrev echo : Bytes → ℕ → Option Bytes
echo stream _ = some stream

unzip-print_example :
    unzip echo 9 (print entry (codes "PK")) ≡ ok (some (120 ∷ 156 ∷ 1 ∷ 2 ∷ 9 ∷ []))
unzip-print_example =
    unzip-print echo 9 entry (codes "PK") (120 ∷ 156 ∷ 1 ∷ 2 ∷ []) (omega arith) (omega arith)
      (omega arith) (omega arith) refl
