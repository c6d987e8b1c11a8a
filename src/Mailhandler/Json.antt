-- ===== src/Mailhandler/Json.antt =====
-- The report as JSON: `to_json`, `records_to_json` and `parse_xml` of src/mailhandler/mailhandler.c.
pub mod Text
pub mod Render
use comfirm_dmarc_report_ser.Common.{
  ℕ, Bool, true, false, List, [], ◌∷◌, ◌++◌, Option, none, some, if◌then◌else◌, Bytes, codes,
  str_eq,
}
use comfirm_dmarc_report_ser.Common.Outcome.{Outcome, ok, fault, null_deref, ◌>>=◌}
use comfirm_dmarc_report_ser.Mailhandler.StringBuffer
use comfirm_dmarc_report_ser.Mailhandler.StringBuffer.{StringBuffer}
use comfirm_dmarc_report_ser.Mailhandler.Text.{json_escape}

-- What the code reads of libxml's nodes: a node of type XML_ELEMENT_NODE with its name and children,
-- or a node of another type, told apart by its content; and the nodes linked by `next`.
mutual
  pub data Node : Type 0 where
    element : Bytes → Nodes → Node
    other : Bytes → Node

  pub data Nodes : Type 0 where
    end : Nodes
    next : Node → Nodes → Nodes

-- Calls of `string_buffer_append`, one after the other.
unfoldable pub appends : StringBuffer → List Bytes → Outcome StringBuffer
appends sb [] = ok sb
appends sb (v ∷ vs) = StringBuffer.append sb v >>= λ sb'. appends sb' vs

-- The comma before every element but the first.
abbrev pub comma : Bool → List Bytes
comma true = []
comma false = codes "," ∷ []

abbrev pub opening : Option Bytes → List Bytes
opening none = codes "{" ∷ []
opening (some name) = codes "\"" ∷ name ∷ codes "\": {" ∷ []

-- `xmlNodeGetContent`, and `xmlReadMemory` with `xmlDocGetRootElement`: `none` where the document
-- cannot be read, `some none` where it has no root.
module _ (content : Node → Bytes) (read_memory : Bytes → Option (Option Node)) where
  -- The loop of `to_json`; a call of `to_json` for an element is its opening, the loop, and `}`.
  unfoldable pub members : Bool → Nodes → StringBuffer → Outcome StringBuffer
  members first end sb = ok sb
  members first (next (other _) rest) sb = members first rest sb
  members first (next (element name end) rest) sb = appends sb (comma first) >>= λ sb.
      appends sb (codes "\"" ∷ name ∷ codes "\": \"\"" ∷ []) >>= members false rest
  members first (next (element name (next k end)) rest) sb = appends sb (comma first) >>= λ sb.
      appends sb (codes "\"" ∷ name ∷ codes "\": \"" ∷ json_escape (content k) ∷ codes "\"" ∷ [])
      >>= members false rest
  members first (next (element name (next k (next k' ks))) rest) sb =
      appends sb (comma first) >>= λ sb. appends sb (opening (some name)) >>= λ sb.
      members true (next k (next k' ks)) sb >>= λ sb.
      appends sb (codes "}" ∷ []) >>= members false rest

  -- `to_json`
  unfoldable pub to_json : Option Bytes → Nodes → StringBuffer → Outcome StringBuffer
  to_json name nodes sb = appends sb (opening name) >>= λ sb.
      members true nodes sb >>= λ sb. appends sb (codes "}" ∷ [])

  -- The loop of `records_to_json`.
  unfoldable pub records : Bool → Nodes → StringBuffer → Outcome StringBuffer
  records first end sb = ok sb
  records first (next (other _) rest) sb = records first rest sb
  records first (next (element name kids) rest) sb =
      let skipped = records first rest sb in
      if str_eq name (codes "record")
      then (appends sb (comma first) >>= λ sb. to_json none kids sb >>= λ sb. records false rest sb)
      else skipped

  -- `records_to_json`
  unfoldable pub records_to_json : Nodes → StringBuffer → Outcome StringBuffer
  records_to_json nodes sb = appends sb (codes "\"records\": [" ∷ []) >>= λ sb.
      records true nodes sb >>= λ sb. appends sb (codes "]" ∷ [])

  -- A comma if something was appended: `sb->str` is no longer NULL.
  abbrev pub separator : StringBuffer → List Bytes
  separator sb = elim sb.str [ none ↦ [] | some _ ↦ codes "," ∷ [] ]

  -- The loop of `parse_xml` over the top elements.
  unfoldable pub tops : Nodes → StringBuffer → Outcome StringBuffer
  tops end sb = ok sb
  tops (next (other _) rest) sb = tops rest sb
  tops (next (element name kids) rest) sb =
      let after : Outcome StringBuffer → Outcome StringBuffer = λ o. o >>= λ sb. tops rest sb in
      if str_eq name (codes "report_metadata")
      then after (to_json (some (codes "metadata")) kids sb)
      else if str_eq name (codes "policy_published")
      then after (appends sb (separator sb) >>= λ sb. to_json (some (codes "policy")) kids sb)
      else after (ok sb)

  -- The children of the root: those of a NULL root are read all the same.
  abbrev pub root_children : Option Node → Outcome Nodes
  root_children none = fault null_deref
  root_children (some (other _)) = ok end
  root_children (some (element _ kids)) = ok kids

  -- `parse_xml`: what it returns, and the buffer.
  unfoldable pub parse_xml : Bytes → StringBuffer → Outcome (ℕ × StringBuffer)
  parse_xml document sb = elim (read_memory document) [
    | none ↦ ok (1, sb)
    | some root ↦
        (root_children root >>= λ kids. tops kids sb >>= λ sb.
        appends sb (separator sb) >>= λ sb. records_to_json kids sb >>= λ sb. ok (0, sb))
  ]
