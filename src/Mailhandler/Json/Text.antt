-- ===== src/Mailhandler/Json/Text.antt =====
-- What `to_json` is to write, as JSON.
use comfirm_dmarc_report_ser.Common.{
  ℕ, ◌==◌, if◌then◌else◌, ◌≡◌, refl, Bool, true, false, List, [], ◌∷◌, ◌++◌, append_assoc,
  append-nil, some, arith, Bytes, codes,
}
use comfirm_dmarc_report_ser.Mailhandler.Text.{json_escape, escape_byte}
use comfirm_dmarc_report_ser.Mailhandler.Json.{
  Node, element, other, Nodes, end, next, comma, opening,
}

abbrev pub concat : List Bytes → Bytes
concat [] = []
concat (v ∷ vs) = v ++ concat vs

-- A text inside a JSON string: the escapes of the backslash and of what cannot stand in one line.
abbrev pub escape_of : ℕ → Bytes
escape_of c =
    if c == 9
    then codes "\\t"
    else if c == 10
    then codes "\\n"
    else if c == 13
    then codes "\\r"
    else if c == 92
    then codes "\\\\"
    else c ∷ []

abbrev pub escaped : Bytes → Bytes
escaped [] = []
escaped (c ∷ cs) = escape_of c ++ escaped cs

pub json_escape-escaped : (s : Bytes) → json_escape s ≡ escaped s
unfolding json_escape escape_byte
json_escape-escaped [] = refl
json_escape-escaped (c ∷ cs) = ground (arith, json_escape-escaped cs)

-- Texts with a comma before each, and with commas between them.
abbrev pub commas : List Bytes → Bytes
commas [] = []
commas (t ∷ ts) = codes "," ++ (t ++ commas ts)

abbrev pub listed : List Bytes → Bytes
listed [] = []
listed (t ∷ ts) = t ++ commas ts

-- The members of an object, as JSON: an element with no children has an empty string, one with a
-- single child that child's content as a string, and one with more is an object itself.
abbrev pub member_texts : (Node → Bytes) → Nodes → List Bytes
member_texts content end = []
member_texts content (next (other _) rest) = member_texts content rest
member_texts content (next (element name end) rest) =
    (codes "\"" ++ (name ++ codes "\": \"\"")) ∷ member_texts content rest
member_texts content (next (element name (next k end)) rest) =
    (codes "\"" ++ (name ++ (codes "\": \"" ++ (escaped (content k) ++ codes "\""))))
    ∷ member_texts content rest
member_texts content (next (element name (next k (next k' ks))) rest) =
    (codes "\""
      ++ (name
          ++ (codes "\": {" ++ (listed (member_texts content (next k (next k' ks))) ++ codes "}"))))
    ∷ member_texts content rest

-- What the calls of `string_buffer_append` in the loop write, one after the other: an element with no children has an empty value, one with a
-- single child that child's content, and one with more is an object itself.
abbrev pub members_text : (Node → Bytes) → Bool → Nodes → Bytes
members_text content first end = []
members_text content first (next (other _) rest) = members_text content first rest
members_text content first (next (element name end) rest) =
    concat (comma first)
    ++ (concat (codes "\"" ∷ name ∷ codes "\": \"\"" ∷ []) ++ members_text content false rest)
members_text content first (next (element name (next k end)) rest) =
    concat (comma first)
    ++ (concat (codes "\"" ∷ name ∷ codes "\": \"" ∷ json_escape (content k) ∷ codes "\"" ∷ [])
        ++ members_text content false rest)
members_text content first (next (element name (next k (next k' ks))) rest) =
    concat (comma first)
    ++ (concat (opening (some name))
        ++ (members_text content true (next k (next k' ks))
            ++ (concat (codes "}" ∷ []) ++ members_text content false rest)))

mutual
  pub members_text-listed :
      (content : Node → Bytes) (nodes : Nodes)
      → members_text content true nodes ≡ listed (member_texts content nodes)
  members_text-listed content end = refl
  members_text-listed content (next (other _) rest) = members_text-listed content rest
  members_text-listed content (next (element name end) rest) =
      simp (append_assoc, append-nil, members_text-commas content rest) refl
  members_text-listed content (next (element name (next k end)) rest) =
      simp (append_assoc, append-nil, json_escape-escaped, members_text-commas content rest) refl
  members_text-listed content (next (element name (next k (next k' ks))) rest) =
      simp
        (
          append_assoc,
          append-nil,
          members_text-listed content (next k (next k' ks)),
          members_text-commas content rest,
        )
        refl

  members_text-commas :
      (content : Node → Bytes) (nodes : Nodes)
      → members_text content false nodes ≡ commas (member_texts content nodes)
  members_text-commas content end = refl
  members_text-commas content (next (other _) rest) = members_text-commas content rest
  members_text-commas content (next (element name end) rest) =
      simp (append_assoc, append-nil, members_text-commas content rest) refl
  members_text-commas content (next (element name (next k end)) rest) =
      simp (append_assoc, append-nil, json_escape-escaped, members_text-commas content rest) refl
  members_text-commas content (next (element name (next k (next k' ks))) rest) =
      simp
        (
          append_assoc,
          append-nil,
          members_text-listed content (next k (next k' ks)),
          members_text-commas content rest,
        )
        refl
