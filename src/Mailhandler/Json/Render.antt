-- ===== src/Mailhandler/Json/Render.antt =====
-- What `to_json` writes.
use comfirm_dmarc_report_ser.Common.{
  ◌≤◌, ◌≡◌, refl, sym, ap, ◌∙◌, Bool, true, false, List, [], ◌∷◌, ◌++◌, append_assoc, append-nil,
  Option, some, arith, length, Bytes, codes,
}
use comfirm_dmarc_report_ser.Common.Outcome.{Outcome, ok, fault, ◌>>=◌}
use comfirm_dmarc_report_ser.Mailhandler.StringBuffer.{
  StringBuffer, chunk_size, text, Fits, append_lem,
}
use comfirm_dmarc_report_ser.Mailhandler.Text.{json_escape}
use comfirm_dmarc_report_ser.Mailhandler.Json.Text.{
  concat, escaped, json_escape-escaped, listed, member_texts, members_text, members_text-listed,
}
use comfirm_dmarc_report_ser.Mailhandler.Json.{
  Node, element, other, Nodes, end, next, appends, comma, opening, members, to_json,
}

-- The call leaves the buffer with this text behind what it held, within its allocation.
abbrev pub Wrote : StringBuffer → Bytes → Outcome StringBuffer → Type 0
Wrote sb t (fault _) = ⊥
Wrote sb t (ok sb') = (text sb' ≡ text sb ++ t) × Fits sb'

-- One call after another.
then_Wrote :
    (sb : StringBuffer) (t u : Bytes) (o : Outcome StringBuffer)
    (k : StringBuffer → Outcome StringBuffer)
    → Wrote sb t o
    → ((sb' : StringBuffer) → Fits sb' → Wrote sb' u (k sb'))
    → Wrote sb (t ++ u) (o >>= k)
then_Wrote sb t u (fault _) k h g = absurd h
then_Wrote sb t u (ok sb') k h g = moved (k sb') (g sb' h.1)
  where
    moved : (r : Outcome StringBuffer) → Wrote sb' u r → Wrote sb (t ++ u) r
    moved (fault _) w = w
    moved (ok sb'') w = (w.0 ∙ ap (λ (b : Bytes). b ++ u) h.0 ∙ append_assoc (text sb) t u, w.1)

wrote :
    (sb : StringBuffer) (t : Bytes) (o : Outcome StringBuffer)
    → Wrote sb t o
    → (sb' : StringBuffer) × (o ≡ ok sb') × (text sb' ≡ text sb ++ t) × Fits sb'
wrote sb t (fault _) h = absurd h
wrote sb t (ok sb') h = (sb', refl, h.0, h.1)

-- No piece is longer than a chunk of the buffer.
abbrev pub AllShort : List Bytes → Type 0
AllShort [] = Unit
AllShort (v ∷ vs) = (length v ≤ chunk_size) × AllShort vs

appends-Wrote :
    (sb : StringBuffer) (vs : List Bytes)
    → Fits sb
    → AllShort vs
    → Wrote sb (concat vs) (appends sb vs)
unfolding appends
appends-Wrote sb [] f h = (sym (append-nil (text sb)), f)
appends-Wrote sb (v ∷ vs) f h =
    let (sb', e, t, f') = append_lem sb v f (omega (arith, h.0, f)) in
    then_Wrote sb v (concat vs) _ (λ b. appends b vs) (rw e (t, f'))
      (λ b g. appends-Wrote b vs g h.1)

-- Every name and every escaped value fits in a chunk.
abbrev pub AllFit : (Node → Bytes) → Nodes → Type 0
AllFit content end = Unit
AllFit content (next (other _) rest) = AllFit content rest
AllFit content (next (element name end) rest) = (length name ≤ chunk_size) × AllFit content rest
AllFit content (next (element name (next k end)) rest) =
    (length name ≤ chunk_size) × (length (escaped (content k)) ≤ chunk_size) × AllFit content rest
AllFit content (next (element name (next k (next k' ks))) rest) =
    (length name ≤ chunk_size) × AllFit content (next k (next k' ks)) × AllFit content rest

comma-AllShort : (first : Bool) → AllShort (comma first)
comma-AllShort true = tt
comma-AllShort false = (omega arith, tt)

module _ (content : Node → Bytes) (read_memory : Bytes → Option (Option Node)) where
  members-Wrote :
      (first : Bool) (nodes : Nodes) (sb : StringBuffer)
      → Fits sb
      → AllFit content nodes
      → Wrote sb (members_text content first nodes) (members content read_memory first nodes sb)
  unfolding members
  members-Wrote first end sb f h = (sym (append-nil (text sb)), f)
  members-Wrote first (next (other _) rest) sb f h = members-Wrote first rest sb f h
  members-Wrote first (next (element name end) rest) sb f h =
      then_Wrote sb _ _ _ _ (appends-Wrote sb (comma first) f (comma-AllShort first)) (λ b g.
        then_Wrote b _ _ _ _
          (appends-Wrote b (codes "\"" ∷ name ∷ codes "\": \"\"" ∷ []) g
            (omega arith, (h.0, (omega arith, tt))))
          (λ b g. members-Wrote false rest b g h.1))
  members-Wrote first (next (element name (next k end)) rest) sb f h =
      then_Wrote sb _ _ _ _ (appends-Wrote sb (comma first) f (comma-AllShort first)) (λ b g.
        then_Wrote b _ _ _ _
          (appends-Wrote b
            (codes "\"" ∷ name ∷ codes "\": \"" ∷ json_escape (content k) ∷ codes "\"" ∷ []) g
            (omega arith, (h.0, (omega arith, (rw json_escape-escaped h.1, (omega arith, tt))))))
          (λ b g. members-Wrote false rest b g h.2))
  members-Wrote first (next (element name (next k (next k' ks))) rest) sb f h =
      then_Wrote sb _ _ _ _ (appends-Wrote sb (comma first) f (comma-AllShort first)) (λ b g.
        then_Wrote b _ _ _ _
          (appends-Wrote b (opening (some name)) g (omega arith, (h.0, (omega arith, tt))))
          (λ b g. then_Wrote b _ _ _ _ (members-Wrote true (next k (next k' ks)) b g h.1) (λ b g.
            then_Wrote b _ _ _ _ (appends-Wrote b (codes "}" ∷ []) g (omega arith, tt))
              (λ b g. members-Wrote false rest b g h.2))))

  -- Where every name and every escaped value has at most 512 bytes and the text of the buffer fits:
  -- `to_json` with a name writes within the buffer, and what it adds is the object of that name
  -- with the members in the order of the nodes and a comma between two, the values escaped.
  pub to_json_lem :
      (name : Bytes) (nodes : Nodes) (sb : StringBuffer)
      → Fits sb
      → length name ≤ chunk_size
      → AllFit content nodes
      → (sb' : StringBuffer) × (to_json content read_memory (some name) nodes sb ≡ ok sb')
        × (text sb'
            ≡ text sb
              ++ (codes "\""
                  ++ name
                  ++ codes "\": {"
                  ++ listed (member_texts content nodes)
                  ++ codes "}"))
        × Fits sb'
  unfolding to_json
  to_json_lem name nodes sb f n h =
      let (sb', e, t, g) = wrote sb _ _ (
        then_Wrote sb _ _ _ _
          (appends-Wrote sb (opening (some name)) f (omega arith, (n, (omega arith, tt))))
          (λ b g.
            then_Wrote b _ _ _ _ (members-Wrote true nodes b g h)
              (λ b g. appends-Wrote b (codes "}" ∷ []) g (omega arith, tt)))) in
      (
        sb',
        e,
        t
            ∙ ap (λ (b : Bytes). text sb ++ b)
                (simp (append_assoc, members_text-listed content nodes) refl),
        g,
      )
