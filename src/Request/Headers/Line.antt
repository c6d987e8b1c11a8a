-- ===== src/Request/Headers/Line.antt =====
-- What the loop of `request_parse_data` does with each piece of a header line.
use comfirm_dmarc_report_ser.Common.{
  ℕ, ◌+◌, ◌<◌, ◌≡◌, ◌≢◌, refl, ap, ◌∙◌, Bool, true, false, List, [], ◌∷◌, ◌++◌, arith, length,
  length-append, set, Bytes,
}
use comfirm_dmarc_report_ser.Common.Outcome.{ok}
use comfirm_dmarc_report_ser.Data.{Hdr, header_max_len, key_max_len, value_max_len}
use comfirm_dmarc_report_ser.Request.Headers.{
  Cursor, adjust, write, put_key, put_value, end_key, end_line, store_byte, branch, round, loop,
}
use comfirm_dmarc_report_ser.Request.Headers.Arrays.{blit}
use comfirm_dmarc_report_ser.Request.Headers.Print.{
  KeyByte, KeyBytes, ValueByte, ValueBytes, NoFold, Field, IsField,
}

-- The loop at the header `h`, behind those of `before`.
abbrev pub at : List Hdr → Hdr → List Hdr → Bool → ℕ → Cursor
at before h after is_key cur_len = record {
  headers = before ++ h ∷ after;
  header_count = length before;
  is_key = is_key;
  cur_len = cur_len;
}

adjust-at :
    (before : List Hdr) (h : Hdr) (after : List Hdr) (f : Hdr → Hdr)
    → adjust (before ++ h ∷ after) (length before) f ≡ before ++ f h ∷ after
adjust-at [] h after f = refl
adjust-at (b ∷ before) h after f = ap (◌∷◌ b) (adjust-at before h after f)

module _ (before : List Hdr) (h : Hdr) (after : List Hdr) where
  write-at :
      (put : ℕ → ℕ → Hdr → Hdr) (is_key : Bool) (i c : ℕ)
      → write put (at before h after is_key i) c ≡ ok (at before (put i c h) after is_key i)
  unfolding write
  write-at put is_key i c =
      ground (arith, length-append before (h ∷ after), adjust-at before h after (put i c))

  pub round-key :
      (stale cs : Bytes) (i c : ℕ)
      → KeyByte c
      → i + 1 < key_max_len
      → round (c ∷ cs) stale (at before h after true i) c
        ≡ ok (false, at before (put_key i c h) after true (i + 1), 0)
  unfolding round branch store_byte
  round-key stale cs i c k room = ground (arith, write-at put_key true i c)

  pub round-colon :
      (stale cs : Bytes) (i : ℕ)
      → round (b':' ∷ cs) stale (at before h after true i) b':'
        ≡ ok (false, at before (put_key i 0 h) after false 0, 1)
  unfolding round branch end_key
  round-colon stale cs i = ground (arith, write-at put_key true i 0)

  pub round-value :
      (stale cs : Bytes) (i c : ℕ)
      → ValueByte c
      → i + 1 < value_max_len
      → round (c ∷ cs) stale (at before h after false i) c
        ≡ ok (false, at before (put_value i c h) after false (i + 1), 0)
  unfolding round branch store_byte
  round-value stale cs i c k room = ground (arith, write-at put_value false i c)

  -- A line that another one follows.
  pub round-newline :
      (stale cs : Bytes) (i c : ℕ)
      → length before < header_max_len
      → (c ≢ b' ') × (c ≢ b'\t') × (c ≢ b'\r')
      → round (b'\r' ∷ b'\n' ∷ c ∷ cs) stale (at before h after false i) b'\r'
        ≡ ok (
          false,
          record {
            headers = before ++ put_value i 0 h ∷ after;
            header_count = length before + 1;
            is_key = true;
            cur_len = 0;
          },
          1,
        )
  unfolding round branch end_line
  round-newline stale cs i c room k = ground (arith, write-at put_value false i 0)

  -- The last line, and the empty one behind it.
  pub round-last :
      (stale tail : Bytes) (i : ℕ)
      → length before < header_max_len
      → NoFold (tail ++ stale)
      → round (b'\r' ∷ b'\n' ∷ b'\r' ∷ b'\n' ∷ tail) stale (at before h after false i) b'\r'
        ≡ ok (
          true,
          record {
            headers = before ++ put_value i 0 h ∷ after;
            header_count = length before + 1;
            is_key = true;
            cur_len = 0;
          },
          3,
        )
  unfolding round branch end_line
  round-last [] [] i room k = ground (arith, write-at put_value false i 0)
  round-last (c ∷ cs) [] i room k = ground (arith, write-at put_value false i 0)
  round-last stale (c ∷ cs) i room k = ground (arith, write-at put_value false i 0)

-- The bytes of a name, and of a value, are written one behind the other.
module _ (before after : List Hdr) (stale : Bytes) where
  pub loop-key :
      (h : Hdr) (k rest : Bytes) (i j : ℕ)
      → KeyBytes k
      → j ≡ i + length k
      → j < key_max_len
      → loop stale (k ++ rest) 0 (at before h after true i)
        ≡ loop stale rest 0 (at before (record h { key = blit h.key i k }) after true j)
  unfolding loop
  loop-key h [] rest i j b e room =
      ap (λ (n : ℕ). loop stale rest 0 (at before h after true n)) (omega arith)
  loop-key h (c ∷ k) rest i j b e room =
      rw (round-key before h after stale (k ++ rest) i c b.0 (omega arith))
        (loop-key (put_key i c h) k rest (i + 1) j b.1 (omega arith) room)

  pub loop-value :
      (h : Hdr) (v rest : Bytes) (i j : ℕ)
      → ValueBytes v
      → j ≡ i + length v
      → j < value_max_len
      → loop stale (v ++ rest) 0 (at before h after false i)
        ≡ loop stale rest 0 (at before (record h { value = blit h.value i v }) after false j)
  unfolding loop
  loop-value h [] rest i j b e room =
      ap (λ (n : ℕ). loop stale rest 0 (at before h after false n)) (omega arith)
  loop-value h (c ∷ v) rest i j b e room =
      rw (round-value before h after stale (v ++ rest) i c b.0 (omega arith))
        (loop-value (put_value i c h) v rest (i + 1) j b.1 (omega arith) room)

  -- A header line up to its end.
  pub loop-line :
      (h : Hdr) (f : Field) (rest : Bytes)
      → IsField f
      → loop stale (f.key ++ (b':' ∷ b' ' ∷ (f.value ++ rest))) 0 (at before h after true 0)
        ≡ loop stale rest 0 (
            at before
              (record {
                key = set (blit h.key 0 f.key) (length f.key) 0;
                value = blit h.value 0 f.value;
              })
              after
              false
              (length f.value))
  unfolding loop
  loop-line h f rest v =
      loop-key h f.key _ 0 (length f.key) v.key_bytes (omega arith) v.key_fits
      ∙ rw (round-colon before _ after stale (b' ' ∷ (f.value ++ rest)) (length f.key))
          (loop-value _ f.value rest 0 (length f.value) v.value_bytes (omega arith) v.value_fits)
