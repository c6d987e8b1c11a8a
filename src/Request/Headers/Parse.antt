-- ===== src/Request/Headers/Parse.antt =====
-- `request_parse_data` reads back the header lines and the body of a mail text.
use comfirm_dmarc_report_ser.Common.{
  ℕ, zero, suc, ◌+◌, ◌≤◌, ◌<◌, ◌≡◌, refl, ap, ap₂, ◌∙◌, true, false, List, [], ◌∷◌, ◌++◌, some,
  arith, length, length-append, append_assoc, set, Bytes, c_string, NoNul,
}
use comfirm_dmarc_report_ser.Common.Outcome.{ok}
use comfirm_dmarc_report_ser.Data.{Hdr, header_max_len}
use comfirm_dmarc_report_ser.Request.{Request}
use comfirm_dmarc_report_ser.Request.Headers.{Cursor, Parsed, loop, parse_data}
use comfirm_dmarc_report_ser.Request.Headers.Arrays.{blit, c_string-blit}
use comfirm_dmarc_report_ser.Request.Headers.Print.{
  Field, mail_text, KeyBytes, ValueBytes, IsField, AllFields, NoFold, IsHdr, AllHdrs, fill,
  fill_all,
}
use comfirm_dmarc_report_ser.Request.Headers.Line.{at, round-newline, round-last, loop-line}

-- The cursor behind `before`, at the first byte of a line.
abbrev pub start : List Hdr → List Hdr → Cursor
start before after = record {
  headers = before ++ after;
  header_count = length before;
  is_key = true;
  cur_len = 0;
}

-- A line that another one follows: the next line's first byte is no white space.
pub loop-next :
    (before after : List Hdr) (h : Hdr) (stale : Bytes) (f g : Field) (rest : Bytes)
    → IsField f
    → KeyBytes g.key
    → length before < header_max_len
    → loop stale
        (f.key ++ (b':' ∷ b' ' ∷ (f.value ++ (b'\r' ∷ b'\n' ∷ (g.key ++ (b':' ∷ rest))))))
        0
        (start before (h ∷ after))
      ≡ loop stale (g.key ++ (b':' ∷ rest)) 0 (start (before ++ fill f h ∷ []) after)
unfolding loop
loop-next before after h stale f g rest v kb room =
    loop-line before after stale h f _ v ∙ first g.key kb
  where
    restart :
        record {
          headers = before ++ fill f h ∷ after;
          header_count = length before + 1;
          is_key = true;
          cur_len = 0;
        }
        ≡ start (before ++ fill f h ∷ []) after
    restart =
        ground
          (arith, append_assoc before (fill f h ∷ []) after, length-append before (fill f h ∷ []))

    first :
        (k : Bytes)
        → KeyBytes k
        → loop stale (b'\r' ∷ b'\n' ∷ (k ++ (b':' ∷ rest))) 0 (
            at before
              (record {
                key = set (blit h.key 0 f.key) (length f.key) 0;
                value = blit h.value 0 f.value;
              })
              after
              false
              (length f.value))
          ≡ loop stale (k ++ (b':' ∷ rest)) 0 (start (before ++ fill f h ∷ []) after)
    first [] b =
        rw (round-newline before _ after stale rest (length f.value) b':' room (omega arith))
          (ap (loop stale (b':' ∷ rest) 0) restart)
    first (c ∷ k) b =
        rw
          (round-newline before _ after stale (k ++ (b':' ∷ rest)) (length f.value) c room
            (b.0.1, b.0.2, b.0.3))
          (ap (loop stale (c ∷ (k ++ (b':' ∷ rest))) 0) restart)

-- What the loop leaves behind the lines `fs` and the empty line.
abbrev finished : List Hdr → List Hdr → List Field → Bytes → Parsed
finished before after fs tail = record {
  cursor = record {
    headers = before ++ fill_all fs after;
    header_count = length before + length fs;
    is_key = true;
    cur_len = 0;
  };
  rest = some tail;
}

loop-last :
    (before after : List Hdr) (h : Hdr) (stale : Bytes) (f : Field) (tail : Bytes)
    → IsField f
    → length before < header_max_len
    → NoFold (tail ++ stale)
    → loop stale (mail_text (f ∷ []) tail) 0 (start before (h ∷ after))
      ≡ ok (finished before (h ∷ after) (f ∷ []) tail)
unfolding loop
loop-last before after h stale f tail v room k =
    loop-line before after stale h f _ v
    ∙ rw (round-last before _ after stale tail (length f.value) room k)

loop-lines :
    (stale tail : Bytes) (f : Field) (fs : List Field) (before after : List Hdr)
    → AllFields (f ∷ fs)
    → length before + length (f ∷ fs) ≤ header_max_len
    → length (f ∷ fs) ≤ length after
    → NoFold (tail ++ stale)
    → loop stale (mail_text (f ∷ fs) tail) 0 (start before after)
      ≡ ok (finished before after (f ∷ fs) tail)
loop-lines stale tail f fs before [] v room enough k = absurd (omega arith)
loop-lines stale tail f [] before (h ∷ after) v room enough k =
    loop-last before after h stale f tail v.0 (omega arith) k
loop-lines stale tail f (g ∷ fs) before (h ∷ after) v room enough k =
    loop-next before after h stale f g _ v.0 v.1.0.key_bytes (omega arith)
    ∙ loop-lines stale tail g fs (before ++ fill f h ∷ []) after v.1
        (omega (arith, length-append before (fill f h ∷ []))) (omega arith) k
    ∙ ground (
      arith,
      append_assoc before (fill f h ∷ []) (fill_all (g ∷ fs) after),
      length-append before (fill f h ∷ []),
    )

-- What a header holds, read as C strings.
abbrev pub read : Hdr → Field
read h = record { key = c_string h.key; value = c_string h.value }

abbrev pub read_all : ℕ → List Hdr → List Field
read_all zero hs = []
read_all (suc n) [] = []
read_all (suc n) (h ∷ hs) = read h ∷ read_all n hs

KeyBytes-NoNul : (k : Bytes) → KeyBytes k → NoNul k
KeyBytes-NoNul [] b = tt
KeyBytes-NoNul (c ∷ k) b = (b.0.4, KeyBytes-NoNul k b.1)

ValueBytes-NoNul : (v : Bytes) → ValueBytes v → NoNul v
ValueBytes-NoNul [] b = tt
ValueBytes-NoNul (c ∷ v) b = (b.0.1, ValueBytes-NoNul v b.1)

read-fill : (f : Field) (h : Hdr) → IsField f → IsHdr h → read (fill f h) ≡ f
read-fill f h v a = ground (
  arith,
  c_string-blit h.key f.key (KeyBytes-NoNul f.key v.key_bytes) (rw a.key_size v.key_fits),
  c_string-blit h.value f.value (ValueBytes-NoNul f.value v.value_bytes)
      (rw a.value_size v.value_fits),
)

read_all-fill_all :
    (fs : List Field) (hs : List Hdr)
    → AllFields fs
    → AllHdrs hs
    → length fs ≤ length hs
    → read_all (length fs) (fill_all fs hs) ≡ fs
read_all-fill_all [] hs v a enough = refl
read_all-fill_all (f ∷ fs) [] v a enough = absurd (omega arith)
read_all-fill_all (f ∷ fs) (h ∷ hs) v a enough =
    ap₂ ◌∷◌ (read-fill f h v.0 a.0) (read_all-fill_all fs hs v.1 a.1 (omega arith))

-- A mail text of one to twenty header lines, each of a name and a value that fit in their arrays,
-- an empty line and at least one byte more, the first of which is no space and no tab, is read back
-- exactly into 20 whole headers: the parser succeeds, counts the lines, and holds each name, each
-- value and all that follows the empty line as the body.
pub parse_data-mail_text :
    (stale : Bytes) (f : Field) (fs : List Field) (c : ℕ) (cs : Bytes) (req : Request)
    → AllFields (f ∷ fs)
    → length (f ∷ fs) ≤ header_max_len
    → length req.headers ≡ header_max_len
    → AllHdrs req.headers
    → NoFold (c ∷ cs)
    → req.text ≡ mail_text (f ∷ fs) (c ∷ cs)
    → (req' : Request) × (parse_data stale req ≡ ok req')
      × (req'.header_count ≡ length (f ∷ fs))
      × (read_all req'.header_count req'.headers ≡ f ∷ fs)
      × (req'.body ≡ some (c ∷ cs))
unfolding parse_data
parse_data-mail_text stale f fs c cs req v few full arrays k e =
    let parsed = loop-lines stale (c ∷ cs) f fs [] req.headers v (omega arith) (omega arith) k in
    (
      record req {
        headers = fill_all (f ∷ fs) req.headers;
        header_count = length (f ∷ fs);
        body = some (c ∷ cs);
      },
      simp (e, parsed) (ground arith),
      refl,
      read_all-fill_all (f ∷ fs) req.headers v arrays (omega arith),
      refl,
    )
