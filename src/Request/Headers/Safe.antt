-- ===== src/Request/Headers/Safe.antt =====
-- `request_parse_data` stays inside the array of headers where the data has few carriage returns.
use comfirm_dmarc_report_ser.Common.{
  ℕ, zero, suc, ◌+◌, ◌≤◌, ◌<◌, ◌≡◌, refl, Bool, true, false, List, [], ◌∷◌, ◌++◌, arith, length,
  ◌==◌, inl, inr, Bool-cases, if◌then◌else◌, Bytes, ap, none, some, drop,
}
use comfirm_dmarc_report_ser.Common.Outcome.{Outcome, ok, fault, ◌>>=◌}
use comfirm_dmarc_report_ser.Data.{Hdr, header_max_len}
use comfirm_dmarc_report_ser.Request.{Request}
use comfirm_dmarc_report_ser.Request.Headers.{
  Cursor, Stepped, adjust, write, put_key, put_value, end_key, end_line, store_byte, branch, round,
  loop, parse_data, Parsed, ends_headers, body_of,
}

pub length-adjust : (hs : List Hdr) (i : ℕ) (f : Hdr → Hdr) → length (adjust hs i f) ≡ length hs
length-adjust [] i f = refl
length-adjust (h ∷ hs) zero f = refl
length-adjust (h ∷ hs) (suc i) f = ap suc (length-adjust hs i f)

-- How many bytes are a carriage return.
abbrev pub returns : Bytes → ℕ
returns [] = 0
returns (c ∷ cs) = (if c == b'\r' then 1 else 0) + returns cs

-- All headers are there.
abbrev Full : Cursor → Type 0
Full s = length s.headers ≡ header_max_len

-- The step succeeds; it counts a header exactly at a carriage return, if at all.
abbrev Steps : Cursor → ℕ → Stepped → Type 0
Steps s cur (fault _) = ⊥
Steps s cur (ok (s', k)) =
    Full s' × (s'.header_count ≤ s.header_count + (if cur == b'\r' then 1 else 0))

write_ok :
    (put : ℕ → ℕ → Hdr → Hdr) (s : Cursor) (c : ℕ)
    → Full s
    → s.header_count < header_max_len
    → write put s c ≡ ok (record s { headers = adjust s.headers s.header_count (put s.cur_len c) })
unfolding write
write_ok put s c full h = ground arith

branch-Steps :
    (s : Cursor) (cur : ℕ) (memory : Bytes)
    → Full s
    → s.header_count < header_max_len
    → Steps s cur (branch s cur memory)
unfolding branch end_key end_line store_byte
branch-Steps s cur memory full h = ground (
  arith,
  write_ok put_key s 0 full h,
  write_ok put_value s 0 full h,
  write_ok put_key s cur full h,
  write_ok put_value s cur full h,
  length-adjust s.headers s.header_count (put_key s.cur_len 0),
  length-adjust s.headers s.header_count (put_value s.cur_len 0),
  length-adjust s.headers s.header_count (put_key s.cur_len cur),
  length-adjust s.headers s.header_count (put_value s.cur_len cur),
)

-- The same for a round of the loop, which goes on in the state of its branch.
abbrev Rounds : Cursor → ℕ → Outcome (Bool × Cursor × ℕ) → Type 0
Rounds s cur (fault _) = ⊥
Rounds s cur (ok (done, s', k)) =
    Full s' × (s'.header_count ≤ s.header_count + (if cur == b'\r' then 1 else 0))

round-Rounds :
    (rest stale : Bytes) (s : Cursor) (cur : ℕ)
    → Full s
    → s.header_count < header_max_len
    → Rounds s cur (round rest stale s cur)
unfolding round
round-Rounds rest stale s cur full h = elim (Bool-cases (ends_headers rest stale)) [
  | inl e ↦ rw e (
      after true (λ k. k + 2) (branch s cur (drop 2 (rest ++ stale))) (branch-Steps s cur _ full h))
  | inr e ↦ rw e (after false (λ k. k) (branch s cur (rest ++ stale)) (branch-Steps s cur _ full h))
]
  where
    after :
        (done : Bool) (further : ℕ → ℕ) (o : Stepped)
        → Steps s cur o
        → Rounds s cur (o >>= λ (s', k). ok (done, s', further k))
    after done further (fault _) q = q
    after done further (ok (s', k)) q = q

Rounds-ok :
    (s : Cursor) (cur : ℕ) (o : Outcome (Bool × Cursor × ℕ))
    → Rounds s cur o
    → (done : Bool) × (s' : Cursor) × (k : ℕ) × (o ≡ ok (done, s', k))
      × Full s'
      × (s'.header_count ≤ s.header_count + (if cur == b'\r' then 1 else 0))
Rounds-ok s cur (fault _) q = elim q [ ]
Rounds-ok s cur (ok (done, s', k)) q = (done, s', k, refl, q.0, q.1)

-- The loop ends with no fault and at most `n` headers.
abbrev Ends : ℕ → Outcome Parsed → Type 0
Ends n (fault _) = ⊥
Ends n (ok p) = Full p.cursor × (p.cursor.header_count ≤ n)

Ends-le : {m n : ℕ} (o : Outcome Parsed) → Ends m o → m ≤ n → Ends n o
Ends-le (fault _) q h = q
Ends-le (ok p) q h = (q.0, omega arith)

Ends-ok :
    (n : ℕ) (o : Outcome Parsed)
    → Ends n o
    → (p : Parsed) × (o ≡ ok p) × Full p.cursor × (p.cursor.header_count ≤ n)
Ends-ok n (fault _) q = elim q [ ]
Ends-ok n (ok p) q = (p, refl, q.0, q.1)

loop-Ends :
    (stale text : Bytes) (skip : ℕ) (s : Cursor)
    → Full s
    → s.header_count + returns text < header_max_len
    → Ends (s.header_count + returns text) (loop stale text skip s)
unfolding loop
loop-Ends stale [] skip s full h = (full, omega arith)
loop-Ends stale (c ∷ cs) (suc k) s full h =
    Ends-le (loop stale cs k s) (loop-Ends stale cs k s full (omega arith)) (omega arith)
loop-Ends stale (c ∷ cs) zero s full h =
    let (done, s', k, e, f, b) =
      Rounds-ok s c _ (round-Rounds (c ∷ cs) stale s c full (omega arith)) in
    rw e (elim (Bool-cases done) [
      | inl last ↦ rw last (f, omega arith)
      | inr more ↦
          rw more
            (Ends-le (loop stale cs k s') (loop-Ends stale cs k s' f (omega arith)) (omega arith))
    ])

-- Where the array of headers has 20 places and fewer than 20 bytes of the data are a carriage
-- return: `request_parse_data` stays inside the array whatever else the data holds, and counts at
-- most as many headers as there are carriage returns.
pub parse_data_safe :
    (stale : Bytes) (req : Request)
    → length req.headers ≡ header_max_len
    → returns req.text < header_max_len
    → (req' : Request) × (parse_data stale req ≡ ok req')
      × (length req'.headers ≡ header_max_len)
      × (req'.header_count ≤ returns req.text)
unfolding parse_data
parse_data_safe stale req full few =
    let start : Cursor = record {
      headers = req.headers;
      header_count = 0;
      is_key = true;
      cur_len = 0;
    } in
    let (p, e, f, b) = Ends-ok _ _ (loop-Ends stale req.text 0 start full (omega arith)) in
    (
      record req {
        headers = p.cursor.headers;
        header_count = p.cursor.header_count;
        body = elim (body_of p.rest) [ none ↦ req.body | some t ↦ some t ];
      },
      rw e,
      f,
      omega arith,
    )
