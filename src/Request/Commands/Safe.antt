-- ===== src/Request/Commands/Safe.antt =====
-- `request_parse_commands` stays inside its buffers, whatever a client sends.
use native.Mathlib.Decide.{dec_lt}
use comfirm_dmarc_report_ser.Common.{
  ℕ, zero, suc, ◌-◌, ◌≤◌, ◌≡◌, ◌<◌, ◌⊎◌, ap, refl, Bool, true, false, ◌==◌, List, [], ◌∷◌, ◌++◌,
  arith, length, length-append, length-set, Bytes, inl, inr, Bool-cases, codes,
}
use comfirm_dmarc_report_ser.Common.Outcome.{Outcome, ok, fault, out_of_bounds}
use comfirm_dmarc_report_ser.Data.{Hdr}
use comfirm_dmarc_report_ser.Request.{Request, data_len}
use comfirm_dmarc_report_ser.Request.Commands.{
  Parse, Verb, data_verb, ehlo, mail_from, rcpt_to, quit_verb, other, verb, strncmp_eq, tests,
  commands, obey, reply, store, byte, scan, parse_commands,
}
use comfirm_dmarc_report_ser.Response
use comfirm_dmarc_report_ser.Response.{Response}

-- Where the memory is as long as the text, the comparison ends in it.
strncmp_eq-ok :
    (memory text : Bytes)
    → length text ≤ length memory
    → (same : Bool) × (strncmp_eq memory text ≡ ok same)
unfolding strncmp_eq
strncmp_eq-ok memory [] h = (true, refl)
strncmp_eq-ok [] (t ∷ ts) h = absurd (omega arith)
strncmp_eq-ok (c ∷ cs) (t ∷ ts) h = elim (Bool-cases (c == t)) [
  | inl e ↦ let (same, done) = strncmp_eq-ok cs ts (omega arith) in (same, simp e done)
  | inr n ↦ (false, simp n refl)
]

abbrev AllWithin : ℕ → List (Bytes × Verb) → Type 0
AllWithin n [] = Unit
AllWithin n ((text, v) ∷ rest) = (length text ≤ n) × AllWithin n rest

tests-ok :
    (memory : Bytes) (cs : List (Bytes × Verb))
    → AllWithin (length memory) cs
    → (v : Verb) × (tests memory cs ≡ ok v)
unfolding tests
tests-ok memory [] h = (other, refl)
tests-ok memory ((text, v) ∷ rest) (room, h) =
    let (same, e) = strncmp_eq-ok memory text room in
    let (v', e') = tests-ok memory rest h in
    elim (Bool-cases same) [
      | inl found ↦ (v, simp (e, found) refl)
      | inr differs ↦ (v', simp (e, differs) e')
    ]

verb-ok : (memory : Bytes) → 10 ≤ length memory → (v : Verb) × (verb memory ≡ ok v)
unfolding verb
verb-ok memory h =
    tests-ok memory commands
      (omega arith, (omega arith, (omega arith, (omega arith, (omega arith, tt)))))

-- Whatever the memory is, a comparison ends or reads past it.
abbrev Ends : {A : Type 0} → Outcome A → Type 0
Ends {A} o = ((a : A) × (o ≡ ok a)) ⊎ (o ≡ fault out_of_bounds)

strncmp_eq-Ends : (memory text : Bytes) → Ends (strncmp_eq memory text)
unfolding strncmp_eq
strncmp_eq-Ends memory [] = inl (true, refl)
strncmp_eq-Ends [] (t ∷ ts) = inr refl
strncmp_eq-Ends (c ∷ cs) (t ∷ ts) = elim (Bool-cases (c == t)) [
  | inl e ↦ elim (strncmp_eq-Ends cs ts) [
    | inl (same, done) ↦ inl (same, simp e done)
    | inr past ↦ inr (simp e past)
  ]
  | inr n ↦ inl (false, simp n refl)
]

tests-Ends : (memory : Bytes) (cs : List (Bytes × Verb)) → Ends (tests memory cs)
unfolding tests
tests-Ends memory [] = inl (other, refl)
tests-Ends memory ((text, v) ∷ rest) = elim (strncmp_eq-Ends memory text) [
  | inl (same, e) ↦ elim (Bool-cases same) [
    | inl found ↦ inl (v, simp (e, found) refl)
    | inr differs ↦ elim (tests-Ends memory rest) [
      | inl (v', e') ↦ inl (v', simp (e, differs) e')
      | inr past ↦ inr (simp (e, differs) past)
    ]
  ]
  | inr past ↦ inr (simp past refl)
]

-- Only where the memory is short is it read past.
verb-cases :
    (memory : Bytes)
    → ((v : Verb) × (verb memory ≡ ok v))
      ⊎ ((verb memory ≡ fault out_of_bounds) × (length memory < 10))
unfolding verb
verb-cases memory = elim (dec_lt (length memory) 10) [
  | yes short ↦ elim (tests-Ends memory commands) [
    | inl done ↦ inl done
    | inr past ↦ inr (past, short)
  ]
  | no long ↦ inl (verb-ok memory (omega arith))
]

module _ (limit : ℕ) (hs : List Hdr) (stale : Bytes) where
  -- The data is within the configured size, and the headers are those of the start.
  abbrev Bounded : Request → Type 0
  Bounded req = (data_len req ≤ limit) × (req.headers ≡ hs)

  -- The state is bounded; a fault is a read past what stands behind the bytes received.
  abbrev Within : Outcome Parse → Type 0
  Within (ok p) = Bounded p.req
  Within (fault e) = (e ≡ out_of_bounds) × (length stale < 9)

  Within-cases :
      (o : Outcome Parse)
      → Within o
      → ((p : Parse) × (o ≡ ok p) × Bounded p.req)
        ⊎ ((o ≡ fault out_of_bounds) × (length stale < 9))
  Within-cases (ok p) h = inl (p, refl, h)
  Within-cases (fault e) h = inr (ap fault h.0, h.1)

  store-Within :
      (req : Request) (resp : Response) (cur : ℕ) → Bounded req → Within (store limit req resp cur)
  unfolding store
  store-Within req resp cur b = ground (
    arith,
    Response.append-ok resp (codes "250 Ok: queued as nada\r\n"),
    length-append req.text (cur ∷ []),
    length-set (req.text ++ cur ∷ []) (length (req.text ++ cur ∷ []) - 5) 0,
  )

  reply-Within :
      (req : Request) (resp : Response) (skip : ℕ) (s : Bytes)
      → Bounded req
      → Within (reply req resp skip s)
  reply-Within req resp skip s b = rw (Response.append-ok resp s) b

  obey-Within :
      (v : Verb) (req : Request) (resp : Response) → Bounded req → Within (obey v req resp)
  unfolding obey
  obey-Within data_verb req resp b = reply-Within _ resp 5 _ b
  obey-Within ehlo req resp b = reply-Within req resp 0 _ b
  obey-Within mail_from req resp b = reply-Within req resp 0 _ b
  obey-Within rcpt_to req resp b = reply-Within req resp 0 _ b
  obey-Within quit_verb req resp b = reply-Within _ resp 0 _ b
  obey-Within other req resp b = b

  byte-Within :
      (req : Request) (resp : Response) (cur : ℕ) (rest : Bytes)
      → Bounded req
      → Within (byte limit req resp cur (cur ∷ (rest ++ stale)))
  byte-Within req resp cur rest b = elim (Bool-cases req.in_data) [
    | inl inside ↦ simp inside (store-Within req resp cur b)
    | inr outside ↦ elim (verb-cases (cur ∷ (rest ++ stale))) [
      | inl (v, e) ↦ simp (outside, e) (obey-Within v req resp b)
      | inr (past, short) ↦
          simp (outside, past) (refl, omega (arith, short, length-append rest stale))
    ]
  ]

  scan-Within :
      (received : Bytes) (skip : ℕ) (req : Request) (resp : Response)
      → Bounded req
      → Within (scan limit stale received skip req resp)
  unfolding scan
  scan-Within [] skip req resp b = b
  scan-Within (c ∷ cs) (suc k) req resp b = scan-Within cs k req resp b
  scan-Within (c ∷ cs) zero req resp b = elim (Within-cases _ (byte-Within req resp c cs b)) [
    | inl (p, e, b') ↦ rw e (elim (Bool-cases p.too_big) [
      | inl big ↦ simp big b'
      | inr small ↦ simp small (scan-Within cs p.skip p.req p.resp b')
    ])
    | inr (past, short) ↦ simp past (refl, short)
  ]

-- Whatever a client sends to a request whose data is within the configured size:
-- `request_parse_commands` comes to its end inside the read buffer, the data and the reply buffer,
-- the data stays within that size, and the headers are left alone; or a comparison reads past the
-- read buffer, and then fewer than nine of its bytes stand behind what was received.
pub parse_commands_safe :
    (limit : ℕ) (stale received : Bytes) (req : Request) (resp : Response)
    → data_len req ≤ limit
    → ((p : Parse) × (parse_commands limit stale received req resp ≡ ok p)
        × (data_len p.req ≤ limit)
        × (p.req.headers ≡ req.headers))
      ⊎ ((parse_commands limit stale received req resp ≡ fault out_of_bounds) × (length stale < 9))
parse_commands_safe limit stale received req resp h =
    elim (Within-cases limit req.headers stale _
      (scan-Within limit req.headers stale received 0 req resp (h, refl))) [
        | inl (p, e, b) ↦ inl (p, e, b.0, b.1)
        | inr past ↦ inr past
      ]
