-- ===== src/Mailhandler/Loop/Next.antt =====
-- The report of a mail that stands behind others.
use comfirm_dmarc_report_ser.Common.{
  ◌+◌, ◌≡◌, refl, sym, ap, ◌∙◌, true, List, [], ◌∷◌, ◌++◌, Option, none, some, length, Bytes,
  append-nil,
}
use comfirm_dmarc_report_ser.Common.Outcome.{Outcome, ok, fault, ◌>>=◌}
use comfirm_dmarc_report_ser.Data.{Mail}
use comfirm_dmarc_report_ser.Mailhandler.Reports.{Services, report}
use comfirm_dmarc_report_ser.Mailhandler.Loop.{Handler, post, turns}
use comfirm_dmarc_report_ser.Mailhandler.Loop.Drain.{
  Reported, data_of, posted_all, Holding, turn-some, turn-next, turns-suc,
}
use comfirm_dmarc_report_ser.Queue.{Ref}
use comfirm_dmarc_report_ser.Queue.Inv.{popped}

-- A report that is posted, if there are data, while the handle is there.
only_one :
    (o : Outcome (Option Bytes)) (h : Handler) (q : Ref)
    → h.curl ≡ true
    → ((o >>= λ j. post (record h { queue = q }) j) >>= λ h'. ok h')
      ≡ (o >>= λ j. ok (posted_all h q (data_of (j ∷ []))))
only_one (fault e) h q there = refl
only_one (ok none) h q there =
    ap (λ (p : List Bytes). ok (record h { queue = q; posted = p })) (sym (append-nil h.posted))
only_one (ok (some json)) h q there = simp there refl

-- After a round for each mail in front, none of which has data to post, the next round is the report
-- of this one.
pub reports_next :
    (lib : Services) (ms : List Mail) (js : List (Option Bytes)) (m : Mail) (h : Handler)
    → Holding h.queue (ms ++ m ∷ [])
    → Reported lib ms js
    → data_of js ≡ []
    → h.curl ≡ true
    → (q : Ref) × Holding q []
      × (turns lib (length ms + 1) h
          ≡ (report lib m >>= λ j. ok (posted_all h q (data_of (j ∷ [])))))
unfolding turns
reports_next lib [] [] m h hold r quiet there =
    let (turned, left) = turn-next lib h m [] hold in
    (
      popped h.queue,
      left,
      ap (λ (o : Outcome Handler). o >>= λ h'. ok h') turned
          ∙ only_one (report lib m) h (popped h.queue) there,
    )
reports_next lib [] (j ∷ js) m h hold r quiet there = elim r [ ]
reports_next lib (x ∷ ms) [] m h hold r quiet there = elim r [ ]
reports_next lib (x ∷ ms) (some json ∷ js) m h hold r quiet there = cc quiet
reports_next lib (x ∷ ms) (none ∷ js) m h hold r quiet there =
    let (turned, left) = turn-some lib h x (ms ++ m ∷ []) none hold r.0 in
    let (q, empty, done) =
      reports_next lib ms js m (record h { queue = popped h.queue }) left r.1 quiet there in
    (q, empty, turns-suc lib (length ms) 1 h ∙ simp turned done)
