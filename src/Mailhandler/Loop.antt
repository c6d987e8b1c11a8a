-- ===== src/Mailhandler/Loop.antt =====
-- The main loop of the mail handler, the `while` of `main` in src/mailhandler/mailhandler.c.
pub mod Drain
pub mod Next
use comfirm_dmarc_report_ser.Common.{
  ℕ, zero, suc, ◌+◌, Bool, true, false, List, [], ◌∷◌, ◌++◌, Option, none, some, if◌then◌else◌,
  Bytes,
}
use comfirm_dmarc_report_ser.Common.Outcome.{
  Outcome, ok, fault, unset_pointer, use_after_free, ◌>>=◌,
}
use comfirm_dmarc_report_ser.Data.{Mail}
use comfirm_dmarc_report_ser.Mailhandler.Reports.{Services, report}
use comfirm_dmarc_report_ser.Queue.{Ref, Code, message_queue_empty, Taken, dequeue}

-- The queue, what `post_data` handed to curl, oldest first, how often `pq_wait` was called, and
-- whether the handle of curl is still allocated.
pub record Handler : Type 0 where
  pub queue : Ref
  pub posted : List Bytes
  pub waits : ℕ
  pub curl : Bool

abbrev pub is_empty : Code → Bool
is_empty message_queue_empty = true
is_empty _ = false

-- `post_data`, if there are data: its calls of curl use the handle, and the last of them,
-- `curl_easy_cleanup`, frees it. Whether the request gets through is only printed.
abbrev pub post : Handler → Option Bytes → Outcome Handler
post h none = ok h
post h (some json) =
    if h.curl
    then ok (record h { posted = h.posted ++ json ∷ []; curl = false })
    else fault use_after_free

-- The other branch, for the mail that `pq_dequeue` wrote to the memory of `malloc`, if it did.
unfoldable pub attend : Services → Handler → Ref → Option Mail → Outcome Handler
attend lib h queue none = fault unset_pointer
attend lib h queue (some m) = report lib m >>= λ json. post (record h { queue = queue }) json

-- One round of the loop, after and with its call of `pq_dequeue`.
unfoldable pub react : Services → Handler → Taken → Outcome Handler
unfolding attend
react lib h t =
    if is_empty t.done.code
    then ok (record h { queue = t.done.ref; waits = h.waits + 1 })
    else attend lib h t.done.ref t.out

unfoldable pub turn : Services → Handler → Outcome Handler
unfolding react
turn lib h = dequeue (some h.queue) >>= λ t. react lib h t

-- The loop never ends; these are its first rounds.
unfoldable pub turns : Services → ℕ → Handler → Outcome Handler
turns lib zero h = ok h
turns lib (suc n) h = turn lib h >>= λ h'. turns lib n h'
