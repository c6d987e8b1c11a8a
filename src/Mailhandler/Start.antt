-- ===== src/Mailhandler/Start.antt =====
-- The start of the mail handler: `main` of src/mailhandler/mailhandler.c up to its loop.
use comfirm_dmarc_report_ser.Common.{
  ℕ, ◌+◌, ◌*◌, ◌≤◌, ◌<◌, ◌≡◌, refl, Bool, true, List, [], Option, none, some, if◌then◌else◌, arith,
  length, Bytes,
}
use comfirm_dmarc_report_ser.Common.Int.{ℤ, pos, negsuc}
use comfirm_dmarc_report_ser.Common.Outcome.{ok, fault, use_after_free}
use comfirm_dmarc_report_ser.Mailhandler.Loop.{Handler, turns}
use comfirm_dmarc_report_ser.Mailhandler.Loop.Drain.{
  Reported, data_of, handle_left, Holding, drains, overdraws,
}
use comfirm_dmarc_report_ser.Mailhandler.Reports.{Services}
use comfirm_dmarc_report_ser.Queue.{Ref, Code, success, shared_size, mail_size}
use comfirm_dmarc_report_ser.Queue.Inv.{IsValid}
use comfirm_dmarc_report_ser.Queue.Open.{Host, init, round_up}
use comfirm_dmarc_report_ser.Queue.Open.Fresh.{Works}
use comfirm_dmarc_report_ser.Queue.Open.Reopen.{IsQueueFile, init_restores}
use comfirm_dmarc_report_ser.Queue.Refine.{contents}

-- The handler as it enters its loop.
abbrev pub starting : Ref → Handler
starting q = record { queue = q; posted = []; waits = 0; curl = true }

-- A message count that is not negative.
abbrev pub message_count : ℤ → ℕ
message_count (pos n) = n
message_count (negsuc n) = 0

abbrev pub opened : Bool → Code × Option Ref → Option Handler
opened curl_works (success, some q) = if curl_works then some (starting q) else none
opened curl_works _ = none

-- The code before the loop, for the path and the message count of the command line, with what
-- `pq_init` finds at a path and whether curl can be initiated: nothing where `main` returns 1.
unfoldable pub start : (Bytes → ℤ) → (Bytes → Host) → Bool → Bytes → Bytes → Option Handler
start atoi host curl_works path count =
    opened curl_works (init (host path) (message_count (atoi count)))

-- The mail handler starts on the file of a valid queue, which holds its mails and is free.
module _ (atoi : Bytes → ℤ) (host : Bytes → Host) (path count : Bytes) (n : ℕ) (old : Ref)
    (size : atoi count ≡ pos n) (w : Works (host path)) (f : IsQueueFile (host path) n)
    (v : IsValid old) (same_shared : (host path).file_shared ≡ old.shared)
    (same_slots : (host path).file_slots ≡ old.slots)
    (fits : shared_size + n * mail_size ≤ round_up (host path).page_size (n * mail_size)) where
  start-Holding :
      (q : Ref) × (start atoi host true path count ≡ some (starting q)) × Holding q (contents old)
  unfolding start
  start-Holding =
      let (q, made, valid, same, free) =
        init_restores (host path) n old w f v same_shared same_slots fits in
      (
        q,
        simp (size, made) refl,
        record { valid = valid; free = omega (arith, free); mails = same },
      )

  -- The file at the path holds a valid queue of n mails, as a worker or an earlier mail handler left
  -- it, the command line gives n, curl can be initiated, and the system calls work; the whole pages
  -- that n slots fill leave room for the header. The report of each mail comes to an end, and at most
  -- one of them has data to post. Then the mail handler starts, and within one round for each mail of
  -- the file, and any number `k` of rounds more, it has handed these data to curl, and the queue is
  -- empty, if no other mail arrives.
  pub start_drains :
      (lib : Services) (js : List (Option Bytes)) (k : ℕ)
      → Reported lib (contents old) js
      → length (data_of js) ≤ 1
      → (h : Handler) × (q : Ref) × (start atoi host true path count ≡ some h)
        × (turns lib (length (contents old) + k) h
            ≡ ok (record {
              queue = q;
              posted = data_of js;
              waits = 0 + k;
              curl = handle_left true (data_of js);
            }))
        × Holding q []
  start_drains lib js k r few =
      let (q, started, hold) = start-Holding in
      let (q', done, empty) = drains lib (contents old) js k (starting q) hold r few in
      (starting q, q', started, done, empty)

  -- On such a file, if the reports of two or more mails have data to post: the mail handler starts,
  -- and within one round for each mail it uses the handle of curl after the first `post_data` freed
  -- it.
  pub start_overdraws :
      (lib : Services) (js : List (Option Bytes)) (k : ℕ)
      → Reported lib (contents old) js
      → 1 < length (data_of js)
      → (h : Handler) × (start atoi host true path count ≡ some h)
        × (turns lib (length (contents old) + k) h ≡ fault use_after_free)
  start_overdraws lib js k r many =
      let (q, started, hold) = start-Holding in
      (starting q, started, overdraws lib (contents old) js k (starting q) hold r many)
