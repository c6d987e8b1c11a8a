-- ===== src/Queue/Spec.antt =====
-- What a persisted queue promises: a first-in first-out queue of at most `cap` mails.
use comfirm_dmarc_report_ser.Common.{
  ℕ, List, [], ◌∷◌, ◌++◌, Option, none, some, leb, if◌then◌else◌, length,
}
use comfirm_dmarc_report_ser.Data.{Mail}
use comfirm_dmarc_report_ser.Queue.{Code, success, message_size_reached, message_queue_empty}

abbrev pub Content : Type 0
Content = List Mail

abbrev pub push : ℕ → Content → Mail → Code × Content
push cap q m = if leb cap (length q) then (message_size_reached, q) else (success, q ++ m ∷ [])

abbrev pub pop : Content → Code × Option Mail × Content
pop [] = (message_queue_empty, none, [])
pop (m ∷ q) = (success, some m, q)

-- A call by the worker or by the mailhandler, and what the caller sees of it.
pub data Op : Type 0 where
  put : Mail → Op
  take_one : Op

abbrev pub Reply : Type 0
Reply = Code × Option Mail

unfoldable pub run : ℕ → Content → List Op → List Reply
run cap q [] = []
run cap q (put m ∷ ops) = let (c, q') = push cap q m in (c, none) ∷ run cap q' ops
run cap q (take_one ∷ ops) = let (c, out, q') = pop q in (c, out) ∷ run cap q' ops
