-- ===== src/Tests/Queue.antt =====
-- The queue at concrete inputs.
use mathlib.Core.Quot
use mathlib.Core.Equiv.{◌≃◌}
use comfirm_dmarc_report_ser.Common.{◌≡◌, refl, true, false, List, [], ◌∷◌, some, arith}
use comfirm_dmarc_report_ser.Common.Int.{pos, negsuc}
use comfirm_dmarc_report_ser.Common.Outcome.{ok}
use comfirm_dmarc_report_ser.Queue.{Ref, success}
use comfirm_dmarc_report_ser.Queue.Spec
use comfirm_dmarc_report_ser.Queue.Spec.{Op, put, take_one}
use comfirm_dmarc_report_ser.Queue.Inv.{IsValid}
use comfirm_dmarc_report_ser.Queue.Refine.{contents}
use comfirm_dmarc_report_ser.Queue.Fifo.{run, run_refines}
use comfirm_dmarc_report_ser.Queue.View.{View, Held, Usable, views_are_lists}
use comfirm_dmarc_report_ser.Queue.Open.{Stat, Host, init}
use comfirm_dmarc_report_ser.Queue.Open.Fresh.{Works}
use comfirm_dmarc_report_ser.Queue.Open.Reopen.{IsQueueFile, init_restores}
use comfirm_dmarc_report_ser.Tests.Data.{mail_a, mail_b, queue, queue-IsValid}

run_refines_example :
    run queue (put mail_b ∷ put mail_a ∷ take_one ∷ take_one ∷ take_one ∷ [])
    ≡ ok (Spec.run 2 (mail_a ∷ []) (put mail_b ∷ put mail_a ∷ take_one ∷ take_one ∷ take_one ∷ []))
run_refines_example =
    run_refines (put mail_b ∷ put mail_a ∷ take_one ∷ take_one ∷ take_one ∷ []) {r = queue}
      queue-IsValid (omega arith)

-- A system on which every call works, with no file or with that of the queue.
abbrev pub host : Stat → Host
host stat = record {
  stat = stat;
  open_works = true;
  lseek_works = λ n. elim n [ pos _ ↦ true | negsuc _ ↦ false ];
  write_works = true;
  mmap_works = true;
  semget_works = true;
  page_size = 4096;
  file_shared = queue.shared;
  file_slots = queue.slots;
}

abbrev pub no_file : Stat
no_file = record { missing = true; is_dir = false; st_size = 0 }

abbrev pub queue_file : Stat
queue_file = record { missing = false; is_dir = false; st_size = 62112 }

pub host-Works : (s : Stat) → Works (host s)
host-Works s = record {
  opens = refl;
  seeks = λ _. refl;
  no_negative_seek = λ _. refl;
  writes = refl;
  maps = refl;
  has_semaphore = refl;
  page_pos = omega arith;
}

queue_file-IsQueueFile : IsQueueFile (host queue_file) 2
queue_file-IsQueueFile = record {
  there = refl;
  plain = refl;
  size = refl;
  small = omega arith;
  slot_count = refl;
  capacity = refl;
}

init_restores_example :
    (r : Ref) × (init (host queue_file) 2 ≡ (success, some r))
    × IsValid r
    × (contents r ≡ contents queue)
    × (r.sem ≡ 1)
init_restores_example =
    init_restores (host queue_file) 2 queue (host-Works queue_file) queue_file-IsQueueFile
      queue-IsValid refl refl (omega arith)

views_are_lists_example :
    (seen : View 2 ≃ Held 2) × ((s : Usable 2) (ops : List Op)
      → run s.ref ops ≡ ok (Spec.run 2 (seen.0 (Quot.mk s)).0 ops))
views_are_lists_example =
    views_are_lists (host no_file) 2 (host-Works no_file) refl (omega arith) (omega arith)
