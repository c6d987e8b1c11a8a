-- ===== src/Queue/Sync.antt =====
-- Which `msync` calls of the queue can reach the disk. POSIX lets `msync` refuse an address that is
-- no multiple of the page size (EINVAL), and Linux does; the mapping itself begins on a page.
use native.Mathlib.Nat.{mod-eq_of_lt}
use comfirm_dmarc_report_ser.Common.{
  ℕ, ◌%◌, ◌<◌, ◌≡◌, List, [], ◌∷◌, some, arith, ◌==◌, if◌then◌else◌,
}
use comfirm_dmarc_report_ser.Common.Outcome.{ok}
use comfirm_dmarc_report_ser.Queue.{Ref, SyncCall, dequeue, Taken}

-- The calls that the kernel carries out.
unfoldable pub effective : ℕ → List SyncCall → List SyncCall
effective page [] = []
effective page (c ∷ cs) =
    let rest = effective page cs in if c.offset % page == 0 then c ∷ rest else rest

-- Where a page has more than 8 bytes: no `msync` call of a `pq_dequeue` that returns is at a
-- multiple of the page size, which the system asks for, so that none is carried out.
pub dequeue_flushes_nothing :
    (page : ℕ) (r : Ref) {t : Taken}
    → 8 < page
    → dequeue (some r) ≡ ok t
    → effective page t.done.syncs ≡ []
unfolding dequeue effective
dequeue_flushes_nothing page r h e =
    ground (arith, mod-eq_of_lt {n = 4} {m = page} (omega arith), mod-eq_of_lt {n = 8} {m = page} h)
