-- ===== src/Queue/Callers.antt =====
-- Several processes on one queue: the worker and the mailhandler call `pq_enqueue` and `pq_dequeue`
-- of src/lib-pq/persisted_queue.c at the same time, one access to the shared memory after another.
pub mod Spec
pub mod Inv
pub mod Moves
pub mod Safety
pub mod Progress
pub mod Reopened
pub mod Calls
pub mod Crash
use native.Mathlib.Decide.{ℕ_discrete}
use mathlib.Core.Logic.{ite}
use comfirm_dmarc_report_ser.Common.{
  ℕ, zero, suc, ◌+◌, ◌-◌, ◌%◌, ◌≤◌, ◌<◌, ◌≡◌, List, [], ◌∷◌, ◌++◌, Option, none, some,
}
use comfirm_dmarc_report_ser.Common.Outcome.{Outcome, ok}
use comfirm_dmarc_report_ser.Data.{Mail}
use comfirm_dmarc_report_ser.Queue.{
  Ref, Code, success, message_size_reached, message_queue_empty, semaphore_wait, semaphore_post,
  semaphore_init, store_slot, load_slot,
}
use comfirm_dmarc_report_ser.Queue.Spec.{Op, put, take_one, Reply}

-- Where a process stands: outside of both calls, before an access of `pq_enqueue` or of `pq_dequeue`,
-- or before the `semaphore_post` at a return, with what the call will answer.
pub data Pc : Type 0 where
  idle : Pc
  put_check put_copy put_advance put_count : Mail → Pc
  take_check take_copy : Pc
  take_advance take_count : Mail → Pc
  leave : Op → Reply → Pc

-- What the processes share, and the calls that have returned, in the order of their returns.
pub record Memory : Type 0 where
  pub ref : Ref
  pub log : List (Op × Reply)

abbrev pub with_ref : Memory → Ref → Memory
with_ref m r = record m { ref = r }

-- `reference->shared->write_offset = ++reference->shared->write_offset % message_max_count`
abbrev pub advance_write : Ref → Ref
advance_write r = record r {
  shared = record (r.shared) {
    write_offset = (r.shared.write_offset + 1) % r.shared.message_max_count;
  };
}

abbrev pub advance_read : Ref → Ref
advance_read r = record r {
  shared = record (r.shared) {
    read_offset = (r.shared.read_offset + 1) % r.shared.message_max_count;
  };
}

-- `++message_count` and `--message_count`
abbrev pub count_up : Ref → Ref
count_up r = record r { shared = record (r.shared) { message_count = r.shared.message_count + 1 } }

abbrev pub count_down : Ref → Ref
count_down r = record r {
  shared = record (r.shared) { message_count = r.shared.message_count - 1 };
}

-- One access by one process.
pub data Move (m : Memory) : Pc → Memory → Pc → Type 0 where
  begin_put :
      {r : Ref} (x : Mail) → semaphore_wait m.ref ≡ ok r → Move m idle (with_ref m r) (put_check x)
  full :
      {x : Mail}
      → m.ref.shared.message_max_count ≤ m.ref.shared.message_count
      → Move m (put_check x) m (leave (put x) (message_size_reached, none))
  room :
      {x : Mail}
      → m.ref.shared.message_count < m.ref.shared.message_max_count
      → Move m (put_check x) m (put_copy x)
  copy_in :
      {x : Mail} {r : Ref}
      → store_slot m.ref m.ref.shared.write_offset x ≡ ok r
      → Move m (put_copy x) (with_ref m r) (put_advance x)
  move_write : {x : Mail} → Move m (put_advance x) (with_ref m (advance_write m.ref)) (put_count x)
  counted_up :
      {x : Mail}
      → Move m (put_count x) (with_ref m (count_up m.ref)) (leave (put x) (success, none))
  begin_take : {r : Ref} → semaphore_wait m.ref ≡ ok r → Move m idle (with_ref m r) take_check
  empty :
      m.ref.shared.message_count ≡ 0
      → Move m take_check m (leave take_one (message_queue_empty, none))
  some_left : 0 < m.ref.shared.message_count → Move m take_check m take_copy
  copy_out :
      {x : Mail}
      → load_slot m.ref m.ref.shared.read_offset ≡ ok x
      → Move m take_copy m (take_advance x)
  move_read : {x : Mail} → Move m (take_advance x) (with_ref m (advance_read m.ref)) (take_count x)
  counted_down :
      {x : Mail}
      → Move m (take_count x) (with_ref m (count_down m.ref)) (leave take_one (success, some x))
  post :
      {op : Op} {reply : Reply}
      → Move m
          (leave op reply)
          (record { ref = semaphore_post m.ref; log = m.log ++ (op, reply) ∷ [] })
          idle

-- The processes, numbered; any of them may make the next access.
pub record System : Type 0 where
  pub mem : Memory
  pub pc : ℕ → Pc

abbrev pub update : (ℕ → Pc) → ℕ → Pc → ℕ → Pc
update f i p j = ite (ℕ_discrete i j) p (f j)

pub data Step (s : System) : System → Type 0 where
  pick :
      (i : ℕ) {m : Memory} {p : Pc}
      → Move s.mem (s.pc i) m p
      → Step s (record { mem = m; pc = update s.pc i p })

abbrev pub start : Ref → System
start r = record { mem = record { ref = r; log = [] }; pc = λ _. idle }

-- What may happen to a queue that the processes have opened.
pub data Reach (r : Ref) : System → Type 0 where
  here : Reach r (start r)
  later : {s t : System} → Reach r s → Step s t → Reach r t

-- Accesses by one process alone, with their number.
pub data Solo (i : ℕ) : ℕ → System → System → Type 0 where
  stop : {s : System} → Solo i zero s s
  go :
      {s t : System} {m : Memory} {p : Pc} {n : ℕ}
      → Move s.mem (s.pc i) m p
      → Solo i n (record { mem = m; pc = update s.pc i p }) t
      → Solo i (suc n) s t

-- `pq_init` by one more process, which sets the semaphore up.
unfoldable pub reopened : System → System
unfolding semaphore_init
reopened s = record s { mem = with_ref s.mem (semaphore_init s.mem.ref) }
