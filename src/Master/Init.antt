-- ===== src/Master/Init.antt =====
-- The master server before it starts: `master_server_init` of src/master_server.c.
use mathlib.Core.Path.{subst}
use native.Mathlib.Nat.{mod-lt}
use comfirm_dmarc_report_ser.Common.{
  ℕ, zero, suc, ◌+◌, ◌*◌, ◌%◌, ◌^◌, ◌<◌, ◌≡◌, refl, ap, true, false, List, [], ◌∷◌, Option, none,
  some, arith, length, get_elem?, Bytes, ◌==◌,
}
use comfirm_dmarc_report_ser.Common.Outcome.{Outcome, ok, ◌>>=◌}
use comfirm_dmarc_report_ser.Common.Tabulate.{tabulate, get_elem?-tabulate}
use comfirm_dmarc_report_ser.Master.{worker_map}
use comfirm_dmarc_report_ser.Queue.{Ref, mail_size}
use comfirm_dmarc_report_ser.Queue.Inv.{IsValid}
use comfirm_dmarc_report_ser.Queue.Refine.{contents}
use comfirm_dmarc_report_ser.Queue.Open.Fresh.{Works}
use comfirm_dmarc_report_ser.Worker.Start.{Machine, worker_init, worker_init_lem, queue_path}

-- `master_server`: its workers, by their queues, and the number of the worker for each descriptor.
pub record MasterServer : Type 0 where
  pub workers : List (Option Ref)
  pub worker_map : List ℕ

-- A worker and those after it; nothing where `worker_init` returned NULL.
abbrev pub in_front : Option (Option Ref) → Option (List (Option Ref)) → Option (List (Option Ref))
in_front none rest = none
in_front (some w) none = none
in_front (some w) (some ws) = some (w ∷ ws)

-- The loop over `worker_init`, which the first worker that fails ends: `n` are left, from `i` on.
unfoldable pub init_workers : Machine → Bytes → ℕ → ℕ → ℕ → Option (List (Option Ref))
init_workers m queue_file queue_size zero i = some []
init_workers m queue_file queue_size (suc n) i =
    in_front (worker_init m queue_file queue_size i)
      (init_workers m queue_file queue_size n (suc i))

abbrev pub with_map : List (Option Ref) → List ℕ → MasterServer
with_map workers map = record { workers = workers; worker_map = map }

abbrev pub mapped : ℕ → ℕ → Option (List (Option Ref)) → Outcome (Option MasterServer)
mapped max_workers max_clients none = ok none
mapped max_workers max_clients (some workers) =
    worker_map max_workers max_clients >>= λ map. ok (some (with_map workers map))

-- `master_server_init`, for the configured numbers: nothing where it returns -1.
unfoldable pub master_server_init : Machine → Bytes → ℕ → ℕ → ℕ → Outcome (Option MasterServer)
unfolding init_workers
master_server_init m queue_file queue_size max_workers max_clients =
    mapped max_workers max_clients (init_workers m queue_file queue_size max_workers 0)

-- What `worker_init` gives for a number, if its queue is new.
pub record Fresh (m : Machine) (queue_file : Bytes) (n num : ℕ) (worker : Option Ref) : Type 0 where
  pub queue : Ref
  pub made : worker_init m queue_file n num ≡ some worker
  pub has_queue : worker ≡ some queue
  pub valid : IsValid queue
  pub empty : contents queue ≡ []
  pub room : queue.shared.message_max_count ≡ n
  pub free : queue.sem ≡ 1

-- A machine on which every worker can start, without a file of an earlier run.
pub record Ready (m : Machine) (queue_file : Bytes) : Type 0 where
  pub got : m.shmget_works ≡ true
  pub attached : m.shmat_works ≡ true
  pub works : (i : ℕ) → Works (m.host (queue_path queue_file i))
  pub missing : (i : ℕ) → (m.host (queue_path queue_file i)).stat.missing ≡ true

module _ (m : Machine) (queue_file : Bytes) (queue_size : ℕ) where
  -- The workers from a number on.
  abbrev AllFresh : ℕ → List (Option Ref) → Type 0
  AllFresh num [] = Unit
  AllFresh num (w ∷ ws) = Fresh m queue_file queue_size num w × AllFresh (suc num) ws

  AllFresh-get :
      (workers : List (Option Ref)) (num i : ℕ)
      → AllFresh num workers
      → i < length workers
      → (w : Option Ref) × (get_elem? workers i ≡ some w)
        × Fresh m queue_file queue_size (num + i) w
  AllFresh-get [] num i fresh less = absurd (omega arith)
  AllFresh-get (w ∷ ws) num zero fresh less = (
    w,
    refl,
    subst (λ (k : ℕ). Fresh m queue_file queue_size k w) {x = num} {y = num + 0} (omega arith)
        fresh.0,
  )
  AllFresh-get (w ∷ ws) num (suc i) fresh less =
      let (w', at, new) = AllFresh-get ws (suc num) i fresh.1 (omega arith) in
      (
        w',
        at,
        subst (λ (k : ℕ). Fresh m queue_file queue_size k w') {x = suc num + i} {y = num + suc i}
            (omega arith) new,
      )

  -- What a descriptor finds, among so many workers: the one that was made for the number to which
  -- the descriptor leads.
  abbrev pub Serves : ℕ → MasterServer → ℕ → Type 0
  Serves max_workers s fd =
      (w : Option Ref) × (get_elem? s.worker_map fd ≡ some (fd % max_workers))
      × (get_elem? s.workers (fd % max_workers) ≡ some w)
      × Fresh m queue_file queue_size (fd % max_workers) w

module _ (m : Machine) (queue_file : Bytes) (queue_size : ℕ) (ready : Ready m queue_file)
    (some_room : 0 < queue_size) (small : queue_size * mail_size < 2 ^ 31) where
  init_workers-AllFresh :
      (n i : ℕ)
      → (workers : List (Option Ref)) × (init_workers m queue_file queue_size n i ≡ some workers)
        × (length workers ≡ n)
        × AllFresh m queue_file queue_size i workers
  unfolding init_workers
  init_workers-AllFresh zero i = ([], refl, refl, tt)
  init_workers-AllFresh (suc n) i =
      let (workers, e, count, fresh) = init_workers-AllFresh n (suc i) in
      let (q, started, valid, empty, room, free) =
        worker_init_lem m queue_file queue_size i ready.got ready.attached (ready.works i)
          (ready.missing i) some_room small in
      (
        some q ∷ workers,
        simp (started, e) refl,
        ap suc count,
        (
          record {
            queue = q;
            made = started;
            has_queue = refl;
            valid = valid;
            empty = empty;
            room = room;
            free = free;
          },
          fresh,
        ),
      )

  -- On a machine where every worker can start and no file of an earlier run is there, for a queue of
  -- at least one mail that is below 2^31 bytes and at least one worker: `master_server_init` works,
  -- and leads every descriptor below twice `max_clients` to the worker that `worker_init` made for
  -- the descriptor modulo the number of workers, whose queue is valid and empty with the configured
  -- room, and whose semaphore is 1.
  pub master_server_init_lem :
      (max_workers max_clients fd : ℕ)
      → 0 < max_workers
      → fd < max_clients * 2
      → (s : MasterServer) × (master_server_init m queue_file queue_size max_workers max_clients
          ≡ ok (some s))
        × Serves m queue_file queue_size max_workers s fd
  unfolding master_server_init worker_map
  master_server_init_lem max_workers max_clients fd some_worker small_fd =
      let (workers, e, count, fresh) = init_workers-AllFresh max_workers 0 in
      let (w, at, new) =
        AllFresh-get m queue_file queue_size workers 0 (fd % max_workers) fresh
          (omega (arith, count, mod-lt fd some_worker)) in
      (
        with_map workers (tabulate (max_clients * 2) (λ i. i % max_workers)),
        simp (e, is_positive) refl,
        (
          w,
          get_elem?-tabulate (max_clients * 2) fd _ small_fd,
          at,
          subst (λ (k : ℕ). Fresh m queue_file queue_size k w) {x = 0 + fd % max_workers}
              {y = fd % max_workers} (omega arith) new,
        ),
      )
    where
      is_positive : (max_workers == 0) ≡ false
      is_positive = ground arith
