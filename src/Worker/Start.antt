-- ===== src/Worker/Start.antt =====
-- `worker_init` of src/worker.c: the shared memory and the queue of a worker.
use comfirm_dmarc_report_ser.Common.{
  ℕ, zero, suc, ◌+◌, ◌-◌, ◌*◌, ◌/◌, ◌%◌, ◌^◌, ◌<◌, ◌≡◌, sym, ap, ◌∙◌, Bool, true, false, [], ◌∷◌,
  ◌++◌, Option, none, some, arith, ltb, not, if◌then◌else◌, Bytes, inl, inr, Bool-cases,
}
use comfirm_dmarc_report_ser.Queue.{Ref, Code, success, mail_size}
use comfirm_dmarc_report_ser.Queue.Inv.{IsValid}
use comfirm_dmarc_report_ser.Queue.Refine.{contents}
use comfirm_dmarc_report_ser.Queue.Open.{Host, init}
use comfirm_dmarc_report_ser.Queue.Open.Fresh.{Works, init_creates}

-- The digits of "%d" for a number that is not negative, in front of `out`; `n` digits are enough.
abbrev pub digits : ℕ → ℕ → Bytes → Bytes
digits zero n out = out
digits (suc fuel) n out =
    let rest = digits fuel (n / 10) ((48 + n % 10) ∷ out) in
    if ltb n 10 then (48 + n) ∷ out else rest

abbrev pub decimal : ℕ → Bytes
decimal n = digits (suc n) n []

-- The path of the queue of the worker `num`: "%s-%d".
abbrev pub queue_path : Bytes → ℕ → Bytes
queue_path queue_file num = queue_file ++ 45 ∷ decimal num

-- What `worker_init` asks of the system: whether `shmget` and `shmat` work, and what `pq_init` finds
-- at a path.
pub record Machine : Type 0 where
  pub shmget_works : Bool
  pub shmat_works : Bool
  pub host : Bytes → Host

abbrev pub is_success : Code → Bool
is_success success = true
is_success _ = false

-- `worker_init`: the queue of the new worker, or nothing where it returns NULL. A mail handler is
-- started for the same path and size.
unfoldable pub worker_init : Machine → Bytes → ℕ → ℕ → Option (Option Ref)
worker_init m queue_file queue_size num =
    if not m.shmget_works
    then none
    else if not m.shmat_works
    then none
    else (let (code, queue) = init (m.host (queue_path queue_file num)) queue_size in
        if is_success code then some queue else none)

-- What the digits of a text make behind the number `n`.
abbrev value : ℕ → Bytes → ℕ
value n [] = n
value n (c ∷ cs) = value (n * 10 + (c - 48)) cs

value-digits : (fuel n : ℕ) (out : Bytes) → n < fuel → value 0 (digits fuel n out) ≡ value n out
value-digits zero n out h = absurd (omega arith)
value-digits (suc fuel) n out h = elim (Bool-cases (ltb n 10)) [
  | inl small ↦
      rw small (ap (λ (m : ℕ). value m out) {x = 0 * 10 + (48 + n - 48)} {y = n} (omega arith))
  | inr large ↦ rw large (
      value-digits fuel (n / 10) ((48 + n % 10) ∷ out) (ground arith)
      ∙ ap (λ (m : ℕ). value m out) {x = n / 10 * 10 + (48 + n % 10 - 48)} {y = n} (omega arith))
]

append-inj : (x : Bytes) {a b : Bytes} → x ++ a ≡ x ++ b → a ≡ b
append-inj [] h = h
append-inj (c ∷ x) h = append-inj x (cc)

tail_lem : {c : ℕ} {a b : Bytes} → c ∷ a ≡ c ∷ b → a ≡ b
tail_lem h = cc

-- Two workers never share a file.
pub queue_path_inj :
    (queue_file : Bytes) (a b : ℕ) → queue_path queue_file a ≡ queue_path queue_file b → a ≡ b
queue_path_inj queue_file a b h =
    sym (value-digits (suc a) a [] (omega arith))
    ∙ ap (value 0) (tail_lem (append-inj queue_file h))
    ∙ value-digits (suc b) b [] (omega arith)

-- Where the system calls work and no file of the worker is there, for a queue of at least one mail
-- that is below 2^31 bytes: the worker starts with a valid empty queue whose semaphore is 1.
pub worker_init_lem :
    (m : Machine) (queue_file : Bytes) (n num : ℕ)
    → m.shmget_works ≡ true
    → m.shmat_works ≡ true
    → Works (m.host (queue_path queue_file num))
    → (m.host (queue_path queue_file num)).stat.missing ≡ true
    → 0 < n
    → n * mail_size < 2 ^ 31
    → (r : Ref) × (worker_init m queue_file n num ≡ some (some r))
      × IsValid r
      × (contents r ≡ [])
      × (r.shared.message_max_count ≡ n)
      × (r.sem ≡ 1)
unfolding worker_init
worker_init_lem m queue_file n num got attached works missing some_room small =
    let (r, e, v, empty, count, sem) =
      init_creates (m.host (queue_path queue_file num)) n works missing some_room small in
    (r, simp (got, attached, e), v, empty, count, sem)
