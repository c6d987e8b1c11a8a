-- ===== src/Queue/Refine.antt =====
-- `pq_enqueue` and `pq_dequeue` on a valid queue are the operations of Queue/Spec.
use native.Mathlib.Nat.{mod-lt, mod-add-mod, mod-eq_of_lt, mod-eq-sub-mod}
use native.Mathlib.Decide.{dec_lt}
use comfirm_dmarc_report_ser.Common.{
  ℕ, suc, ◌+◌, ◌-◌, ◌%◌, ◌≤◌, ◌<◌, ◌≡◌, ◌≢◌, sym, ap, ap₂, ◌∙◌, List, [], ◌∷◌, ◌++◌, none, some,
  arith, length, get_or, get_or-set_self, get_or-set_ne, get_elem?-eq-get_or, true, false,
}
use comfirm_dmarc_report_ser.Common.Outcome.{ok}
use comfirm_dmarc_report_ser.Common.Tabulate.{
  tabulate, length-tabulate, tabulate-snoc, tabulate-cong,
}
use comfirm_dmarc_report_ser.Data.{Mail}
use comfirm_dmarc_report_ser.Queue.{
  Ref, success, message_size_reached, message_queue_empty, enqueue, dequeue, SyncCall, header_sync,
  slot_offset, mail_size,
}
use comfirm_dmarc_report_ser.Queue.Spec
use comfirm_dmarc_report_ser.Queue.Inv.{IsValid, slot_mapped-lt, pushed, popped}

-- A slot that holds nothing yet; never shown by a valid queue.
abbrev pub no_mail : Mail
no_mail = record { headers = []; header_count = 0; body = [] }

-- The mail that stands `k` places behind the oldest one.
abbrev pub nth : Ref → ℕ → Mail
nth r k = get_or r.slots ((r.shared.read_offset + k) % r.shared.message_max_count) no_mail

-- The mails of a queue, oldest first.
abbrev pub contents : Ref → Spec.Content
contents r = tabulate r.shared.message_count (nth r)

pub length-contents : (r : Ref) → length (contents r) ≡ r.shared.message_count
length-contents r = length-tabulate r.shared.message_count (nth r)

-- Two places less than `cap` apart are different slots.
slot-ne : {cap h j k : ℕ} → h < cap → k < j → j < cap → (h + j) % cap ≢ (h + k) % cap
slot-ne {cap} {h} {j} {k} hh hk hj = elim (dec_lt (h + j) cap) [
  | yes p ↦ omega (arith, mod-eq_of_lt p, mod-eq_of_lt {n = h + k} {m = cap} (omega arith))
  | no p ↦ elim (dec_lt (h + k) cap) [
    | yes q ↦ omega (
      arith,
      mod-eq-sub-mod {n = h + j} {m = cap} (omega arith),
      mod-eq_of_lt {n = h + j - cap} {m = cap} (omega arith),
      mod-eq_of_lt q,
    )
    | no q ↦ omega (
      arith,
      mod-eq-sub-mod {n = h + j} {m = cap} (omega arith),
      mod-eq_of_lt {n = h + j - cap} {m = cap} (omega arith),
      mod-eq-sub-mod {n = h + k} {m = cap} (omega arith),
      mod-eq_of_lt {n = h + k - cap} {m = cap} (omega arith),
    )
  ]
]

module _ {r : Ref} (m : Mail) (v : IsValid r)
    (room : r.shared.message_count < r.shared.message_max_count) where
  pub nth-pushed_old : (k : ℕ) → k < r.shared.message_count → nth (pushed r m) k ≡ nth r k
  nth-pushed_old k h = get_or-set_ne r.slots m no_mail (rw v.write_at (slot-ne v.read_in h room))

  pub write_in : r.shared.write_offset < r.shared.message_max_count
  write_in = rw v.write_at (mod-lt _ v.capacity_pos)

  nth-pushed_new : nth (pushed r m) r.shared.message_count ≡ m
  nth-pushed_new =
      rw (← v.write_at)
        (get_or-set_self r.slots r.shared.write_offset m no_mail (rw v.slot_count write_in))

  pub contents-pushed : contents (pushed r m) ≡ contents r ++ m ∷ []
  contents-pushed =
      ap (λ (n : ℕ). tabulate n (nth (pushed r m))) {y = suc r.shared.message_count} (omega arith)
      ∙ tabulate-snoc r.shared.message_count (nth (pushed r m))
      ∙ ap₂ (λ (xs : List Mail) (x : Mail). xs ++ x ∷ [])
          (tabulate-cong r.shared.message_count (nth (pushed r m)) (nth r) nth-pushed_old)
          nth-pushed_new

-- The oldest mail stands at the read offset, and a dequeue leaves the rest.
module _ {r : Ref} (v : IsValid r) (some_left : 0 < r.shared.message_count) where
  nth-popped : (k : ℕ) → nth (popped r) k ≡ nth r (suc k)
  nth-popped k =
      ap (λ (i : ℕ). get_or r.slots i no_mail)
        (mod-add-mod (r.shared.read_offset + 1) r.shared.message_max_count k
          ∙ ap (λ (i : ℕ). i % r.shared.message_max_count) {y = r.shared.read_offset + suc k}
              (omega arith))

  oldest : nth r 0 ≡ get_or r.slots r.shared.read_offset no_mail
  oldest =
      ap (λ (i : ℕ). get_or r.slots i no_mail)
        (ap (λ (i : ℕ). i % r.shared.message_max_count) {y = r.shared.read_offset} (omega arith)
          ∙ mod-eq_of_lt v.read_in)

  pub contents-popped :
      contents r ≡ get_or r.slots r.shared.read_offset no_mail ∷ contents (popped r)
  contents-popped =
      ap (λ (n : ℕ). tabulate n (nth r)) {y = suc (r.shared.message_count - 1)} (omega arith)
      ∙ ap₂ ◌∷◌ oldest (
          sym (tabulate-cong (r.shared.message_count - 1) (nth (popped r)) _ (λ k h. nth-popped k)))

-- The `msync` calls of an enqueue that stores its mail.
abbrev pub enqueue_syncs : Ref → List SyncCall
enqueue_syncs r =
    header_sync true ++ record { offset = slot_offset r.shared.write_offset; len = mail_size } ∷ []

module _ {r : Ref} (v : IsValid r) (free : 0 < r.sem) where
  pub enqueue-room :
      (m : Mail)
      → r.shared.message_count < r.shared.message_max_count
      → enqueue (some r) m
        ≡ ok (record { code = success; ref = pushed r m; syncs = enqueue_syncs r })
  unfolding enqueue
  enqueue-room m room = ground (arith, slot_mapped-lt r.shared.write_offset v (write_in m v room))

  pub enqueue-full :
      (m : Mail)
      → r.shared.message_max_count ≤ r.shared.message_count
      → enqueue (some r) m ≡ ok (record { code = message_size_reached; ref = r; syncs = [] })
  unfolding enqueue
  enqueue-full m full = ground arith

  pub dequeue-some :
      0 < r.shared.message_count
      → dequeue (some r)
        ≡ ok (record {
          done = record { code = success; ref = popped r; syncs = header_sync false };
          out = some (get_or r.slots r.shared.read_offset no_mail);
        })
  unfolding dequeue
  dequeue-some h = ground (
    arith,
    slot_mapped-lt r.shared.read_offset v v.read_in,
    get_elem?-eq-get_or r.slots r.shared.read_offset no_mail,
  )

  pub dequeue-empty :
      r.shared.message_count ≡ 0
      → dequeue (some r)
        ≡ ok (record {
          done = record { code = message_queue_empty; ref = r; syncs = [] };
          out = none;
        })
  unfolding dequeue
  dequeue-empty h = ground arith
