-- ===== src/Queue/View.antt =====
-- What the callers of a queue can tell of it: two queues that answer every sequence of calls alike
-- are one, wherever their mails stand in the ring.
use mathlib.Core.Quot
use mathlib.Core.Quot.{Quot, Quot-set}
use mathlib.Core.HLevel.{Σ_prop_path, Σ_set, prop→set}
use mathlib.Core.Equiv.{◌≃◌, iso_to_equiv}
use native.Mathlib.Bridge.{le_prop}
use native.Mathlib.Nat.{ℕ_set}
use comfirm_dmarc_report_ser.Common.{
  ℕ, zero, suc, ◌+◌, ◌*◌, ◌^◌, ◌≤◌, ◌<◌, ◌≡◌, refl, sym, ap, ◌∙◌, List, [], ◌∷◌, ◌++◌, arith, true,
  length, append-nil, append_assoc,
}
use comfirm_dmarc_report_ser.Common.Outcome.{ok, ok-inj}
use comfirm_dmarc_report_ser.Queue.{Ref, mail_size}
use comfirm_dmarc_report_ser.Queue.Inv.{IsValid, pushed, pushed-IsValid}
use comfirm_dmarc_report_ser.Queue.Refine.{contents, length-contents, contents-pushed}
use comfirm_dmarc_report_ser.Queue.Spec
use comfirm_dmarc_report_ser.Queue.Spec.{Op, take_one, Reply, Content}
use comfirm_dmarc_report_ser.Queue.Fifo.{run, run_refines}
use comfirm_dmarc_report_ser.Queue.Open.{Host}
use comfirm_dmarc_report_ser.Queue.Open.Fresh.{Works, init_creates}

-- As many calls of `pq_dequeue` as given.
unfoldable takes : ℕ → List Op
takes zero = []
takes (suc n) = take_one ∷ takes n

-- Emptying a queue shows what it held.
takes_reveal :
    (most n : ℕ) (q q' : Content)
    → length q ≤ n
    → length q' ≤ n
    → Spec.run most q (takes n) ≡ Spec.run most q' (takes n)
    → q ≡ q'
unfolding takes Spec.run
takes_reveal most n [] [] h h' e = refl
takes_reveal most zero (m ∷ q) q' h h' e = ground arith
takes_reveal most zero [] (m ∷ q') h h' e = ground arith
takes_reveal most (suc n) [] (m ∷ q') h h' e = cc e
takes_reveal most (suc n) (m ∷ q) [] h h' e = cc e
takes_reveal most (suc n) (m ∷ q) (m' ∷ q') h h' e =
    let rest = takes_reveal most n q q' (omega arith) (omega arith) (cc e) in cc (e, rest)

-- A queue for `cap` mails that the code may work on.
pub record Usable (cap : ℕ) : Type 0 where
  pub ref : Ref
  pub valid : IsValid ref
  pub free : 0 < ref.sem
  pub capacity : ref.shared.message_max_count ≡ cap

abbrev SameReplies : {cap : ℕ} → Usable cap → Usable cap → Type 0
SameReplies s s' = (ops : List Op) → run s.ref ops ≡ run s'.ref ops

answers :
    {cap : ℕ} (s : Usable cap) (ops : List Op)
    → run s.ref ops ≡ ok (Spec.run cap (contents s.ref) ops)
answers s ops = rw (← s.capacity) (run_refines ops s.valid s.free)

-- At most `cap` mails in a row.
abbrev pub Held : ℕ → Type 0
Held cap = (q : Content) × (length q ≤ cap)

held : {cap : ℕ} → Usable cap → Held cap
held s = (contents s.ref, ground (arith, length-contents s.ref, s.capacity, s.valid.count_in))

Content-set : IsSet Content
Content-set = hlevel ℕ_set

Held-set : {cap : ℕ} → IsSet (Held cap)
Held-set = Σ_set Content-set (λ q. prop→set le_prop)

Held-ext : {cap : ℕ} {h h' : Held cap} → h.0 ≡ h'.0 → h ≡ h'
Held-ext = Σ_prop_path (λ q. le_prop)

-- Queues that answer alike hold the same mails, and the other way round.
SameReplies-held : {cap : ℕ} (s s' : Usable cap) → SameReplies s s' → held s ≡ held s'
unfolding held
SameReplies-held {cap} s s' same = Held-ext (
    takes_reveal cap cap (contents s.ref) (contents s'.ref) (held s).1 (held s').1
      (ok-inj (sym (answers s (takes cap)) ∙ same (takes cap) ∙ answers s' (takes cap))))

held-SameReplies :
    {cap : ℕ} (s s' : Usable cap) → contents s.ref ≡ contents s'.ref → SameReplies s s'
held-SameReplies {cap} s s' e ops =
    answers s ops ∙ ap (λ (q : Content). ok (Spec.run cap q ops)) e ∙ sym (answers s' ops)

-- The queue after the mails were added to it.
filled : Ref → Content → Ref
filled r [] = r
filled r (m ∷ q) = filled (pushed r m) q

record Filled (r : Ref) (q : Content) (r' : Ref) : Type 0 where
  valid : IsValid r'
  same_sem : r'.sem ≡ r.sem
  same_capacity : r'.shared.message_max_count ≡ r.shared.message_max_count
  added : contents r' ≡ contents r ++ q

filled-Filled :
    {r : Ref} (q : Content)
    → IsValid r
    → r.shared.message_count + length q ≤ r.shared.message_max_count
    → Filled r q (filled r q)
unfolding filled
filled-Filled {r} [] v h = record {
  valid = v;
  same_sem = refl;
  same_capacity = refl;
  added = sym (append-nil _);
}
filled-Filled {r} (m ∷ q) v h =
    let f = filled-Filled {r = pushed r m} q (pushed-IsValid m v (omega arith)) (omega arith) in
    record {
      valid = f.valid;
      same_sem = f.same_sem;
      same_capacity = f.same_capacity;
      added =
          f.added
          ∙ ap (λ (p : Content). p ++ q) (contents-pushed m v (omega arith))
          ∙ append_assoc (contents r) (m ∷ []) q;
    }

-- A queue as its callers see it.
abbrev pub View : ℕ → Type 0
View most = Quot (SameReplies {cap = most})

shown : {cap : ℕ} → View cap → Held cap
shown = Quot.lift Held-set held SameReplies-held

empty-room :
    {cap : ℕ} (s : Usable cap)
    → contents s.ref ≡ []
    → (h : Held cap) → s.ref.shared.message_count + length h.0 ≤ s.ref.shared.message_max_count
empty-room s e h =
    let none_there = sym (length-contents s.ref) ∙ ap length e in
    omega (arith, none_there, s.capacity, h.1)

-- A usable queue with the given mails, from an empty one.
of_held : {cap : ℕ} (s : Usable cap) → contents s.ref ≡ [] → Held cap → Usable cap
of_held s e h =
    let f = filled-Filled {r = s.ref} h.0 s.valid (empty-room s e h) in
    record {
      ref = filled s.ref h.0;
      valid = f.valid;
      free = rw f.same_sem s.free;
      capacity = f.same_capacity ∙ s.capacity;
    }

held-of_held :
    {cap : ℕ} (s : Usable cap) (e : contents s.ref ≡ []) (h : Held cap) → held (of_held s e h) ≡ h
unfolding held of_held
held-of_held s e h =
    let f = filled-Filled {r = s.ref} h.0 s.valid (empty-room s e h) in
    Held-ext (f.added ∙ ap (λ (p : Content). p ++ h.0) e)

of_held-shown :
    {cap : ℕ} (s : Usable cap) (e : contents s.ref ≡ []) (v : View cap)
    → Quot.mk (of_held s e (shown v)) ≡ v
unfolding shown held
of_held-shown s e =
    Quot.ind (λ v. Quot-set _ _)
      (λ t. Quot.sound (
        held-SameReplies (of_held s e (held t)) t
          (ap (λ (h : Held _). h.0) (held-of_held s e (held t)))))

View-Held : {cap : ℕ} (s : Usable cap) → contents s.ref ≡ [] → View cap ≃ Held cap
unfolding shown held
View-Held s e = iso_to_equiv record {
  fun = shown;
  inv = λ h. Quot.mk (of_held s e h);
  rinv = held-of_held s e;
  linv = of_held-shown s e;
}

-- Where no file is there and every system call works, for n mails with 0 < n and a queue below 2^31
-- bytes: the valid queues of capacity n whose semaphore is free, two of them being one where every
-- sequence of `pq_enqueue` and `pq_dequeue` calls returns the same of both, are the lists of at most
-- n mails; and the list of a queue determines what any sequence of calls on it returns, that of the
-- bounded first-in first-out queue.
pub views_are_lists :
    (h : Host) (n : ℕ)
    → Works h
    → h.stat.missing ≡ true
    → 0 < n
    → n * mail_size < 2 ^ 31
    → (seen : View n ≃ Held n) × ((s : Usable n) (ops : List Op)
        → run s.ref ops ≡ ok (Spec.run n (seen.0 (Quot.mk s)).0 ops))
unfolding View-Held shown held
views_are_lists h n w missing some_room small =
    let (r, made, v, e, c, one) = init_creates h n w missing some_room small in
    (
      View-Held (record { ref = r; valid = v; free = rw one (omega arith); capacity = c }) e,
      answers,
    )
