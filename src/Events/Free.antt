-- ===== src/Events/Free.antt =====
-- What `events_free` frees: src/events.c.
use comfirm_dmarc_report_ser.Common.{
  ℕ, zero, suc, ◌+◌, ◌*◌, ◌/◌, ◌%◌, ◌^◌, ◌≡◌, ◌≢◌, refl, ap, ◌∙◌, false, ◌∷◌, List, arith, ◌==◌,
}
use comfirm_dmarc_report_ser.Common.Outcome.{Outcome, ok, fault, bad_free, ◌>>=◌}
use comfirm_dmarc_report_ser.Events.{
  EventHandler, Memory, Heap, pointers, allocated, created, holds, release, release_events, free,
}

release-last : (p : ℕ) (heap : Heap) → p ≢ 0 → release p (p ∷ heap) ≡ ok heap
unfolding release
release-last p heap not_null = ground arith

-- The address that two words make.
release-joined :
    (a : ℕ) (heap : Heap) → a ≢ 0 → release (a % 2 ^ 32 + a / 2 ^ 32 * 2 ^ 32) (a ∷ heap) ≡ ok heap
release-joined a heap not_null =
    ap (λ (p : ℕ). release p (a ∷ heap)) {x = a % 2 ^ 32 + a / 2 ^ 32 * 2 ^ 32} {y = a}
      (omega arith)
    ∙ release-last a heap not_null

release-second : (p q : ℕ) (heap : Heap) → p ≢ 0 → p ≢ q → release p (q ∷ p ∷ heap) ≡ ok (q ∷ heap)
unfolding release
release-second p q heap not_null other = ground arith

release_events-pointers :
    (n : ℕ) (address : ℕ → ℕ) (heap : Heap)
    → ((i : ℕ) → address i ≢ 0)
    → release_events n (pointers n address) (allocated n address heap) ≡ ok heap
unfolding release_events
release_events-pointers zero address heap not_null = refl
release_events-pointers (suc n) address heap not_null =
    ap (λ (m : Outcome Heap). m >>= release_events n (pointers n (λ i. address (suc i))))
      (release-joined (address 0) (allocated n (λ i. address (suc i)) heap) (not_null 0))
    ∙ release_events-pointers n (λ i. address (suc i)) heap (λ i. not_null (suc i))

-- Where `malloc` returned no NULL, and the handler is not at the address of its array: of what
-- `events_create` allocated, `events_free` leaves the array, if there was no wait in between.
pub free-created :
    (m : Memory) (max_clients fd : ℕ) (heap : Heap)
    → m.self ≢ 0
    → m.self ≢ m.array
    → ((i : ℕ) → m.event i ≢ 0)
    → let (h, allocated') = created m max_clients fd heap in
      free h max_clients allocated' ≡ ok (m.array ∷ heap)
unfolding free
free-created m max_clients fd heap not_null apart events =
    rw (release_events-pointers max_clients m.event (m.array ∷ m.self ∷ heap) events)
      (release-second m.self m.array heap not_null apart)

-- What the two first words of the array make is no address that can be freed.
pub record NoAddress (heap : Heap) (low high : ℕ) : Type 0 where
  pub not_null : low + high * 2 ^ 32 ≢ 0
  pub unknown : holds (low + high * 2 ^ 32) heap ≡ false

pub free-NoAddress :
    (h : EventHandler) (n low high : ℕ) (words : List ℕ) (heap : Heap)
    → h.events ≡ low ∷ high ∷ words
    → NoAddress heap low high
    → free h (suc n) heap ≡ fault bad_free
unfolding free release_events release
free-NoAddress h n low high words heap at bad = simp (at, is_not_null, bad.unknown)
  where
    is_not_null : (low + high * 2 ^ 32 == 0) ≡ false
    is_not_null = ground (arith, bad.not_null)
