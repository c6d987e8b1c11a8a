-- ===== src/Events/Wait.antt =====
-- What the array holds after a wait: src/events.c.
use comfirm_dmarc_report_ser.Common.{
  ℕ, zero, suc, ◌+◌, ◌*◌, ◌≤◌, ◌<◌, ◌≡◌, refl, ap, ◌∙◌, ◌↔◌, List, [], ◌∷◌, ◌++◌, Option, some,
  arith, false, length, get_elem?, some-inj, ltb, ltb→lt, ltb→le, Bool-cases, inl, inr,
}
use comfirm_dmarc_report_ser.Common.Outcome.{ok, fault, out_of_bounds, ◌>>=◌}
use comfirm_dmarc_report_ser.Events.{
  Ready, EventHandler, Memory, Heap, created, pointers, store, with_events, wait, word, word_of,
  is_closed, get_fd, has_rdhup,
}

pub length-pointers : (n : ℕ) (address : ℕ → ℕ) → length (pointers n address) ≡ 2 * n
length-pointers zero address = refl
length-pointers (suc n) address = omega (arith, length-pointers n (λ i. address (suc i)))

-- Three words for each event.
abbrev pub packed : List Ready → List ℕ
packed [] = []
packed (e ∷ es) = e.events ∷ e.fd ∷ e.rest ∷ packed es

abbrev pub behind : List Ready → List ℕ → List ℕ
behind [] words = words
behind (e ∷ es) (_ ∷ _ ∷ _ ∷ words) = behind es words
behind (e ∷ es) _ = []

pub store-packed :
    (es : List Ready) (words : List ℕ)
    → 3 * length es ≤ length words
    → store es words ≡ ok (packed es ++ behind es words)
store-packed [] words room = refl
store-packed (e ∷ es) [] room = absurd (omega arith)
store-packed (e ∷ es) (_ ∷ []) room = absurd (omega arith)
store-packed (e ∷ es) (_ ∷ _ ∷ []) room = absurd (omega arith)
store-packed (e ∷ es) (_ ∷ _ ∷ _ ∷ words) room = rw (store-packed es words (omega arith))

pub length-behind :
    (es : List Ready) (words : List ℕ)
    → 3 * length es ≤ length words
    → length (packed es ++ behind es words) ≡ length words
length-behind [] words room = refl
length-behind (e ∷ es) [] room = absurd (omega arith)
length-behind (e ∷ es) (_ ∷ []) room = absurd (omega arith)
length-behind (e ∷ es) (_ ∷ _ ∷ []) room = absurd (omega arith)
length-behind (e ∷ es) (_ ∷ _ ∷ _ ∷ words) room =
    ap (λ (n : ℕ). suc (suc (suc n))) (length-behind es words (omega arith))

pub store_faults :
    (es : List Ready) (words : List ℕ)
    → length words < 3 * length es
    → store es words ≡ fault out_of_bounds
store_faults [] words full = absurd (omega arith)
store_faults (e ∷ es) [] full = refl
store_faults (e ∷ es) (_ ∷ []) full = refl
store_faults (e ∷ es) (_ ∷ _ ∷ []) full = refl
store_faults (e ∷ es) (_ ∷ _ ∷ _ ∷ words) full = rw (store_faults es words (omega arith))

-- The words of an event among those of all.
module _ (rest : List ℕ) where
  skips_event :
      (e : Ready) (es : List Ready) (i k : ℕ)
      → get_elem? (packed (e ∷ es) ++ rest) (3 * suc i + k)
        ≡ get_elem? (packed es ++ rest) (3 * i + k)
  skips_event e es i k =
      ap (get_elem? (packed (e ∷ es) ++ rest)) {x = 3 * suc i + k} {y = suc (suc (suc (3 * i + k)))}
        (omega arith)

  pub flags_at :
      (es : List Ready) (i : ℕ) (e : Ready)
      → get_elem? es i ≡ some e
      → get_elem? (packed es ++ rest) (3 * i + 0) ≡ some e.events
  flags_at [] i e h = cc
  flags_at (x ∷ es) zero e h = ap (λ (r : Ready). some r.events) (some-inj h)
  flags_at (x ∷ es) (suc i) e h = skips_event x es i 0 ∙ flags_at es i e h

  pub fd_at :
      (es : List Ready) (i : ℕ) (e : Ready)
      → get_elem? es i ≡ some e
      → get_elem? (packed es ++ rest) (3 * i + 1) ≡ some e.fd
  fd_at [] i e h = cc
  fd_at (x ∷ es) zero e h = ap (λ (r : Ready). some r.fd) (some-inj h)
  fd_at (x ∷ es) (suc i) e h = skips_event x es i 1 ∙ fd_at es i e h

-- What a wait leaves in the handler.
abbrev pub filled : EventHandler → List Ready → EventHandler
filled h es = with_events h (packed es ++ behind es h.events)

pub wait-filled :
    (h : EventHandler) (es : List Ready)
    → 3 * length es ≤ length h.events
    → wait (some es) h ≡ ok (filled h es, some (length es))
unfolding wait
wait-filled h es room = simp (store-packed es h.events room)

pub is_closed-filled :
    (h : EventHandler) (es : List Ready) (i : ℕ) (e : Ready)
    → get_elem? es i ≡ some e
    → is_closed (filled h es) i ≡ ok (has_rdhup e.events)
unfolding is_closed word
is_closed-filled h es i e at =
    ap (λ x. word_of x >>= λ flags. ok (has_rdhup flags))
      (ap (get_elem? (packed es ++ behind es h.events)) {x = 3 * i} {y = 3 * i + 0} (omega arith)
        ∙ flags_at (behind es h.events) es i e at)

pub get_fd-filled :
    (h : EventHandler) (es : List Ready) (i : ℕ) (e : Ready)
    → get_elem? es i ≡ some e
    → get_fd (filled h es) i ≡ ok e.fd
unfolding get_fd word
get_fd-filled h es i e at = ap word_of (
    ap (get_elem? (packed es ++ behind es h.events)) {x = suc (3 * i)} {y = 3 * i + 1} (omega arith)
    ∙ fd_at (behind es h.events) es i e at)

-- On a handler as `events_create` makes it, a wait writes past the end of the array exactly where
-- three times the number of events is more than twice `max_clients`.
pub wait_overflows :
    (m : Memory) (max_clients fd : ℕ) (heap : Heap) (es : List Ready)
    → (wait (some es) (created m max_clients fd heap).0 ≡ fault out_of_bounds)
      ↔ (2 * max_clients < 3 * length es)
unfolding wait
wait_overflows m max_clients fd heap es = (
  λ failed. elim (Bool-cases (ltb (2 * max_clients) (3 * length es))) [
    | inl full ↦ ltb→lt (2 * max_clients) (3 * length es) full
    | inr room ↦ absurd (contradiction failed (wait-filled h es (omega (arith, measured, le room))))
  ],
  λ full. rw (store_faults es h.events (omega (arith, measured))) refl,
)
  where
    h : EventHandler
    h = (created m max_clients fd heap).0

    measured : length h.events ≡ 2 * max_clients
    measured = length-pointers max_clients m.event

    le : ltb (2 * max_clients) (3 * length es) ≡ false → 3 * length es ≤ 2 * max_clients
    le room = ltb→le (2 * max_clients) (3 * length es) room

    contradiction :
        {x : EventHandler × Option ℕ}
        → wait (some es) h ≡ fault out_of_bounds
        → wait (some es) h ≡ ok x
        → ⊥
    contradiction failed done = cc
