-- ===== src/Events.antt =====
-- The events of a process, src/events.c, with epoll on a machine of 64 bits, where `struct
-- epoll_event` is packed: an event has 12 bytes, which are three words of 32 bits.
pub mod Wait
pub mod Free
use Prim.Native.Nat.{bit_and, bit_or}
use comfirm_dmarc_report_ser.Common.{
  ℕ, zero, suc, ◌+◌, ◌*◌, ◌/◌, ◌%◌, ◌^◌, Bool, true, false, not, List, [], ◌∷◌, Option, none, some,
  ◌==◌, if◌then◌else◌, length, get_elem?,
}
use comfirm_dmarc_report_ser.Common.Outcome.{Outcome, ok, fault, out_of_bounds, bad_free, ◌>>=◌}

-- `struct epoll_event` as epoll returns it: its flags, and the two words of its data, of which
-- `data.fd` is the first.
pub record Ready : Type 0 where
  pub events : ℕ
  pub fd : ℕ
  pub rest : ℕ

-- The flags of epoll that the code uses: EPOLLIN, EPOLLRDHUP and EPOLLET.
abbrev pub epollin : ℕ
epollin = 1

abbrev pub epollrdhup : ℕ
epollrdhup = 8192

abbrev pub epollet : ℕ
epollet = 2147483648

-- The addresses of what is allocated.
abbrev pub Heap : Type 0
Heap = List ℕ

-- `event_handler`: its own address, that of its array, and the words that the array holds.
pub record EventHandler : Type 0 where
  pub self : ℕ
  pub array : ℕ
  pub fd : ℕ
  pub events : List ℕ

-- The array of pointers of 64 bits, in words: each with its low one first.
abbrev pub pointers : ℕ → (ℕ → ℕ) → List ℕ
pointers zero address = []
pointers (suc n) address =
    address 0 % 2 ^ 32 ∷ address 0 / 2 ^ 32 ∷ pointers n (λ i. address (suc i))

abbrev pub allocated : ℕ → (ℕ → ℕ) → Heap → Heap
allocated zero address heap = heap
allocated (suc n) address heap = address 0 ∷ allocated n (λ i. address (suc i)) heap

-- What `malloc` returns for the handler, its array and each event, and what `epoll_create` returns
-- (`none` is -1).
pub record Memory : Type 0 where
  pub self : ℕ
  pub array : ℕ
  pub event : ℕ → ℕ
  pub epoll_fd : Option ℕ

abbrev pub created : Memory → ℕ → ℕ → Heap → EventHandler × Heap
created m max_clients fd heap = (
  record { self = m.self; array = m.array; fd = fd; events = pointers max_clients m.event },
  allocated max_clients m.event (m.array ∷ m.self ∷ heap),
)

abbrev pub created_with : Memory → ℕ → Heap → Option ℕ → Option (EventHandler × Heap)
created_with m max_clients heap none = none
created_with m max_clients heap (some fd) = some (created m max_clients fd heap)

-- `events_create`, and what is allocated then: nothing where the process exits.
unfoldable pub create : Memory → ℕ → Heap → Option (EventHandler × Heap)
create m max_clients heap = created_with m max_clients heap m.epoll_fd

-- A call of `epoll_ctl`, with the flags of a descriptor that is added.
pub data Control : Type 0 where
  add : ℕ → ℕ → Control
  del : ℕ → Control

-- `events_add_event`, `events_add_event_2` and `events_del_event`: the call, whose failure (-1) is
-- the function's.
unfoldable pub add_event : ℕ → Control
add_event fd = add fd epollin

unfoldable pub add_event_2 : ℕ → Control
add_event_2 fd = add fd (bit_or (bit_or epollin epollet) epollrdhup)

unfoldable pub del_event : ℕ → Control
del_event fd = del fd

-- What epoll writes from the start of the array that it is given.
abbrev pub store : List Ready → List ℕ → Outcome (List ℕ)
store [] words = ok words
store (e ∷ es) (_ ∷ _ ∷ _ ∷ words) = store es words >>= λ rest. ok (e.events ∷ e.fd ∷ e.rest ∷ rest)
store (e ∷ es) _ = fault out_of_bounds

abbrev pub with_events : EventHandler → List ℕ → EventHandler
with_events h words = record h { events = words }

-- `events_wait`, with the events that epoll returns (`none` is -1): their number, or -1.
unfoldable pub wait : Option (List Ready) → EventHandler → Outcome (EventHandler × Option ℕ)
wait none h = ok (h, none)
wait (some es) h = store es h.events >>= λ words. ok (with_events h words, some (length es))

-- A word of the array.
abbrev pub word_of : Option ℕ → Outcome ℕ
word_of none = fault out_of_bounds
word_of (some w) = ok w

unfoldable pub word : EventHandler → ℕ → Outcome ℕ
word h i = word_of (get_elem? h.events i)

-- `events_closed` and `events_get_fd`, which read the array as one of events.
abbrev pub has_rdhup : ℕ → Bool
has_rdhup flags = not (bit_and flags epollrdhup == 0)

unfoldable pub is_closed : EventHandler → ℕ → Outcome Bool
unfolding word
is_closed h num = word h (3 * num) >>= λ flags. ok (has_rdhup flags)

unfoldable pub get_fd : EventHandler → ℕ → Outcome ℕ
unfolding word
get_fd h num = word h (suc (3 * num))

-- Whether an address is allocated, and what is after it is freed.
abbrev pub holds : ℕ → Heap → Bool
holds p [] = false
holds p (q ∷ heap) = if p == q then true else holds p heap

abbrev pub without : ℕ → Heap → Heap
without p [] = []
without p (q ∷ heap) = let rest = without p heap in if p == q then heap else q ∷ rest

-- `free`, which lets NULL be.
unfoldable pub release : ℕ → Heap → Outcome Heap
release p heap =
    if p == 0 then ok heap else if holds p heap then ok (without p heap) else fault bad_free

-- The loop of `events_free`, which reads the array as one of pointers.
unfoldable pub release_events : ℕ → List ℕ → Heap → Outcome Heap
unfolding release
release_events zero words heap = ok heap
release_events (suc n) (low ∷ high ∷ words) heap =
    release (low + high * 2 ^ 32) heap >>= release_events n words
release_events (suc n) _ heap = fault out_of_bounds

-- `events_free`. The array is not freed.
unfoldable pub free : EventHandler → ℕ → Heap → Outcome Heap
unfolding release release_events
free h max_clients heap = release_events max_clients h.events heap >>= release h.self
