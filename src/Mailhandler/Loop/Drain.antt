-- ===== src/Mailhandler/Loop/Drain.antt =====
-- What waits in the queue is reported, in its order.
use comfirm_dmarc_report_ser.Common.{
  ℕ, zero, suc, ◌+◌, ◌<◌, ◌≤◌, ◌≡◌, refl, sym, ap, ap₂, ◌∙◌, Bool, true, false, List, [], ◌∷◌, ◌++◌,
  Option, none, some, arith, length, Bytes, get_or, append-nil, append_assoc, Bool-cases, inl, inr,
}
use comfirm_dmarc_report_ser.Common.Outcome.{Outcome, ok, fault, use_after_free, ◌>>=◌}
use comfirm_dmarc_report_ser.Data.{Mail}
use comfirm_dmarc_report_ser.Mailhandler.Reports.{Services, report}
use comfirm_dmarc_report_ser.Mailhandler.Loop.{Handler, post, attend, react, turn, turns}
use comfirm_dmarc_report_ser.Queue.{Ref}
use comfirm_dmarc_report_ser.Queue.Inv.{IsValid, popped, popped-IsValid}
use comfirm_dmarc_report_ser.Queue.Refine.{
  contents, contents-popped, length-contents, dequeue-some, dequeue-empty, no_mail,
}

-- The report of each mail comes to an end, with these data to post, if any.
abbrev pub Reported : Services → List Mail → List (Option Bytes) → Type 0
Reported lib [] [] = Unit
Reported lib [] (_ ∷ _) = ⊥
Reported lib (_ ∷ _) [] = ⊥
Reported lib (m ∷ ms) (j ∷ js) = (report lib m ≡ ok j) × Reported lib ms js

-- The data to post, in their order.
abbrev pub data_of : List (Option Bytes) → List Bytes
data_of [] = []
data_of (none ∷ js) = data_of js
data_of (some json ∷ js) = json ∷ data_of js

-- For how many of them there is a handle.
abbrev pub handles : Bool → ℕ
handles false = 0
handles true = 1

-- Whether the handle is left after these.
abbrev pub handle_left : Bool → List Bytes → Bool
handle_left curl [] = curl
handle_left curl (_ ∷ _) = false

-- What they leave of the handler.
abbrev pub posted_all : Handler → Ref → List Bytes → Handler
posted_all h q ds = record h { queue = q; posted = h.posted ++ ds; curl = handle_left h.curl ds }

head-inj : {x y : Mail} {xs ys : List Mail} → x ∷ xs ≡ y ∷ ys → x ≡ y
head-inj h = cc

tail-inj : {x y : Mail} {xs ys : List Mail} → x ∷ xs ≡ y ∷ ys → xs ≡ ys
tail-inj h = cc

-- A queue at rest with these mails.
pub record Holding (q : Ref) (ms : List Mail) : Type 0 where
  pub valid : IsValid q
  pub free : 0 < q.sem
  pub mails : contents q ≡ ms

-- An empty queue is waited for.
turn-empty :
    (lib : Services) (h : Handler)
    → Holding h.queue []
    → turn lib h ≡ ok (record h { waits = h.waits + 1 })
unfolding turn react
turn-empty lib h hold = rw (dequeue-empty hold.valid hold.free nothing) refl
  where
    nothing : h.queue.shared.message_count ≡ 0
    nothing = omega (arith, length-contents h.queue, ap (λ (l : List Mail). length l) hold.mails)

-- A round on a queue with a mail is its report.
pub turn-next :
    (lib : Services) (h : Handler) (m : Mail) (ms : List Mail)
    → Holding h.queue (m ∷ ms)
    → (turn lib h ≡ (report lib m >>= λ j. post (record h { queue = popped h.queue }) j))
      × Holding (popped h.queue) ms
unfolding turn react attend
turn-next lib h m ms hold = (
  rw (dequeue-some hold.valid hold.free something) (simp oldest refl),
  record { valid = popped-IsValid hold.valid something; free = hold.free; mails = tail-inj both },
)
  where
    something : 0 < h.queue.shared.message_count
    something = omega (arith, length-contents h.queue, ap (λ (l : List Mail). length l) hold.mails)

    both :
        get_or h.queue.slots h.queue.shared.read_offset no_mail ∷ contents (popped h.queue) ≡ m ∷ ms
    both = sym (contents-popped hold.valid something) ∙ hold.mails

    oldest : get_or h.queue.slots h.queue.shared.read_offset no_mail ≡ m
    oldest = head-inj both

pub turn-some :
    (lib : Services) (h : Handler) (m : Mail) (ms : List Mail) (j : Option Bytes)
    → Holding h.queue (m ∷ ms)
    → report lib m ≡ ok j
    → (turn lib h ≡ post (record h { queue = popped h.queue }) j) × Holding (popped h.queue) ms
turn-some lib h m ms j hold e =
    let (turned, left) = turn-next lib h m ms hold in (turned ∙ simp e refl, left)

-- Once the queue is empty, the loop only waits.
turns-empty :
    (lib : Services) (k : ℕ) (h : Handler)
    → Holding h.queue []
    → turns lib k h ≡ ok (record h { waits = h.waits + k })
unfolding turns
turns-empty lib zero h hold =
    ap (λ (n : ℕ). ok (record h { waits = n })) {x = h.waits} {y = h.waits + 0} (omega arith)
turns-empty lib (suc k) h hold = simp (turn-empty lib h hold) (
    turns-empty lib k (record h { waits = h.waits + 1 }) hold
    ∙ ap (λ (n : ℕ). ok (record h { waits = n })) {x = h.waits + 1 + k} {y = h.waits + suc k}
        (omega arith))

-- The first round of several.
pub turns-suc :
    (lib : Services) (n k : ℕ) (h : Handler)
    → turns lib (suc n + k) h ≡ (turn lib h >>= λ h'. turns lib (n + k) h')
unfolding turns
turns-suc lib n k h = ap (λ (i : ℕ). turns lib i h) {x = suc n + k} {y = suc (n + k)} (omega arith)

handle_left-false : (ds : List Bytes) → handle_left false ds ≡ false
handle_left-false [] = refl
handle_left-false (_ ∷ _) = refl

post-there :
    (h : Handler) (json : Bytes)
    → h.curl ≡ true
    → post h (some json) ≡ ok (record h { posted = h.posted ++ json ∷ []; curl = false })
post-there h json there = simp there refl

-- Posting one and then the others.
same_handler :
    (h : Handler) (q : Ref) (json : Bytes) (ds : List Bytes) (waits : ℕ)
    → ok (record {
      queue = q;
      posted = (h.posted ++ json ∷ []) ++ ds;
      waits = waits;
      curl = handle_left false ds;
    })
      ≡ ok (record (posted_all h q (json ∷ ds)) { waits = waits })
same_handler h q json ds waits =
    ap₂
      (λ (p : List Bytes) (c : Bool).
        ok (record { queue = q; posted = p; waits = waits; curl = c }))
      (append_assoc h.posted (json ∷ []) ds) (handle_left-false ds)

-- Every mail that waits is taken and reported, oldest first: after one round for each, and any
-- number `k` of rounds more, their data was handed to curl behind what was posted before, the queue
-- is empty, and the loop has waited in those `k` rounds only. The queue is valid and its semaphore
-- free, the report of each mail comes to an end, there is a handle for all data, and no other mail
-- arrives meanwhile.
pub drains :
    (lib : Services) (ms : List Mail) (js : List (Option Bytes)) (k : ℕ) (h : Handler)
    → Holding h.queue ms
    → Reported lib ms js
    → length (data_of js) ≤ handles h.curl
    → (q : Ref) × (turns lib (length ms + k) h
        ≡ ok (record (posted_all h q (data_of js)) { waits = h.waits + k }))
      × Holding q []
drains lib [] [] k h hold r few = (
  h.queue,
  ap (λ (n : ℕ). turns lib n h) {x = 0 + k} {y = k} (omega arith)
      ∙ turns-empty lib k h hold
      ∙ ap (λ (p : List Bytes). ok (record h { posted = p; waits = h.waits + k }))
          (sym (append-nil h.posted)),
  hold,
)
drains lib [] (j ∷ js) k h hold r few = elim r [ ]
drains lib (m ∷ ms) [] k h hold r few = elim r [ ]
drains lib (m ∷ ms) (none ∷ js) k h hold r few =
    let (turned, left) = turn-some lib h m ms none hold r.0 in
    let (q, done, empty) = drains lib ms js k (record h { queue = popped h.queue }) left r.1 few in
    (q, turns-suc lib (length ms) k h ∙ simp turned done, empty)
drains lib (m ∷ ms) (some json ∷ js) k h hold r few = elim (Bool-cases h.curl) [
  | inl there ↦
      let (turned, left) = turn-some lib h m ms (some json) hold r.0 in
      let (q, done, empty) =
        drains lib ms js k
          (record h { queue = popped h.queue; posted = h.posted ++ json ∷ []; curl = false }) left
          r.1 (ground (arith, few, there)) in
      (
        q,
        turns-suc lib (length ms) k h
            ∙ ap (λ (o : Outcome Handler). o >>= λ h'. turns lib (length ms + k) h')
                (turned ∙ post-there (record h { queue = popped h.queue }) json there)
            ∙ done
            ∙ same_handler h q json (data_of js) (h.waits + k),
        empty,
      )
  | inr gone ↦ absurd (ground (arith, few, gone))
]

-- Where there are more data than handles, the loop uses the handle after it was freed.
pub overdraws :
    (lib : Services) (ms : List Mail) (js : List (Option Bytes)) (k : ℕ) (h : Handler)
    → Holding h.queue ms
    → Reported lib ms js
    → handles h.curl < length (data_of js)
    → turns lib (length ms + k) h ≡ fault use_after_free
overdraws lib [] [] k h hold r many = absurd (omega arith)
overdraws lib [] (j ∷ js) k h hold r many = elim r [ ]
overdraws lib (m ∷ ms) [] k h hold r many = elim r [ ]
overdraws lib (m ∷ ms) (none ∷ js) k h hold r many =
    let (turned, left) = turn-some lib h m ms none hold r.0 in
    turns-suc lib (length ms) k h
    ∙ simp turned (overdraws lib ms js k (record h { queue = popped h.queue }) left r.1 many)
overdraws lib (m ∷ ms) (some json ∷ js) k h hold r many = elim (Bool-cases h.curl) [
  | inl there ↦
      let (turned, left) = turn-some lib h m ms (some json) hold r.0 in
      turns-suc lib (length ms) k h
      ∙ simp (turned, there)
          (overdraws lib ms js k
            (record h { queue = popped h.queue; posted = h.posted ++ json ∷ []; curl = false }) left
            r.1 (ground (arith, many, there)))
  | inr gone ↦
      let (turned, left) = turn-some lib h m ms (some json) hold r.0 in
      turns-suc lib (length ms) k h ∙ simp (turned, gone) refl
]
