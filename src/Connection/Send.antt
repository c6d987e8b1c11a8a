-- ===== src/Connection/Send.antt =====
-- Sending the response, in one call or in chunks.
use comfirm_dmarc_report_ser.Common.{
  ℕ, zero, suc, ◌+◌, ◌≤◌, ◌<◌, ◌≡◌, refl, sym, ap, ◌∙◌, Bool, true, false, List, [], ◌∷◌, ◌++◌,
  Option, none, some, inl, inr, arith, leb, leb→le, append-nil, append_assoc, if◌then◌else◌, length,
  take, drop, length-take, length-drop, take-append-drop, Bytes, Bool-cases,
}
use comfirm_dmarc_report_ser.Connection.{Chunk}

-- The loop over a response of more than `write_buffer_size` bytes, from the bytes not sent yet, with
-- fuel: the chunks handed to `send`, and whether all of them were taken. `none` means that the fuel
-- ran out.
unfoldable pub chunks : ℕ → ℕ → (ℕ → Bool) → ℕ → Bytes → Option (List Chunk × Bool)
chunks zero size works offset rest = none
chunks (suc fuel) size works offset [] = some ([], true)
chunks (suc fuel) size works offset (c ∷ cs) =
    let n = if leb size (length (c ∷ cs)) then size else length (c ∷ cs) in
    let this : Chunk = record { bytes = take n (c ∷ cs); more = leb size (length (c ∷ cs)) } in
    let later = chunks fuel size works (offset + n) (drop n (c ∷ cs)) in
    if works offset
    then elim later [ none ↦ none | some (sent, taken) ↦ some (this ∷ sent, taken) ]
    else some (this ∷ [], false)

-- Both ways: the small response is sent by one call, with no flag.
unfoldable pub send_all : ℕ → (ℕ → Bool) → Bytes → Option (List Chunk × Bool)
send_all size works text =
    if leb (length text) size
    then some (record { bytes = text; more = false } ∷ [], works 0)
    else chunks (suc (length text)) size works 0 text

-- The bytes of the chunks, one after the other.
abbrev pub joined : List Chunk → Bytes
joined [] = []
joined (c ∷ cs) = c.bytes ++ joined cs

pub joined-append : (a b : List Chunk) → joined (a ++ b) ≡ joined a ++ joined b
joined-append [] b = refl
joined-append (c ∷ a) b =
    ap (λ (t : Bytes). c.bytes ++ t) (joined-append a b)
    ∙ sym (append_assoc c.bytes (joined a) (joined b))

-- No chunk is longer than `size`.
abbrev pub AllWithin : ℕ → List Chunk → Type 0
AllWithin size [] = Unit
AllWithin size (c ∷ cs) = (length c.bytes ≤ size) × AllWithin size cs

-- The loop ends: with the fuel that `send_all` gives it never runs out, if a chunk may hold a byte.
chunks_end :
    (fuel size : ℕ) (works : ℕ → Bool) (offset : ℕ) (text : Bytes)
    → 0 < size
    → length text < fuel
    → (r : List Chunk × Bool) × (chunks fuel size works offset text ≡ some r)
      × (r.1 ≡ true → joined r.0 ≡ text)
      × AllWithin size r.0
      × (((i : ℕ) → works i ≡ true) → r.1 ≡ true)
unfolding chunks
chunks_end zero size works offset text h k = absurd (omega arith)
chunks_end (suc fuel) size works offset [] h k = (_, refl, (λ _. refl), tt, (λ _. refl))
chunks_end (suc fuel) size works offset (c ∷ cs) h k = elim (Bool-cases (works offset)) [
  | inl taken ↦
      (let (r, e, whole, within, all_taken) =
          chunks_end fuel size works (offset + n) (drop n (c ∷ cs)) h
            (omega (arith, length-drop n (c ∷ cs), some_bytes)) in
        (
          (this ∷ r.0, r.1),
          simp (taken, e),
          (λ t. ap (λ (b : Bytes). take n (c ∷ cs) ++ b) (whole t) ∙ take-append-drop n (c ∷ cs)),
          (short, within),
          all_taken,
        ))
  | inr refused ↦
      ((this ∷ [], false), simp refused, (λ f. cc), (short, tt), (λ all. cc (all offset)))
]
  where
    n : ℕ
    n = if leb size (length (c ∷ cs)) then size else length (c ∷ cs)

    this : Chunk
    this = record { bytes = take n (c ∷ cs); more = leb size (length (c ∷ cs)) }

    some_bytes : (0 < n) × (n ≤ length (c ∷ cs))
    some_bytes = ground arith

    short : length (take n (c ∷ cs)) ≤ size
    short = ground (arith, length-take n (c ∷ cs))

pub send_all_lem :
    (size : ℕ) (works : ℕ → Bool) (text : Bytes)
    → 0 < size
    → (r : List Chunk × Bool) × (send_all size works text ≡ some r)
      × (r.1 ≡ true → joined r.0 ≡ text)
      × AllWithin size r.0
      × (((i : ℕ) → works i ≡ true) → r.1 ≡ true)
unfolding send_all
send_all_lem size works text h = elim (Bool-cases (leb (length text) size)) [
  | inl small ↦ (
    (record { bytes = text; more = false } ∷ [], works 0),
    simp small,
    (λ _. append-nil text),
    (leb→le _ _ small, tt),
    (λ all. all 0),
  )
  | inr large ↦
      (let (r, e, whole, within, all_taken) =
          chunks_end (suc (length text)) size works 0 text h (omega arith) in
        (r, simp large e, whole, within, all_taken))
]

-- Whether the calls of `send` work or not, sending a response ends, for a write buffer of at least
-- one byte, and no piece is longer than the write buffer.
pub send_all_ends :
    (size : ℕ) (works : ℕ → Bool) (text : Bytes)
    → 0 < size
    → (r : List Chunk × Bool) × (send_all size works text ≡ some r) × AllWithin size r.0
send_all_ends size works text h =
    let (r, e, _, within, _) = send_all_lem size works text h in (r, e, within)

-- Where no `send` fails and a piece may hold a byte: all pieces are handed to `send`, and one after
-- the other they are the response.
pub send_all-taken :
    (size : ℕ) (works : ℕ → Bool) (text : Bytes)
    → 0 < size
    → ((i : ℕ) → works i ≡ true)
    → (sent : List Chunk) × (send_all size works text ≡ some (sent, true)) × (joined sent ≡ text)
send_all-taken size works text h all =
    let (r, e, whole, within, all_taken) = send_all_lem size works text h in
    (r.0, e ∙ ap (λ (b : Bool). some (r.0, b)) (all_taken all), whole (all_taken all))
