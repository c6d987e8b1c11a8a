-- ===== src/Mailhandler/Encode.antt =====
-- `base64_encode` of src/mailhandler/base64.c, which takes the line breaks out in place. The text
-- that OpenSSL writes is an argument.
use mathlib.Core.Path.{subst}
use comfirm_dmarc_report_ser.Common.{
  ℕ, zero, suc, ◌+◌, ◌<◌, ◌≡◌, refl, sym, ap, ap₂, ◌∙◌, Bool, true, false, ◌||◌, [], ◌∷◌, ◌++◌,
  append_assoc, append-nil, ◌≤◌, set-append, get_or-append, arith, ◌==◌, if◌then◌else◌, length,
  length-append, get_or, set, Bytes, c_string, NoNul, c_string-terminated,
}
use comfirm_dmarc_report_ser.Common.Outcome.{Outcome, ok, fault, out_of_bounds}
use comfirm_dmarc_report_ser.Mailhandler.Text.{unwrap}

-- The data less its last byte, with a NUL in its place.
abbrev pub terminated : ℕ → Bytes → Bytes
terminated c [] = 0 ∷ []
terminated c (d ∷ ds) = c ∷ terminated d ds

abbrev pub is_break : ℕ → Bool
is_break c = c == 13 || c == 10

-- The body of the loop at `i`, on `cur` and the buffer.
unfoldable pub move : ℕ → ℕ × Bytes → ℕ × Bytes
move i (cur, buff) =
    let c = get_or buff i 0 in if is_break c then (cur, buff) else (suc cur, set buff cur c)

-- The loop, with `n` bytes left.
unfoldable pub compact : ℕ → ℕ → ℕ × Bytes → ℕ × Bytes
unfolding move
compact zero i s = s
compact (suc n) i s = compact n (suc i) (move i s)

abbrev pub closed : ℕ × Bytes → Bytes
closed (cur, buff) = set buff cur 0

unfoldable pub without_breaks : Bytes → Bytes
unfolding compact
without_breaks buff = closed (compact (length (c_string buff)) 0 (0, buff))

-- `base64_encode`, on what the BIO holds: the buffer that is returned. Of an empty one, as many bytes
-- as the largest number has are copied.
unfoldable pub base64_encode : Bytes → Outcome Bytes
unfolding without_breaks
base64_encode [] = fault out_of_bounds
base64_encode (c ∷ cs) = ok (without_breaks (terminated c cs))

-- The buffer once the loop went over `rest`: those bytes of it that stay stand behind `done`.
record Compacted (done rest tail : Bytes) (s : ℕ × Bytes) : Type 0 where
  junk : Bytes
  cur : s.0 ≡ length (done ++ unwrap rest)
  buff : s.1 ≡ (done ++ unwrap rest) ++ junk
  room : length tail ≤ length junk

got :
    (done gap more : Bytes) (c i : ℕ) (buff : Bytes)
    → i ≡ length done + length gap
    → buff ≡ done ++ (gap ++ c ∷ more)
    → get_or buff i 0 ≡ c
got done gap more c i buff ei eb =
    ap₂ (λ (b : Bytes) (j : ℕ). get_or b j 0) (eb ∙ sym (append_assoc done gap (c ∷ more)))
      (ei ∙ sym (length-append done gap))
    ∙ get_or-append (done ++ gap) more c 0

-- A byte that stays overwrites the first of the gap, which goes on behind it.
record Kept (done gap more : Bytes) (c : ℕ) (buff : Bytes) : Type 0 where
  gap' : Bytes
  same : length gap' ≡ length gap
  shape : buff ≡ (done ++ c ∷ []) ++ (gap' ++ more)

set-Kept :
    (done gap more : Bytes) (c : ℕ)
    → Kept done gap more c (set (done ++ (gap ++ c ∷ more)) (length done) c)
set-Kept done [] more c = record {
  gap' = [];
  same = refl;
  shape = set-append done more c c ∙ sym (append_assoc done (c ∷ []) more);
}
set-Kept done (g ∷ gap) more c = record {
  gap' = gap ++ c ∷ [];
  same = omega (arith, length-append gap (c ∷ []));
  shape =
      set-append done (gap ++ c ∷ more) c g
      ∙ ap (λ (x : Bytes). done ++ c ∷ x) (sym (append_assoc gap (c ∷ []) more))
      ∙ sym (append_assoc done (c ∷ []) ((gap ++ c ∷ []) ++ more));
}

past_break :
    (done cs tail : Bytes) (c : ℕ) (s : ℕ × Bytes)
    → is_break c ≡ true
    → Compacted done cs tail s
    → Compacted done (c ∷ cs) tail s
past_break done cs tail c s stop r = record {
  junk = r.junk;
  cur = rw stop r.cur;
  buff = rw stop r.buff;
  room = r.room;
}

past_kept :
    (done cs tail : Bytes) (c : ℕ) (s : ℕ × Bytes)
    → is_break c ≡ false
    → Compacted (done ++ c ∷ []) cs tail s
    → Compacted done (c ∷ cs) tail s
past_kept done cs tail c s stays r = record {
  junk = r.junk;
  cur = rw stays (r.cur ∙ ap length (append_assoc done (c ∷ []) (unwrap cs)));
  buff =
      rw stays (r.buff ∙ ap (λ (x : Bytes). x ++ r.junk) (append_assoc done (c ∷ []) (unwrap cs)));
  room = r.room;
}

compact-Compacted :
    (rest done gap tail : Bytes) (i cur : ℕ) (buff : Bytes)
    → i ≡ length done + length gap
    → cur ≡ length done
    → buff ≡ done ++ (gap ++ (rest ++ tail))
    → Compacted done rest tail (compact (length rest) i (cur, buff))
unfolding compact move
compact-Compacted [] done gap tail i cur buff ei ec eb = record {
  junk = gap ++ tail;
  cur = rw (append-nil, ec) refl;
  buff = rw (append-nil, eb) refl;
  room = omega (arith, length-append gap tail);
}
compact-Compacted (c ∷ cs) done gap tail i cur buff ei ec eb =
    let k = set-Kept done gap (cs ++ tail) c in
    go (is_break c) refl
      (compact-Compacted cs done (gap ++ c ∷ []) tail (suc i) cur buff
        (omega (arith, ei, length-append gap (c ∷ []))) ec
        (eb ∙ ap (λ (x : Bytes). done ++ x) (sym (append_assoc gap (c ∷ []) (cs ++ tail)))))
      (compact-Compacted cs (done ++ c ∷ []) k.gap' tail (suc i) (suc cur) (set buff cur c)
        (omega (arith, ei, length-append done (c ∷ []), k.same))
        (omega (arith, ec, length-append done (c ∷ [])))
        (ap₂ (λ (b : Bytes) (j : ℕ). set b j c) eb ec ∙ k.shape))
  where
    at : get_or buff i 0 ≡ c
    at = got done gap (cs ++ tail) c i buff ei eb

    goal : ℕ × Bytes → Type 0
    goal s = Compacted done (c ∷ cs) tail (compact (length cs) (suc i) s)

    go :
        (b : Bool)
        → is_break c ≡ b
        → Compacted done cs tail (compact (length cs) (suc i) (cur, buff))
        → Compacted (done ++ c ∷ []) cs tail (compact (length cs) (suc i) (suc cur, set buff cur c))
        → goal (move i (cur, buff))
    go true stop skipped kept =
        subst goal {x = (cur, buff)} {y = move i (cur, buff)} (rw (at, stop) refl)
          (past_break done cs tail c _ stop skipped)
    go false stays skipped kept =
        subst goal {x = (suc cur, set buff cur c)} {y = move i (cur, buff)} (rw (at, stays) refl)
          (past_kept done cs tail c _ stays kept)

unwrap-NoNul : (s : Bytes) → NoNul s → NoNul (unwrap s)
unwrap-NoNul [] h = tt
unwrap-NoNul (c ∷ cs) h = ground (arith, unwrap-NoNul cs h.1)

-- The text behind which the loop puts its NUL.
closed_text :
    (text junk : Bytes)
    → NoNul text
    → 0 < length junk
    → c_string (set (text ++ junk) (length text) 0) ≡ text
closed_text text [] h some_room = absurd (omega arith)
closed_text text (d ∷ junk) h some_room =
    ap c_string (set-append text junk 0 d) ∙ c_string-terminated text junk h

without_breaks_lem :
    (text tail : Bytes) → NoNul text → c_string (without_breaks (text ++ 0 ∷ tail)) ≡ unwrap text
unfolding without_breaks
without_breaks_lem text tail h =
    let r =
      compact-Compacted text [] [] (0 ∷ tail) 0 0 (text ++ 0 ∷ tail) (omega arith) refl refl in
    ap (λ (s : Bytes). c_string (closed (compact (length s) 0 (0, text ++ 0 ∷ tail))))
      (c_string-terminated text tail h)
    ∙ ap₂ (λ (n : ℕ) (b : Bytes). c_string (set b n 0)) r.cur r.buff
    ∙ closed_text (unwrap text) r.junk (unwrap-NoNul text h) (omega (arith, r.room))

terminated_lem : (s : Bytes) (c last : ℕ) → terminated c (s ++ last ∷ []) ≡ (c ∷ s) ++ 0 ∷ []
terminated_lem [] c last = refl
terminated_lem (d ∷ s) c last = ap (◌∷◌ c) (terminated_lem s d last)

base64_encode-terminated :
    (text : Bytes) (last : ℕ)
    → base64_encode (text ++ last ∷ []) ≡ ok (without_breaks (text ++ 0 ∷ []))
unfolding base64_encode
base64_encode-terminated [] last = refl
base64_encode-terminated (c ∷ text) last =
    ap (λ (b : Bytes). ok (without_breaks b)) (terminated_lem text c last)

-- Where OpenSSL writes a text without a NUL, and a last byte behind it: `base64_encode` returns that
-- text less its line breaks.
pub base64_encode_lem :
    (text : Bytes) (last : ℕ)
    → NoNul text
    → (r : Bytes) × (base64_encode (text ++ last ∷ []) ≡ ok r) × (c_string r ≡ unwrap text)
base64_encode_lem text last h = (
  without_breaks (text ++ 0 ∷ []),
  base64_encode-terminated text last,
  without_breaks_lem text [] h,
)
