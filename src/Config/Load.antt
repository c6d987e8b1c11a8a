-- ===== src/Config/Load.antt =====
-- Reading a configuration file that was written line by line.
use comfirm_dmarc_report_ser.Common.{
  ℕ, ◌+◌, ◌-◌, ◌≤◌, ◌<◌, ◌≡◌, ◌≢◌, refl, sym, ap, ◌∙◌, true, false, List, [], ◌∷◌, ◌++◌,
  append_assoc, some, arith, ltb, lt→ltb, ◌==◌, if◌then◌else◌, length, length-append, Bytes,
  append-nil, Bool-cases, inl, inr, c_string, NoNul,
}
use comfirm_dmarc_report_ser.Common.Int.{ℤ, pos}
use comfirm_dmarc_report_ser.Common.Outcome.{Outcome, ok, ◌>>=◌}
use comfirm_dmarc_report_ser.Config.{
  Config, save_value, key_size, line_size, Line, put_key, end_key, put_value, put, scan, lines,
  load_line, load_lines, load,
}

-- A setting: a key, and a value of at least one byte.
pub record Setting : Type 0 where
  pub key : Bytes
  pub lead : ℕ
  pub more : Bytes

-- Its line of the file.
abbrev pub line_of : Setting → Bytes
line_of s = s.key ++ 61 ∷ s.lead ∷ (s.more ++ 10 ∷ [])

abbrev pub file_text : List Setting → Bytes
file_text [] = []
file_text (s ∷ ss) = line_of s ++ file_text ss

-- Bytes that stand for themselves in a value: no NUL, no `#`, no white space but the space.
abbrev pub ValueByte : ℕ → Type 0
ValueByte c = (c ≢ 0) × (c ≢ 9) × (c ≢ 10) × (c ≢ 13) × (c ≢ 35)

abbrev pub AllValue : Bytes → Type 0
AllValue [] = Unit
AllValue (c ∷ cs) = ValueByte c × AllValue cs

-- And in a key: no space and no `=` either.
abbrev pub KeyByte : ℕ → Type 0
KeyByte c = ValueByte c × (c ≢ 32) × (c ≢ 61)

abbrev pub AllKey : Bytes → Type 0
AllKey [] = Unit
AllKey (c ∷ cs) = KeyByte c × AllKey cs

pub record IsSetting (s : Setting) : Type 0 where
  pub key_bytes : AllKey s.key
  pub some_key : 0 < length s.key
  pub key_fits : length s.key < key_size
  pub lead_byte : KeyByte s.lead
  pub more_bytes : AllValue s.more
  pub line_fits : length (line_of s) < line_size

abbrev pub AllSettings : List Setting → Type 0
AllSettings [] = Unit
AllSettings (s ∷ ss) = IsSetting s × AllSettings ss

-- The value as it is read: the loop leaves out every `=`.
abbrev pub stripped : Bytes → Bytes
stripped [] = []
stripped (c ∷ cs) = if c == 61 then stripped cs else c ∷ stripped cs

pub scan-step :
    (c : ℕ) (cs : Bytes) (l l' : Line) → c ≢ 35 → put c l ≡ ok l' → scan (c ∷ cs) l ≡ scan cs l'
unfolding scan
scan-step c cs l l' h e = rw e (ground arith)

scan-key :
    (k rest : Bytes) (l : Line)
    → AllKey k
    → l.is_key ≡ true
    → length l.key + length k ≤ key_size
    → scan (k ++ rest) l ≡ scan rest (record l { key = l.key ++ k })
unfolding put put_key
scan-key [] rest l h b n =
    ap (λ (t : Bytes). scan rest (record l { key = t })) (sym (append-nil l.key))
scan-key (c ∷ k) rest l h b n =
    scan-step c (k ++ rest) l (record l { key = l.key ++ c ∷ [] }) h.0.0.4 (ground arith)
    ∙ scan-key k rest (record l { key = l.key ++ c ∷ [] }) h.1 b
        (omega (arith, length-append l.key (c ∷ [])))
    ∙ ap (λ (t : Bytes). scan rest (record l { key = t })) (append_assoc l.key (c ∷ []) k)

scan-value :
    (v rest : Bytes) (l : Line)
    → AllValue v
    → l.is_key ≡ false
    → 0 < length l.value
    → scan (v ++ rest) l ≡ scan rest (record l { value = l.value ++ stripped v })
unfolding put put_value end_key
scan-value [] rest l h b n =
    ap (λ (t : Bytes). scan rest (record l { value = t })) (sym (append-nil l.value))
scan-value (c ∷ v) rest l h b n = elim (Bool-cases (c == 61)) [
  | inl equals ↦
      simp equals (scan-step c (v ++ rest) l l h.0.4 (ground arith) ∙ scan-value v rest l h.1 b n)
  | inr other ↦ simp other (
      scan-step c (v ++ rest) l (record l { value = l.value ++ c ∷ [] }) h.0.4 (ground arith)
      ∙ scan-value v rest (record l { value = l.value ++ c ∷ [] }) h.1 b
          (omega (arith, length-append l.value (c ∷ [])))
      ∙ ap (λ (t : Bytes). scan rest (record l { value = t }))
          (append_assoc l.value (c ∷ []) (stripped v)))
]

lines-line :
    (l rest : Bytes) (room : ℕ)
    → AllValue l
    → length l < room
    → lines room (l ++ 10 ∷ rest) ≡ (l ++ 10 ∷ []) ∷ lines (line_size - 1) rest
unfolding lines
lines-line [] rest room h n = refl
lines-line (c ∷ l) rest room h n = ground (arith, lines-line l rest (room - 1))

pub c_string-NoNul : (s : Bytes) → NoNul s → c_string s ≡ s
c_string-NoNul [] h = refl
c_string-NoNul (c ∷ s) h = ground (arith, c_string-NoNul s)

value-NoNul : (v rest : Bytes) → AllValue v → NoNul rest → NoNul (v ++ rest)
value-NoNul [] rest h k = k
value-NoNul (c ∷ v) rest h k = (h.0.0, value-NoNul v rest h.1 k)

key-AllValue : (k rest : Bytes) → AllKey k → AllValue rest → AllValue (k ++ rest)
key-AllValue [] rest h r = r
key-AllValue (c ∷ k) rest h r = (h.0.0, key-AllValue k rest h.1 r)

-- The line of a setting up to its end.
abbrev text_of : Setting → Bytes
text_of s = s.key ++ 61 ∷ s.lead ∷ s.more

line_of-text : (s : Setting) (rest : Bytes) → line_of s ++ rest ≡ text_of s ++ 10 ∷ rest
line_of-text s rest = simp append_assoc

text-AllValue : (s : Setting) → IsSetting s → AllValue (text_of s)
text-AllValue s h =
    key-AllValue s.key (61 ∷ s.lead ∷ s.more) h.key_bytes
      (ground arith, (h.lead_byte.0, h.more_bytes))

scan-line :
    (s : Setting)
    → IsSetting s
    → scan (line_of s) (record { key = []; value = []; is_key = true })
      ≡ ok (record { key = s.key; value = s.lead ∷ stripped s.more; is_key = false })
unfolding scan put put_key put_value end_key
scan-line s h =
    scan-key s.key (61 ∷ s.lead ∷ (s.more ++ 10 ∷ []))
      (record { key = []; value = []; is_key = true }) h.key_bytes refl (omega (arith, h.key_fits))
    ∙ scan-step 61 (s.lead ∷ (s.more ++ 10 ∷ []))
        (record { key = s.key; value = []; is_key = true }) keyed (ground arith)
        (ground (arith, h.key_fits))
    ∙ scan-step s.lead (s.more ++ 10 ∷ []) keyed led h.lead_byte.0.4 (ground (arith, h.lead_byte))
    ∙ scan-value s.more (10 ∷ []) led h.more_bytes refl (omega arith)
  where
    keyed : Line
    keyed = record { key = s.key; value = []; is_key = false }

    led : Line
    led = record keyed { value = s.lead ∷ [] }

lines-setting :
    (s : Setting) (rest : Bytes)
    → IsSetting s
    → lines (line_size - 1) (line_of s ++ rest) ≡ line_of s ∷ lines (line_size - 1) rest
lines-setting s rest h =
    ap (lines (line_size - 1)) (line_of-text s rest)
    ∙ lines-line (text_of s) rest (line_size - 1) (text-AllValue s h) short
    ∙ ap (λ (l : Bytes). l ∷ lines (line_size - 1) rest) (sym whole)
  where
    whole : line_of s ≡ text_of s ++ 10 ∷ []
    whole = sym (append-nil (line_of s)) ∙ line_of-text s []

    short : length (text_of s) < line_size - 1
    short = omega (arith, ap length whole, length-append (text_of s) (10 ∷ []), h.line_fits)

module _ (atoi : Bytes → ℤ) where
  -- The settings one after the other, each with its value as it is read.
  abbrev pub save_all : List Setting → Config → Config
  save_all [] conf = conf
  save_all (s ∷ ss) conf = save_all ss (save_value atoi s.key (s.lead ∷ stripped s.more) conf)

  load_line-setting :
      (s : Setting) (conf : Config)
      → IsSetting s
      → load_line atoi (line_of s) conf ≡ ok (save_value atoi s.key (s.lead ∷ stripped s.more) conf)
  unfolding load_line
  load_line-setting s conf h =
      rw
        (c_string-NoNul (line_of s) (
          rw (sym (append-nil (line_of s))) (
            rw (line_of-text s [])
              (value-NoNul (text_of s) (10 ∷ []) (text-AllValue s h) (ground arith)))))
        (rw long (rw (scan-line s h) (ground (arith, h.some_key))))
    where
      long : ltb 1 (length (line_of s)) ≡ true
      long =
          lt→ltb 1 (length (line_of s))
            (omega (arith, length-append s.key (61 ∷ s.lead ∷ (s.more ++ 10 ∷ [])), h.some_key))

  load_lines-settings :
      (ss : List Setting) (conf : Config)
      → AllSettings ss
      → load_lines atoi (lines (line_size - 1) (file_text ss)) conf ≡ ok (save_all ss conf)
  unfolding load_lines lines
  load_lines-settings [] conf h = refl
  load_lines-settings (s ∷ ss) conf h =
      ap (λ (ls : List Bytes). load_lines atoi ls conf) (lines-setting s (file_text ss) h.0)
      ∙ ap
          (λ (o : Outcome Config).
            o >>= λ c. load_lines atoi (lines (line_size - 1) (file_text ss)) c)
          (load_line-setting s conf h.0)
      ∙ load_lines-settings ss (save_value atoi s.key (s.lead ∷ stripped s.more) conf) h.1

  -- The file of these settings is read as the calls of `config_save_value` for them, in their order.
  pub load-save_all :
      (ss : List Setting) (conf : Config)
      → AllSettings ss
      → load atoi (some (file_text ss)) conf ≡ ok (pos 0, save_all ss conf)
  unfolding load
  load-save_all ss conf h = rw (load_lines-settings ss conf h) refl
