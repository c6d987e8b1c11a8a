-- ===== src/Request/Headers.antt =====
-- `request_parse_data`: the header lines and the body of a mail.
pub mod Arrays
pub mod Safe
pub mod Print
pub mod Line
pub mod Parse
pub mod Overflow
use comfirm_dmarc_report_ser.Common.{
  ℕ, zero, suc, ◌+◌, ◌-◌, Bool, true, false, not, List, [], ◌∷◌, ◌++◌, Option, none, some, ltb, leb,
  ◌==◌, ◌&&◌, ◌||◌, if◌then◌else◌, length, drop, set, get_elem?, codes, starts_with, Bytes,
}
use comfirm_dmarc_report_ser.Common.Outcome.{Outcome, ok, fault, out_of_bounds, ◌>>=◌}
use comfirm_dmarc_report_ser.Data.{Hdr, key_max_len, value_max_len, header_max_len}
use comfirm_dmarc_report_ser.Request.{Request}

-- The variables of the loop, less its index. `in_line_folding` is left out: nothing sets it.
pub record Cursor : Type 0 where
  pub headers : List Hdr
  pub header_count : ℕ
  pub is_key : Bool
  pub cur_len : ℕ

-- A header changed at an index of the array of headers.
abbrev pub adjust : List Hdr → ℕ → (Hdr → Hdr) → List Hdr
adjust [] i f = []
adjust (h ∷ hs) zero f = f h ∷ hs
adjust (h ∷ hs) (suc i) f = h ∷ adjust hs i f

abbrev pub put_key : ℕ → ℕ → Hdr → Hdr
put_key i c h = record h { key = set h.key i c }

abbrev pub put_value : ℕ → ℕ → Hdr → Hdr
put_value i c h = record h { value = set h.value i c }

-- `headers[header_count]->key[cur_len] = c`, and the same for `value`. An index outside the array of
-- headers is a fault; `cur_len` is below the size of the character array wherever this runs.
unfoldable pub write : (ℕ → ℕ → Hdr → Hdr) → Cursor → ℕ → Outcome Cursor
write put s c =
    if ltb s.header_count (length s.headers)
    then ok (record s { headers = adjust s.headers s.header_count (put s.cur_len c) })
    else fault out_of_bounds

-- The branch on the byte `cur`: the new variables, and how far the index goes beyond the next byte.
abbrev pub Stepped : Type 0
Stepped = Outcome (Cursor × ℕ)

-- `cur == ':' && is_key`
unfoldable pub end_key : Cursor → Stepped
unfolding write
end_key s = write put_key s 0 >>= λ s'. ok (record s' { is_key = false; cur_len = 0 }, 1)

-- `cur == '\r'`
unfoldable pub end_line : Cursor → Stepped
unfolding write
end_line s = (if ltb s.header_count header_max_len then write put_value s 0 else ok s) >>= λ s'.
    ok (record s' { is_key = true; cur_len = 0; header_count = s'.header_count + 1 }, 1)

-- Any other byte but NUL.
unfoldable pub store_byte : Cursor → ℕ → Outcome Cursor
unfolding write
store_byte s c =
    if s.is_key
    then (if not (c == b' ') && ltb s.cur_len (key_max_len - 1)
        then (write put_key s c >>= λ s'. ok (record s' { cur_len = s'.cur_len + 1 }))
        else ok s)
    else (if ltb s.cur_len (value_max_len - 1)
        then (write put_value s c >>= λ s'. ok (record s' { cur_len = s'.cur_len + 1 }))
        else ok s)

-- The bytes from the index on begin a folded header line.
abbrev pub folds : Bytes → Bool
folds memory = starts_with memory (codes "\r\n\t") || starts_with memory (codes "\r\n ")

-- The chain of branches, on the current byte and the memory from the (moved) index on.
unfoldable pub branch : Cursor → ℕ → Bytes → Stepped
branch s cur memory =
    if cur == b':' && s.is_key
    then end_key s
    else if folds memory
    then ok (s, 2)
    else if cur == b'\r'
    then end_line s
    else if cur == 0
    then ok (s, 0)
    else store_byte s cur >>= λ s'. ok (s', 0)

-- The empty line that ends the headers, looked for only where more than two bytes are left. The
-- fourth byte may stand just behind the data.
abbrev pub ends_headers : Bytes → Bytes → Bool
ends_headers rest stale = ltb 2 (length rest) && starts_with (rest ++ stale) (codes "\r\n\r\n")

-- What the loop leaves: its variables, and the data from the index on if the empty line was found.
pub record Parsed : Type 0 where
  pub cursor : Cursor
  pub rest : Option Bytes

-- One round of the loop at a byte: whether the headers end here, the new variables, and how many of
-- the next bytes are passed over.
unfoldable pub round : Bytes → Bytes → Cursor → ℕ → Outcome (Bool × Cursor × ℕ)
round rest stale s cur =
    if ends_headers rest stale
    then (branch s cur (drop 2 (rest ++ stale)) >>= λ (s', k). ok (true, s', k + 2))
    else (branch s cur (rest ++ stale) >>= λ (s', k). ok (false, s', k))

-- The loop over the data; `stale` is the memory behind it.
unfoldable pub loop : Bytes → Bytes → ℕ → Cursor → Outcome Parsed
loop stale [] skip s = ok (record { cursor = s; rest = none })
loop stale (c ∷ cs) (suc k) s = loop stale cs k s
loop stale (c ∷ cs) zero s = round (c ∷ cs) stale s c >>= λ (done, s', k).
    if done then ok (record { cursor = s'; rest = some (drop k cs) }) else loop stale cs k s'

-- The body, where bytes are left behind the empty line.
abbrev pub body_of : Option Bytes → Option Bytes
body_of none = none
body_of (some []) = none
body_of (some (c ∷ cs)) = some (c ∷ cs)

-- `request_parse_data`. A request whose headers end without a body keeps the body that it has.
unfoldable pub parse_data : Bytes → Request → Outcome Request
parse_data stale req =
    loop stale req.text 0
      (record { headers = req.headers; header_count = 0; is_key = true; cur_len = 0 })
    >>= λ p. ok (record req {
      headers = p.cursor.headers;
      header_count = p.cursor.header_count;
      body = elim (body_of p.rest) [ none ↦ req.body | some b ↦ some b ];
    })
