-- ===== src/Response/Uuid.antt =====
-- `response_build_uuid` of src/response.c: two numbers of 64 bits as an identifier.
use native.Mathlib.Nat.{pow-suc}
use comfirm_dmarc_report_ser.Common.{
  ℕ, zero, suc, ◌+◌, ◌*◌, ◌/◌, ◌%◌, ◌^◌, ◌<◌, ◌≡◌, refl, ap, ◌∙◌, [], ◌∷◌, ◌++◌, arith, ◌==◌, ◌||◌,
  ltb, if◌then◌else◌, length, Bytes, false,
}

-- The `n` bytes of a number in memory, the lowest first.
unfoldable pub bytes_of : ℕ → ℕ → Bytes
bytes_of zero x = []
bytes_of (suc n) x = (x % 256) ∷ bytes_of n (x / 256)

-- The digits of "%2.2x".
abbrev pub hex_digit : ℕ → ℕ
hex_digit k = if ltb k 10 then 48 + k else 87 + k

abbrev pub print_byte : ℕ → Bytes
print_byte c = hex_digit (c / 16) ∷ hex_digit (c % 16) ∷ []

-- A dash follows the fourth, sixth, eighth and tenth byte from the end.
abbrev pub dash_after : ℕ → Bytes
dash_after n = if n == 4 || n == 6 || n == 8 || n == 10 then 45 ∷ [] else []

-- The loop, on the bytes from the last one on, `n` of which are printed.
unfoldable pub print_bytes : ℕ → Bytes → Bytes
print_bytes n [] = []
print_bytes n (c ∷ cs) = print_byte c ++ (dash_after (suc n) ++ print_bytes (suc n) cs)

abbrev pub reverse : Bytes → Bytes → Bytes
reverse [] out = out
reverse (c ∷ cs) out = reverse cs (c ∷ out)

-- `response_build_uuid`, without the NUL at its end.
unfoldable pub build_uuid : ℕ → ℕ → Bytes
unfolding bytes_of print_bytes
build_uuid lo hi = print_bytes 0 (reverse (bytes_of 8 lo ++ bytes_of 8 hi) [])

-- The value of a digit.
abbrev pub digit_value : ℕ → ℕ
digit_value c = if ltb c 58 then c % 48 else c % 87

-- The number that the digits of a text make, its dashes left out.
abbrev pub number_of : ℕ → Bytes → ℕ
number_of n [] = n
number_of n (c ∷ cs) = if c == 45 then number_of n cs else number_of (n * 16 + digit_value c) cs

hex_digit_lem : (k : ℕ) → k < 16 → ((hex_digit k == 45) ≡ false) × (digit_value (hex_digit k) ≡ k)
hex_digit_lem k h = ground arith

number_of-print_byte :
    (n c : ℕ) (t : Bytes) → c < 256 → number_of n (print_byte c ++ t) ≡ number_of (n * 256 + c) t
number_of-print_byte n c t h =
    let (no_dash, high) = hex_digit_lem (c / 16) (omega arith) in
    let (no_dash', low) = hex_digit_lem (c % 16) (omega arith) in
    simp (no_dash, no_dash', high, low)
      (ap (λ (m : ℕ). number_of m t) {x = (n * 16 + c / 16) * 16 + c % 16} {y = n * 256 + c}
        (omega arith))

number_of-dash_after : (n k : ℕ) (t : Bytes) → number_of n (dash_after k ++ t) ≡ number_of n t
number_of-dash_after n k t = ground arith

-- The number of bytes, the highest first, behind the number `n`, and the lowest first.
abbrev big_endian : ℕ → Bytes → ℕ
big_endian n [] = n
big_endian n (c ∷ cs) = big_endian (n * 256 + c) cs

abbrev little_endian : Bytes → ℕ
little_endian [] = 0
little_endian (c ∷ cs) = c + 256 * little_endian cs

abbrev AllBytes : Bytes → Type 0
AllBytes [] = Unit
AllBytes (c ∷ cs) = (c < 256) × AllBytes cs

number_of-print_bytes :
    (n k : ℕ) (cs : Bytes) → AllBytes cs → number_of n (print_bytes k cs) ≡ big_endian n cs
unfolding print_bytes
number_of-print_bytes n k [] a = refl
number_of-print_bytes n k (c ∷ cs) a =
    number_of-print_byte n c (dash_after (suc k) ++ print_bytes (suc k) cs) a.0
    ∙ number_of-dash_after (n * 256 + c) (suc k) (print_bytes (suc k) cs)
    ∙ number_of-print_bytes (n * 256 + c) (suc k) cs a.1

big_endian-reverse :
    (cs out : Bytes) → big_endian 0 (reverse cs out) ≡ big_endian (little_endian cs) out
big_endian-reverse [] out = refl
big_endian-reverse (c ∷ cs) out =
    big_endian-reverse cs (c ∷ out)
    ∙ ap (λ (m : ℕ). big_endian m out) {x = little_endian cs * 256 + c}
        {y = c + 256 * little_endian cs} (omega arith)

reverse-AllBytes : (cs out : Bytes) → AllBytes cs → AllBytes out → AllBytes (reverse cs out)
reverse-AllBytes [] out a b = b
reverse-AllBytes (c ∷ cs) out a b = reverse-AllBytes cs (c ∷ out) a.1 (a.0, b)

bytes_of-AllBytes : (n x : ℕ) (ys : Bytes) → AllBytes ys → AllBytes (bytes_of n x ++ ys)
unfolding bytes_of
bytes_of-AllBytes zero x ys a = a
bytes_of-AllBytes (suc n) x ys a = (omega arith, bytes_of-AllBytes n (x / 256) ys a)

little_endian-bytes_of :
    (n x : ℕ) (ys : Bytes)
    → x < 256 ^ n
    → little_endian (bytes_of n x ++ ys) ≡ x + little_endian ys * 256 ^ n
unfolding bytes_of
little_endian-bytes_of zero x ys h = omega arith
little_endian-bytes_of (suc n) x ys h = omega (
  arith,
  pow-suc 256 n,
  ap (λ (t : ℕ). little_endian ys * t) (pow-suc 256 n),
  little_endian-bytes_of n (x / 256) ys (omega (arith, pow-suc 256 n)),
)

-- The identifier of any two numbers of 64 bits has 36 characters, and its hexadecimal digits, the
-- dashes left out, are the number whose high half is `hi` and whose low half is `lo`.
pub build_uuid_lem :
    (lo hi : ℕ)
    → lo < 2 ^ 64
    → hi < 2 ^ 64
    → (length (build_uuid lo hi) ≡ 36) × (number_of 0 (build_uuid lo hi) ≡ hi * 2 ^ 64 + lo)
unfolding build_uuid
build_uuid_lem lo hi h k = (size, digits)
  where
    size : length (build_uuid lo hi) ≡ 36
    size = refl

    all : AllBytes (bytes_of 8 lo ++ (bytes_of 8 hi ++ []))
    all = bytes_of-AllBytes 8 lo (bytes_of 8 hi ++ []) (bytes_of-AllBytes 8 hi [] tt)

    digits : number_of 0 (build_uuid lo hi) ≡ hi * 2 ^ 64 + lo
    digits =
        number_of-print_bytes 0 0 (reverse (bytes_of 8 lo ++ (bytes_of 8 hi ++ [])) [])
          (reverse-AllBytes (bytes_of 8 lo ++ (bytes_of 8 hi ++ [])) [] all tt)
        ∙ big_endian-reverse (bytes_of 8 lo ++ (bytes_of 8 hi ++ [])) []
        ∙ little_endian-bytes_of 8 lo (bytes_of 8 hi ++ []) h
        ∙ ap (λ (t : ℕ). lo + t * 2 ^ 64) (little_endian-bytes_of 8 hi [] k)
        ∙ omega arith
