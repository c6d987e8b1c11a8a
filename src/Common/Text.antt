-- ===== src/Common/Text.antt =====
-- C text. A byte is a number; a C string is the list of its bytes before the terminating NUL, and
-- a character array is the list of all its bytes.
use Prim.Native.Char.{code}
use Prim.Native.Nat.{ℕ}
use Prim.Native.String.{String}
use mathlib.Core.Path.{◌≡◌, refl}
use mathlib.Core.Logic.{◌↔◌, ◌≢◌}
use mathlib.Core.Bool.{Bool, true, false, ◌&&◌}
use mathlib.Core.List.{List, [], ◌∷◌, ◌++◌}
use native.Mathlib.Omega.{arith}
use comfirm_dmarc_report_ser.Common.Tests.{◌==◌, if◌then◌else◌}

abbrev pub Bytes : Type 0
Bytes = List ℕ

-- The bytes of a literal of the source, all ASCII.
abbrev pub codes : String → Bytes
codes String.[] = []
codes (String.◌∷◌ c s) = code c ∷ codes s

-- The C string that starts an array: its bytes up to the first NUL.
abbrev pub c_string : Bytes → Bytes
c_string [] = []
c_string (c ∷ cs) = if c == 0 then [] else c ∷ c_string cs

-- `strncmp(p, text, n) == 0` for a `text` of n bytes and the memory from `p` on. Where the memory
-- ends first the bytes behind it are taken to differ.
abbrev pub starts_with : Bytes → Bytes → Bool
starts_with _ [] = true
starts_with [] (_ ∷ _) = false
starts_with (c ∷ cs) (t ∷ ts) = c == t && starts_with cs ts

-- `strcmp(a, b) == 0`
abbrev pub str_eq : Bytes → Bytes → Bool
str_eq [] [] = true
str_eq [] (_ ∷ _) = false
str_eq (_ ∷ _) [] = false
str_eq (a ∷ as') (b ∷ bs) = a == b && str_eq as' bs

pub str_eq_iff : (a b : Bytes) → (str_eq a b ≡ true) ↔ (a ≡ b)
str_eq_iff [] [] = ground arith
str_eq_iff [] (_ ∷ _) = ground arith
str_eq_iff (_ ∷ _) [] = ground arith
str_eq_iff (a ∷ as') (b ∷ bs) = ground (arith, str_eq_iff as' bs)

-- The bytes of a C string: no NUL among them.
abbrev pub NoNul : Bytes → Type 0
NoNul [] = Unit
NoNul (c ∷ cs) = (c ≢ 0) × NoNul cs

pub c_string-terminated : (s rest : Bytes) → NoNul s → c_string (s ++ 0 ∷ rest) ≡ s
c_string-terminated [] rest h = refl
c_string-terminated (c ∷ cs) rest h = ground (arith, c_string-terminated cs rest h.1)

pub starts_with-append : (t rest : Bytes) → starts_with (t ++ rest) t ≡ true
starts_with-append [] rest = refl
starts_with-append (c ∷ t) rest = ground (arith, starts_with-append t rest)
