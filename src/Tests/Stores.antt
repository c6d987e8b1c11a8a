-- ===== src/Tests/Stores.antt =====
-- The cache and the configuration at concrete inputs.
use native.Mathlib.Decide.{ℕ_discrete}
use comfirm_dmarc_report_ser.Common.{
  ◌<◌, ℕ, ◌≡◌, ◌≢◌, refl, sym, ap, ◌∙◌, List, [], ◌∷◌, Option, none, some, arith, Bytes, codes,
}
use comfirm_dmarc_report_ser.Common.Int.{ℤ, pos}
use comfirm_dmarc_report_ser.Common.Outcome.{ok}
use comfirm_dmarc_report_ser.Cache.{
  Cache, Node, node, nulls, slot, set_slot, find, add, get, get_exists,
}
use comfirm_dmarc_report_ser.Cache.Arrays.{nulls-IsNode, slot-set_slot_ne}
use comfirm_dmarc_report_ser.Cache.Lookup.{IsCache, slot-nulls, find-none}
use comfirm_dmarc_report_ser.Cache.Add.{add_lem, add_others}
use comfirm_dmarc_report_ser.Cache.Free.{value, free}
use comfirm_dmarc_report_ser.Cache.Free.Once.{times, owns}
use comfirm_dmarc_report_ser.Cache.Free.Pointers.{
  value_of, value_at, frees, freed_once, shared_freed_twice,
}
use comfirm_dmarc_report_ser.Cache.Free.Nested.{Nested, free_lem}
use comfirm_dmarc_report_ser.Config.{load_default, load}
use comfirm_dmarc_report_ser.Config.Load.{Setting, file_text, IsSetting}
use comfirm_dmarc_report_ser.Config.Settings.{load_settings}

abbrev empty : Cache ℕ
empty = record { nodes = nulls 256; size = 256; used = 0; max = 256 }

empty-IsCache : IsCache empty
empty-IsCache = nulls-IsNode {V = ℕ} none

add_lem_example :
    (c' : Cache ℕ) × (add empty (codes "key") (some 7) ≡ ok c')
    × IsCache c'
    × (get_exists c' (codes "key") ≡ ok (some 7))
    × (get c' (codes "key") ≡ ok (some 7))
add_lem_example = add_lem empty 107 (codes "ey") (some 7) empty-IsCache

-- What the cache is once the name was added.
abbrev with_key : Cache ℕ
with_key = (add_lem empty 107 (codes "ey") (some 7) empty-IsCache).0

add-with_key : add empty (codes "key") (some 7) ≡ ok with_key
add-with_key = (add_lem empty 107 (codes "ey") (some 7) empty-IsCache).1

add_others_example : get_exists with_key (codes "keys") ≡ get_exists empty (codes "keys")
add_others_example =
    add_others empty with_key 107 (codes "ey") (some 7) 107 (codes "eys") empty-IsCache
      (ground arith) (ground arith) (λ e. cc e) add-with_key

-- A cache with a value for one name of one byte.
abbrev one_value : Cache ℕ
one_value = record empty { nodes = set_slot (nulls 256) 107 (node (some 7) (nulls 256)) }

free_lem_example :
    (times value (107 ∷ []) (free one_value)
      ≡ owns value (find (some (node none one_value.nodes)) (107 ∷ [])))
    × Nested (free one_value)
free_lem_example = free_lem one_value value (107 ∷ [])

freed_once_example : (frees one_value 7 (free one_value) ≡ 1) × Nested (free one_value)
unfolding find
freed_once_example = freed_once one_value 7 (107 ∷ []) refl alone
  where
    value_below : Option (Node ℕ) → List ℕ → Option ℕ
    value_below o at = value_of (find o at)

    nothing_below : (i : ℕ) (is : List ℕ) → value_of (find (slot (nulls {V = ℕ} 256) i) is) ≡ none
    nothing_below i is =
        ap (λ (o : Option (Node ℕ)). value_below o is) (slot-nulls 256 i)
        ∙ ap value_of (find-none is)

    of_key : (is : List ℕ) → value_at one_value (107 ∷ is) ≡ some 7 → 107 ∷ is ≡ 107 ∷ []
    of_key [] e = refl
    of_key (j ∷ js) e = cc (sym (nothing_below j js) ∙ e)

    alone : (at' : List ℕ) → value_at one_value at' ≡ some 7 → at' ≡ 107 ∷ []
    alone [] e = cc e
    alone (i ∷ is) e = elim (ℕ_discrete i 107) [
      | yes same ↦
          ap (λ (j : ℕ). j ∷ is) same
          ∙ of_key is (ap (λ (j : ℕ). value_at one_value (j ∷ is)) (sym same) ∙ e)
      | no other ↦ cc (
          sym (
            ap (λ (o : Option (Node ℕ)). value_below o is)
              (slot-set_slot_ne (nulls 256) 107 i (node (some 7) (nulls 256)) (λ h. other (sym h)))
            ∙ nothing_below i is)
          ∙ e)
    ]

-- The same value under two names of one byte.
abbrev shared_value : Cache ℕ
shared_value = record empty {
  nodes =
      set_slot (set_slot (nulls 256) 107 (node (some 7) (nulls 256))) 108
        (node (some 7) (nulls 256));
}

shared_freed_twice_example : 1 < frees shared_value 7 (free shared_value)
unfolding find
shared_freed_twice_example =
    shared_freed_twice shared_value 7 (107 ∷ []) (108 ∷ []) refl refl (λ e. apart (ap first e))
  where
    first : List ℕ → ℕ
    first [] = 0
    first (i ∷ is) = i

    apart : ◌≢◌ {A = ℕ} 107 108
    apart = omega arith

-- A stand-in for `atoi`.
abbrev first_digit : Bytes → ℤ
first_digit [] = pos 0
first_digit (c ∷ _) = pos c

abbrev settings : List Setting
settings =
    record { key = codes "hostname"; lead = 97; more = codes ".b=c" }
    ∷ record { key = codes "max-workers"; lead = 52; more = [] }
    ∷ []

load_settings_example :
    load first_digit (some (file_text settings)) load_default
    ≡ ok (pos 0, record load_default { hostname = codes "a.bc"; max_workers = pos 52 })
unfolding load_default
load_settings_example =
    load_settings first_digit settings load_default (hostname-IsSetting, (workers-IsSetting, tt))
  where
    hostname-IsSetting :
        IsSetting (record { key = codes "hostname"; lead = 97; more = codes ".b=c" })
    hostname-IsSetting = record {
      key_bytes = ground arith;
      some_key = omega arith;
      key_fits = omega arith;
      lead_byte = ground arith;
      more_bytes = ground arith;
      line_fits = omega arith;
    }

    workers-IsSetting : IsSetting (record { key = codes "max-workers"; lead = 52; more = [] })
    workers-IsSetting = record {
      key_bytes = ground arith;
      some_key = omega arith;
      key_fits = omega arith;
      lead_byte = ground arith;
      more_bytes = ground arith;
      line_fits = omega arith;
    }
