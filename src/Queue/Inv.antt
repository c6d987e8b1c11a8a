-- ===== src/Queue/Inv.antt =====
-- The representation invariant of a mapped queue, and that every operation keeps it.
use comfirm_dmarc_report_ser.Common.{
  ℕ, ◌+◌, ◌*◌, ◌%◌, ◌≤◌, ◌<◌, ◌≡◌, arith, length, set, length-set, sym, ap, ◌∙◌, ◌-◌, ◌^◌, true,
}
use native.Mathlib.Nat.{mod-lt, mod-add-mod}
use comfirm_dmarc_report_ser.Data.{Mail}
use comfirm_dmarc_report_ser.Queue.{Ref, shared_size, mail_size, slot_offset, slot_mapped}

pub record IsValid (r : Ref) : Type 0 where
  pub slot_count : length r.slots ≡ r.shared.message_max_count
  pub capacity_pos : 0 < r.shared.message_max_count
  pub capacity_small : r.shared.message_max_count < 2 ^ 31
  pub read_in : r.shared.read_offset < r.shared.message_max_count
  pub count_in : r.shared.message_count ≤ r.shared.message_max_count
  pub write_at :
      r.shared.write_offset
      ≡ (r.shared.read_offset + r.shared.message_count) % r.shared.message_max_count
  pub all_mapped : shared_size + r.shared.message_max_count * mail_size ≤ r.mapped

-- A slot below the capacity lies in the mapping.
pub slot_mapped-lt :
    {r : Ref} (i : ℕ) → IsValid r → i < r.shared.message_max_count → slot_mapped r i ≡ true
slot_mapped-lt {r} i v h = ground (arith, bound)
  where
    bound : slot_offset i + mail_size ≤ r.mapped
    bound = omega arith

-- What an enqueue leaves in a queue that is not full.
abbrev pub pushed : Ref → Mail → Ref
pushed r m = record r {
  slots = set r.slots r.shared.write_offset m;
  shared = record (r.shared) {
    write_offset = (r.shared.write_offset + 1) % r.shared.message_max_count;
    message_count = r.shared.message_count + 1;
  };
}

-- What a dequeue leaves in a queue that is not empty.
abbrev pub popped : Ref → Ref
popped r = record r {
  shared = record (r.shared) {
    read_offset = (r.shared.read_offset + 1) % r.shared.message_max_count;
    message_count = r.shared.message_count - 1;
  };
}

pub pushed-IsValid :
    {r : Ref} (m : Mail)
    → IsValid r
    → r.shared.message_count < r.shared.message_max_count
    → IsValid (pushed r m)
pushed-IsValid {r} m v h = record {
  slot_count = length-set r.slots r.shared.write_offset m ∙ v.slot_count;
  capacity_pos = v.capacity_pos;
  capacity_small = v.capacity_small;
  read_in = v.read_in;
  count_in = omega arith;
  write_at =
      rw v.write_at (rw mod-add-mod (ap (λ (k : ℕ). k % r.shared.message_max_count) (omega arith)));
  all_mapped = v.all_mapped;
}

pub popped-IsValid : {r : Ref} → IsValid r → 0 < r.shared.message_count → IsValid (popped r)
popped-IsValid {r} v h = record {
  slot_count = v.slot_count;
  capacity_pos = v.capacity_pos;
  capacity_small = v.capacity_small;
  read_in = mod-lt _ v.capacity_pos;
  count_in = omega arith;
  write_at =
      v.write_at
      ∙ sym (rw mod-add-mod (ap (λ (k : ℕ). k % r.shared.message_max_count) (omega arith)));
  all_mapped = v.all_mapped;
}
