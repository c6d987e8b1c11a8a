-- ===== src/Queue/Callers/Progress.antt =====
-- A call that has begun can end, and what ends it is few accesses by its process alone.
use mathlib.Core.Path.{subst}
use native.Mathlib.Decide.{dec_lt}
use comfirm_dmarc_report_ser.Common.{
  ℕ, zero, suc, ◌≤◌, ◌<◌, ◌≡◌, ◌≢◌, refl, sym, ◌⊎◌, inl, inr, none, some, ◌++◌, ◌∷◌, [], arith,
}
use comfirm_dmarc_report_ser.Queue.{
  Ref, success, message_size_reached, message_queue_empty, semaphore_post,
}
use comfirm_dmarc_report_ser.Queue.Inv.{IsValid}
use comfirm_dmarc_report_ser.Queue.Spec.{Content, put, take_one}
use comfirm_dmarc_report_ser.Queue.Callers.{
  Pc, idle, put_check, put_copy, put_advance, put_count, take_check, take_copy, take_advance,
  take_count, leave, Memory, with_ref, Move, System, update, Reach, Solo, stop, go, advance_write,
  advance_read, count_up, count_down,
}
use comfirm_dmarc_report_ser.Queue.Callers.Inv.{At, copied, oldest, store_lem, load_lem}
use comfirm_dmarc_report_ser.Queue.Callers.Moves.{Moved, Move-At}
use comfirm_dmarc_report_ser.Queue.Callers.Safety.{inside-Moved, update_self}

-- How many accesses a call makes at most from here.
abbrev ahead : Pc → ℕ
ahead idle = 0
ahead (put_check x) = 5
ahead (put_copy x) = 4
ahead (put_advance x) = 3
ahead (put_count x) = 2
ahead take_check = 5
ahead take_copy = 4
ahead (take_advance x) = 3
ahead (take_count x) = 2
ahead (leave op reply) = 1

-- The access that a process can make next.
record Next (m : Memory) (p : Pc) : Type 0 where
  after : Memory
  place : Pc
  access : Move m p after place
  nearer : ahead place < ahead p

Next-access :
    (limit : ℕ) (m : Memory) (p : Pc) (q : Content) → At limit m p q → (p ≡ idle) ⊎ Next m p
Next-access limit m idle q h = inl refl
Next-access limit m (put_check x) q h =
    elim (dec_lt m.ref.shared.message_count m.ref.shared.message_max_count) [
      | yes room ↦
          inr (record {
            after = m;
            place = put_copy x;
            access = Move.room room;
            nearer = omega arith;
          })
      | no full ↦ inr (record {
        after = m;
        place = leave (put x) (message_size_reached, none);
        access = Move.full (omega arith);
        nearer = omega arith;
      })
    ]
Next-access limit m (put_copy x) q h = inr (record {
  after = with_ref m (copied m.ref x);
  place = put_advance x;
  access = Move.copy_in (store_lem h.1 x);
  nearer = omega arith;
})
Next-access limit m (put_advance x) q h = inr (record {
  after = with_ref m (advance_write m.ref);
  place = put_count x;
  access = Move.move_write;
  nearer = omega arith;
})
Next-access limit m (put_count x) q h = inr (record {
  after = with_ref m (count_up m.ref);
  place = leave (put x) (success, none);
  access = Move.counted_up;
  nearer = omega arith;
})
Next-access limit m take_check q h = elim (dec_lt 0 m.ref.shared.message_count) [
  | yes left ↦
      inr (record {
        after = m;
        place = take_copy;
        access = Move.some_left left;
        nearer = omega arith;
      })
  | no nothing ↦ inr (record {
    after = m;
    place = leave take_one (message_queue_empty, none);
    access = Move.empty (omega arith);
    nearer = omega arith;
  })
]
Next-access limit m take_copy q h = inr (record {
  after = m;
  place = take_advance (oldest m.ref);
  access = Move.copy_out (load_lem h.1);
  nearer = omega arith;
})
Next-access limit m (take_advance x) q h = inr (record {
  after = with_ref m (advance_read m.ref);
  place = take_count x;
  access = Move.move_read;
  nearer = omega arith;
})
Next-access limit m (take_count x) q h = inr (record {
  after = with_ref m (count_down m.ref);
  place = leave take_one (success, some x);
  access = Move.counted_down;
  nearer = omega arith;
})
Next-access limit m (leave op reply) q h = inr (record {
  after = record { ref = semaphore_post m.ref; log = m.log ++ (op, reply) ∷ [] };
  place = idle;
  access = Move.post;
  nearer = omega arith;
})

-- A run of one process that brings it out of its call.
pub record Out (i : ℕ) (s : System) (most : ℕ) : Type 0 where
  pub final : System
  pub count : ℕ
  pub solo : Solo i count s final
  pub bounded : count ≤ most
  pub outside : final.pc i ≡ idle
  pub free : final.mem.ref.sem ≡ 1

further :
    {i : ℕ} {s : System} {m : Memory} {p : Pc} {n : ℕ}
    → Move s.mem (s.pc i) m p
    → Out i (record { mem = m; pc = update s.pc i p }) n
    → Out i s (suc n)
further mv o = record {
  final = o.final;
  count = suc o.count;
  solo = go mv o.solo;
  bounded = omega (arith, o.bounded);
  outside = o.outside;
  free = o.free;
}

Out-already :
    {limit : ℕ} {q0 : Content} (n i : ℕ) (s : System)
    → Moved limit q0 s.mem (s.pc i)
    → s.pc i ≡ idle
    → Out i s n
Out-already {limit} n i s mv e = record {
  final = s;
  count = 0;
  solo = stop;
  bounded = omega arith;
  outside = e;
  free = (subst (λ (p : Pc). At limit s.mem p mv.left) e mv.there).0;
}

goes-Out :
    {limit : ℕ} {q0 : Content} (n i : ℕ) (s : System)
    → ahead (s.pc i) ≤ n
    → Moved limit q0 s.mem (s.pc i)
    → Out i s n
goes-Out {limit} {q0} zero i s h mv = elim (Next-access limit s.mem (s.pc i) mv.left mv.there) [
  | inl e ↦ Out-already 0 i s mv e
  | inr nx ↦ absurd (omega (arith, nx.nearer))
]
goes-Out {limit} {q0} (suc n) i s h mv = elim (Next-access limit s.mem (s.pc i) mv.left mv.there) [
  | inl e ↦ Out-already (suc n) i s mv e
  | inr nx ↦ further nx.access (
      goes-Out n i (record { mem = nx.after; pc = update s.pc i nx.place })
        (rw (update_self s.pc i nx.place) (omega (arith, nx.nearer)))
        (subst (Moved limit q0 nx.after) (sym (update_self s.pc i nx.place))
          (Move-At mv.left nx.access mv.agrees mv.there)))
]

ahead-most : (p : Pc) → ahead p ≤ 5
ahead-most idle = omega arith
ahead-most (put_check x) = omega arith
ahead-most (put_copy x) = omega arith
ahead-most (put_advance x) = omega arith
ahead-most (put_count x) = omega arith
ahead-most take_check = omega arith
ahead-most take_copy = omega arith
ahead-most (take_advance x) = omega arith
ahead-most (take_count x) = omega arith
ahead-most (leave op reply) = omega arith

module _ {r : Ref} (v : IsValid r) (up : r.sem ≡ 1) {s : System} (i : ℕ) (reach : Reach r s)
    (inside : s.pc i ≢ idle) where
  -- A process that is inside of a call comes out of it by at most five accesses of its own, none of
  -- which fails, and leaves the semaphore at 1: so it is in whatever state the processes have
  -- reached from a valid queue whose semaphore was 1.
  pub holder_finishes :
      (t : System) × (n : ℕ) × Solo i n s t × (n ≤ 5) × (t.pc i ≡ idle) × (t.mem.ref.sem ≡ 1)
  holder_finishes =
      let o = goes-Out 5 i s (ahead-most (s.pc i)) (inside-Moved v up i reach inside) in
      (o.final, o.count, o.solo, o.bounded, o.outside, o.free)
