-- ===== src/Queue/Callers/Spec.antt =====
-- The calls that returned, against the bounded first-in first-out queue.
use comfirm_dmarc_report_ser.Common.{ℕ, ◌≡◌, refl, sym, ap, ap₂, ◌∙◌, List, [], ◌∷◌, ◌++◌, none}
use comfirm_dmarc_report_ser.Queue.Spec
use comfirm_dmarc_report_ser.Queue.Spec.{Content, Op, put, take_one, Reply, push, pop}

-- What one call answers, and what it leaves.
abbrev pub answer : ℕ → Content → Op → Reply
answer cap q (put m) = ((push cap q m).0, none)
answer cap q take_one = ((pop q).0, (pop q).1)

abbrev pub next : ℕ → Content → Op → Content
next cap q (put m) = (push cap q m).1
next cap q take_one = (pop q).2

-- The log is what the queue answers, from `q` to `q'`.
abbrev pub Agrees : ℕ → Content → List (Op × Reply) → Content → Type 0
Agrees cap q [] q' = q ≡ q'
Agrees cap q ((op, reply) ∷ log) q' = (reply ≡ answer cap q op) × Agrees cap (next cap q op) log q'

pub Agrees-snoc :
    (cap : ℕ) (q q' : Content) (log : List (Op × Reply)) (op : Op) (reply : Reply)
    → Agrees cap q log q'
    → reply ≡ answer cap q' op
    → Agrees cap q (log ++ (op, reply) ∷ []) (next cap q' op)
Agrees-snoc cap q q' [] op reply a e =
    (e ∙ ap (λ (c : Content). answer cap c op) (sym a), ap (λ (c : Content). next cap c op) a)
Agrees-snoc cap q q' ((o, r) ∷ log) op reply a e =
    (a.0, Agrees-snoc cap (next cap q o) q' log op reply a.1 e)

abbrev pub ops : List (Op × Reply) → List Op
ops [] = []
ops ((op, _) ∷ log) = op ∷ ops log

abbrev pub replies : List (Op × Reply) → List Reply
replies [] = []
replies ((_, reply) ∷ log) = reply ∷ replies log

pub replies-run :
    (cap : ℕ) (q q' : Content) (log : List (Op × Reply))
    → Agrees cap q log q'
    → replies log ≡ Spec.run cap q (ops log)
unfolding Spec.run
replies-run cap q q' [] a = refl
replies-run cap q q' ((put m, reply) ∷ log) a =
    ap₂ ◌∷◌ a.0 (replies-run cap (next cap q (put m)) q' log a.1)
replies-run cap q q' ((take_one, reply) ∷ log) a =
    ap₂ ◌∷◌ a.0 (replies-run cap (next cap q take_one) q' log a.1)
