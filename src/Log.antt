-- ===== src/Log.antt =====
-- The lock of a process and the warnings that it prints: src/lock.c and src/safe.c. The semaphore of
-- `lock_init` is not shared between processes, so each has its own.
use comfirm_dmarc_report_ser.Common.{
  ℕ, zero, suc, ◌≡◌, refl, sym, ap, ◌∙◌, List, [], ◌∷◌, ◌++◌, append-nil, append_assoc, Bytes,
  codes,
}
use comfirm_dmarc_report_ser.Common.Outcome.{Outcome, ok, fault, blocked, ◌>>=◌}

-- `lock`, and what the process printed.
pub record Log : Type 0 where
  pub mutex : ℕ
  pub printed : Bytes

-- `lock_init`
unfoldable pub lock_init : Log → Log
lock_init l = record l { mutex = 1 }

abbrev pub taken : ℕ → Log → Outcome Log
taken zero l = fault blocked
taken (suc n) l = ok (record l { mutex = n })

-- `lock_lock`, which waits where the semaphore is 0.
unfoldable pub lock_lock : Log → Outcome Log
lock_lock l = taken l.mutex l

-- `lock_unlock`
unfoldable pub lock_unlock : Log → Log
lock_unlock l = record l { mutex = suc l.mutex }

abbrev pub print : Bytes → Log → Log
print text l = record l { printed = l.printed ++ text }

-- `safe_warn`, on the text that the format and its arguments make.
unfoldable pub safe_warn : Bytes → Log → Outcome Log
unfolding lock_lock lock_unlock
safe_warn text l = do
  l' ← lock_lock l
  ok (lock_unlock (print (codes "\n") (print text (print (codes "WARNING ") l'))))

-- Warnings one after another.
unfoldable pub warn_all : List Bytes → Log → Outcome Log
unfolding safe_warn
warn_all [] l = ok l
warn_all (t ∷ ts) l = safe_warn t l >>= λ l'. warn_all ts l'

-- A line for each warning.
abbrev pub warnings : List Bytes → Bytes
warnings [] = []
warnings (t ∷ ts) = codes "WARNING " ++ (t ++ (codes "\n" ++ warnings ts))

warn_all-from :
    (ts : List Bytes) (before : Bytes)
    → warn_all ts (record { mutex = 1; printed = before })
      ≡ ok (record { mutex = 1; printed = before ++ warnings ts })
unfolding warn_all safe_warn lock_lock lock_unlock
warn_all-from [] before =
    ap (λ (b : Bytes). ok (record { mutex = 1; printed = b })) (sym (append-nil before))
warn_all-from (t ∷ ts) before =
    warn_all-from ts (before ++ codes "WARNING " ++ t ++ codes "\n")
    ∙ ap (λ (b : Bytes). ok (record { mutex = 1; printed = b })) (simp append_assoc refl)

-- After `lock_init`, no warning of a process waits for its lock, which is free again after each, and
-- what is printed is a line for each warning.
pub warn_all_lem :
    (ts : List Bytes) (l : Log)
    → warn_all ts (lock_init l) ≡ ok (record { mutex = 1; printed = l.printed ++ warnings ts })
unfolding lock_init
warn_all_lem ts l = warn_all-from ts l.printed
