-- ===== src/Tests/Events.antt =====
-- The events, the loop of a worker over them, and the master server at concrete inputs.
use comfirm_dmarc_report_ser.Common.{
  ◌+◌, ◌*◌, ◌<◌, ◌≡◌, ◌↔◌, refl, true, false, List, [], ◌∷◌, none, some, arith, codes,
}
use comfirm_dmarc_report_ser.Common.Outcome.{ok, fault, out_of_bounds, bad_free, ◌>>=◌}
use comfirm_dmarc_report_ser.Events.{Ready, EventHandler, Memory, Heap, created, create, wait}
use comfirm_dmarc_report_ser.Events.Wait.{wait_overflows}
use comfirm_dmarc_report_ser.Events.Free.{NoAddress}
use comfirm_dmarc_report_ser.Master.Init.{
  MasterServer, master_server_init, Serves, master_server_init_lem,
}
use comfirm_dmarc_report_ser.Worker.{Worker, setup, run}
use comfirm_dmarc_report_ser.Worker.Inv.{AllFine-setup}
use comfirm_dmarc_report_ser.Worker.Keeps.{on_event-keeps}
use comfirm_dmarc_report_ser.Worker.Loop.{
  Meanwhile, event, Round, main_loop, worker_server, all_events, Fits,
}
use comfirm_dmarc_report_ser.Worker.Rounds.{main_loop_lem}
use comfirm_dmarc_report_ser.Worker.Shutdown.{worker_server_faults}
use comfirm_dmarc_report_ser.Worker.Start.{Machine}
use comfirm_dmarc_report_ser.Tests.Data.{queue, memory, limits, io}
use comfirm_dmarc_report_ser.Tests.Queue.{host, no_file, host-Works}
use comfirm_dmarc_report_ser.Master.Init
use comfirm_dmarc_report_ser.Tests.Server.{worker}

abbrev blocks : Memory
blocks = record { self = 1; array = 2; event = λ i. 100 * i + 300; epoll_fd = some 9 }

-- EPOLLIN on the descriptor 3.
abbrev readable : Ready
readable = record { events = 1; fd = 3; rest = 0 }

wait_overflows_example :
    (wait (some (readable ∷ readable ∷ readable ∷ [])) (created blocks 4 9 []).0
      ≡ fault out_of_bounds)
    ↔ (8 < 9)
wait_overflows_example = wait_overflows blocks 4 9 [] (readable ∷ readable ∷ readable ∷ [])

abbrev quiet : Meanwhile
quiet = record { memory = memory; io = io none }

abbrev rounds : List Round
rounds =
    record { ready = none; during = λ _. quiet }
    ∷ record { ready = some (readable ∷ []); during = λ _. quiet }
    ∷ []

abbrev handler : EventHandler
handler = (created blocks 4 9 []).0

abbrev heap : Heap
heap = (created blocks 4 9 []).1

rounds-Fits : Fits 8 rounds
rounds-Fits = (omega arith, (omega arith, tt))

main_loop_lem_example :
    (main_loop limits rounds handler worker >>= λ r. ok r.1) ≡ run limits (all_events rounds) worker
unfolding create
main_loop_lem_example = main_loop_lem limits blocks 4 [] heap handler rounds worker refl rounds-Fits

-- The worker gets through these rounds.
rounds-run : (w : Worker) × (run limits (all_events rounds) worker ≡ ok w)
unfolding run setup
rounds-run =
    let (w, c, done, good, table, same) =
      on_event-keeps limits (omega arith) (omega arith) (event 3 false quiet) worker
        (AllFine-setup limits 8) (omega arith) (λ _. refl) refl refl (omega arith)
        (λ entry c req resp b p at woken has_req has_resp got e. cc) in
    (w, simp done)

apart : NoAddress heap 1 3
apart = record { not_null = omega arith; unknown = refl }

worker_server_faults_example :
    worker_server limits true true blocks 4 (some queue) rounds [] ≡ fault bad_free
worker_server_faults_example =
    worker_server_faults limits blocks 4 9 (some queue) rounds [] rounds-run.0 refl (omega arith)
      rounds-Fits (tt, ((apart, tt), tt)) (omega arith) rounds-run.1

-- A machine that runs no server yet.
abbrev machine : Machine
machine = record { shmget_works = true; shmat_works = true; host = λ _. host no_file }

machine-Ready : Init.Ready machine (codes "/tmp/q")
machine-Ready = record {
  got = refl;
  attached = refl;
  works = λ _. host-Works no_file;
  missing = λ _. refl;
}

master_server_init_lem_example :
    (s : MasterServer) × (master_server_init machine (codes "/tmp/q") 3 2 4 ≡ ok (some s))
    × Serves machine (codes "/tmp/q") 3 2 s 5
master_server_init_lem_example =
    master_server_init_lem machine (codes "/tmp/q") 3 machine-Ready (omega arith) (omega arith) 2 4
      5 (omega arith) (omega arith)
