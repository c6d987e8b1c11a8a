-- ===== src/Master/Start/Ends.antt =====
-- How the start of the server ends: src/master_server.c.
use comfirm_dmarc_report_ser.Common.{◌≡◌, ◌≢◌, Option, none, some, Bytes}
use comfirm_dmarc_report_ser.Common.Int.{ℤ}
use comfirm_dmarc_report_ser.Common.Outcome.{Outcome, ok, fault, ◌>>=◌}
use comfirm_dmarc_report_ser.Config.{Config, load_default, load}
use comfirm_dmarc_report_ser.Events.{EventHandler, Heap, create}
use comfirm_dmarc_report_ser.Master.Init.{MasterServer}
use comfirm_dmarc_report_ser.Master.Start.{
  Launch, Step, exit, next, after_step, ◌>=>◌, found_or_exit, parse_arguments, is_set, count,
  loaded, init_server, daemonize, enter_root, Up, listen, start_with, start_at, start,
}

-- Inversion of a start that goes on.
step-next :
    {A B : Type 0} (m : Outcome (Step A)) (f : A → Outcome (Step B)) (b : B)
    → (m >=> f) ≡ ok (next b)
    → (a : A) × (f a ≡ ok (next b))
step-next (ok (exit status)) f b h = cc
step-next (ok (next a)) f b h = (a, h)
step-next (fault e) f b h = cc

module _ (atoi : Bytes → ℤ) (l : Launch) where
  no_listen :
      (s : MasterServer) (conf : Config) (events : EventHandler × Heap) (u : Up)
      → listen atoi l s conf events none ≢ ok (next u)
  unfolding listen
  no_listen s conf events u h = cc

  no_start_with : (conf : Config) (u : Up) → start_with atoi l conf none ≢ ok (next u)
  unfolding start_with
  no_start_with conf u h =
      let (s, h1) = step-next (init_server l conf) _ u h in
      let (_, h2) = step-next (daemonize l conf) _ u h1 in
      let (_, h3) = step-next (enter_root l conf) _ u h2 in
      let (events, h4) =
        step-next (found_or_exit (create l.memory (count conf.max_clients) l.heap)) _ u h3 in
      no_listen s conf events u h4

  no_start_at : (path : Bytes) (u : Up) → start_at atoi l none path ≢ ok (next u)
  unfolding start_at
  no_start_at path u h =
      let (conf, h1) = step-next (load atoi (l.file path) load_default >>= loaded) _ u h in
      no_start_with conf u h1

  no_path : (path : Option Bytes) (u : Up) → (is_set path >>= start_at atoi l none) ≢ ok (next u)
  no_path none u h = cc
  no_path (some path) u h = no_start_at path u h

  no_arguments :
      (s : Step (Option Bytes)) (u : Up)
      → after_step s (λ path. is_set path >>= start_at atoi l none) ≢ ok (next u)
  no_arguments (exit status) u h = cc
  no_arguments (next path) u h = no_path path u h

  -- Whatever the arguments, the files and the system's answers are: where what `srv->config` points
  -- to cannot be written, `main` never gets to its loop.
  never_up : (u : Up) → start atoi l none ≢ ok (next u)
  unfolding start
  never_up u h = no_arguments (parse_arguments l.arguments none) u h
