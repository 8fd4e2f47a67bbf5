-- ===== src/SessionWm/Tests.antt =====
-- Runs of the session window manager, and its theorems at concrete inputs.
use a_kerno.Common.{◌≡◌, ◌≢◌, refl, bytes_eq, text, List, [], ◌∷◌, some, none, true, false}
use a_kerno.Common.Int.{pos}
use a_kerno.Text.{trim_space, trim_left}
use a_kerno.Process.{Poll}
use a_kerno.KernoCfg.{Composer}
use a_kerno.SessionWm.Config.{
  WmPolicy, WmEnviron, load_wm_config, parse_restart_policy, fields, parse_spec,
}
use a_kerno.SessionWm.Lifecycle.{
  WmState, WmManager, Spawn, stop_wm, restart_wm, WmDisposition, wm_exit,
}
use a_kerno.SessionWm.Lifecycle.Monitors.{stop_wm_lem, wm_exit-restart_wm}

abbrev environ : WmEnviron
environ = record { compositor = text "  "; wm = text " sway -d "; restart = text "never" }

abbrev file : Composer
file = record { run = text "labwc"; restart = text "on-failure" }

load_runs :
    load_wm_config environ file ≡ record { spec = text "sway -d"; restart = WmPolicy.on_failure }
unfolding load_wm_config parse_restart_policy trim_space trim_left bytes_eq
load_runs = refl

spec_runs : parse_spec (text "sway  -d") ≡ text "sway" ∷ text "-d" ∷ []
unfolding parse_spec fields bytes_eq
spec_runs = refl

abbrev wm : WmManager
wm = record {
  cfg = record { spec = text "sway"; restart = WmPolicy.always };
  state = WmState.running;
  cmd = some 7;
  pid = 7;
  pgid = 7;
  restart_count = 2;
  stopping = false;
  started_at = 1;
}

abbrev gone : List Poll
gone = record { alive = false; cancelled = false } ∷ []

abbrev spawn : Spawn
spawn = record { spawned = some 9; now = 5 }

wm_enabled : bytes_eq (text "sway") [] ≡ false
unfolding bytes_eq
wm_enabled = refl

stop_wm_lem_example :
    ((stop_wm gone wm).1.state ≡ WmState.stopped)
    × ((stop_wm gone wm).1.stopping ≡ true)
    × ((stop_wm gone wm).1.cfg ≡ record { spec = text "sway"; restart = WmPolicy.disabled })
    × (true ≡ true
        → ((stop_wm gone wm).1.cmd ≡ none)
          × ((stop_wm gone wm).1.pid ≡ 0)
          × ((stop_wm gone wm).1.pgid ≡ 0))
unfolding bytes_eq
stop_wm_lem_example = stop_wm_lem gone wm refl

wm_exit-restart_wm_example :
    let (next, m') = wm_exit (pos 0) true (restart_wm gone spawn wm).1 in
    (m'.cmd ≡ none)
    × (m'.pid ≡ 0)
    × (m'.pgid ≡ 0)
    × (wm.cfg.restart ≡ WmPolicy.always → next ≢ WmDisposition.ended)
unfolding bytes_eq
wm_exit-restart_wm_example = wm_exit-restart_wm gone spawn wm (pos 0) true refl
