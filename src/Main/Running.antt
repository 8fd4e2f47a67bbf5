-- ===== src/Main/Running.antt =====
-- What holds once cmd/a-kerno/main.go waits for a shutdown.
use a_kerno.Common.{ℕ, ◌≡◌, Bytes, text, List, true}
use a_kerno.IniFile.{Section, IniFile, bool_default}
use a_kerno.Daemon.Types.{DaemonConfig}
use a_kerno.Daemon.Manager.{Entry}
use a_kerno.Daemon.Manager.Killed.{IsKilled}
use a_kerno.Daemon.Lifecycle.{StartEnv}
use a_kerno.Orchestrator as Orchestration
use a_kerno.Orchestrator.{Orchestrator, RunEnv}

-- The process that was started for the daemon of an enabled section has been killed.
abbrev pub SectionKilled : (Bytes → StartEnv) → List ℕ → Section → Type 0
SectionKilled env ks sec = bool_default sec (text "enabled") true ≡ true → IsKilled env ks sec.name

module _ (env : Bytes → StartEnv) (ks : List ℕ) where
  OfEntry : Entry → Type 0
  OfEntry e = IsKilled env ks e.name

  OfConfig : DaemonConfig → Type 0
  OfConfig dc = dc.enabled ≡ true → IsKilled env ks dc.name
