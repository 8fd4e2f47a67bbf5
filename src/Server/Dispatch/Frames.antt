-- ===== src/Server/Dispatch/Frames.antt =====
-- Which commands of internal/server/server.go can change the server, and which one cancels it.
use a_kerno.Common.{
  Option-cases, inl, inr, ◌≡◌, refl, ℕ, Bytes, Option, none, some, Bool, false, ◌||◌, ◌==◌, arith,
  text,
}
use a_kerno.Common.Int.{ℤ}
use a_kerno.BinParser.Types.{BinCommand}
use a_kerno.Program.Types.{ProgramManager}
use a_kerno.Program.Manager.{list_programs}
use a_kerno.Server.Replies.{Server, CommandEnv, Reply}
use a_kerno.Server.Handlers.{
  Handler, on_list_daemons, on_status, on_restart, on_stop, on_start, start_and_reply,
  on_list_features, on_logs, on_shutdown, with_programs, on_list_programs, on_program_status,
  on_start_program, on_stop_program,
}
use a_kerno.Server.Dispatch.{dispatch_bin, with_name, bin_attr, bin_attr_int}

-- A handler that leaves the server as it is, and one that does not touch its cancellation.
Reads : Handler → Type 0
Reads h = (s : Server) → (h s).1 ≡ s

GoesOn : Handler → Type 0
GoesOn h = (s : Server) → (h s).1.is_cancelled ≡ s.is_cancelled

with_name-Reads :
    (name : Option Bytes) (f : Bytes → Handler)
    → ((n : Bytes) → Reads (f n))
    → Reads (with_name name f)
unfolding Reads
with_name-Reads none f h s = refl
with_name-Reads (some n) f h s = ground (arith, h n s)

with_name-GoesOn :
    (name : Option Bytes) (f : Bytes → Handler)
    → ((n : Bytes) → GoesOn (f n))
    → GoesOn (with_name name f)
unfolding GoesOn
with_name-GoesOn none f h s = refl
with_name-GoesOn (some n) f h s = ground (arith, h n s)

with_programs-Reads :
    (f : ProgramManager → Handler)
    → ((pm : ProgramManager) → Reads (f pm))
    → Reads (with_programs f)
unfolding Reads
with_programs-Reads f h s = elim (Option-cases s.pm) [
  | inl missing ↦ ground (arith, missing)
  | inr (pm, there) ↦ ground (arith, there, h pm s)
]

with_programs-GoesOn :
    (f : ProgramManager → Handler)
    → ((pm : ProgramManager) → GoesOn (f pm))
    → GoesOn (with_programs f)
unfolding GoesOn
with_programs-GoesOn f h s = elim (Option-cases s.pm) [
  | inl missing ↦ ground (arith, missing)
  | inr (pm, there) ↦ ground (arith, there, h pm s)
]

on_status-Reads : (name : Bytes) → Reads (on_status name)
unfolding Reads on_status
on_status-Reads name s = ground arith

on_logs-Reads : (name : Bytes) (lines : Option ℤ) → Reads (on_logs name lines)
unfolding Reads on_logs
on_logs-Reads name lines s = ground arith

on_list_daemons-Reads : Reads on_list_daemons
unfolding Reads on_list_daemons
on_list_daemons-Reads s = refl

on_list_programs-Reads : Reads on_list_programs
unfolding Reads on_list_programs
on_list_programs-Reads s =
    with_programs-Reads (λ pm s. (Reply.programs (list_programs pm), s)) (λ pm s. refl) s

on_list_features-Reads : Reads on_list_features
unfolding Reads on_list_features
on_list_features-Reads s = ground arith

on_program_status-Reads : (name : Bytes) (pm : ProgramManager) → Reads (on_program_status name pm)
unfolding Reads on_program_status
on_program_status-Reads name pm s = ground arith

on_start-GoesOn : (env : CommandEnv) (name : Bytes) → GoesOn (on_start env name)
unfolding GoesOn on_start start_and_reply
on_start-GoesOn env name s = ground arith

on_restart-GoesOn : (env : CommandEnv) (name : Bytes) → GoesOn (on_restart env name)
unfolding GoesOn on_restart start_and_reply
on_restart-GoesOn env name s = ground arith

on_stop-GoesOn : (env : CommandEnv) (name : Bytes) → GoesOn (on_stop env name)
unfolding GoesOn on_stop
on_stop-GoesOn env name s = ground arith

on_start_program-GoesOn :
    (env : CommandEnv) (name : Bytes) (pm : ProgramManager) → GoesOn (on_start_program env name pm)
unfolding GoesOn on_start_program
on_start_program-GoesOn env name pm s = ground arith

on_stop_program-GoesOn :
    (env : CommandEnv) (name : Bytes) (pm : ProgramManager) → GoesOn (on_stop_program env name pm)
unfolding GoesOn on_stop_program
on_stop_program-GoesOn env name pm s = ground arith

-- The codes of restart, stop, start, shutdown, start-program and stop-program.
abbrev pub is_change : ℕ → Bool
is_change code =
    code == 3 || (code == 4 || (code == 5 || (code == 8 || (code == 11 || code == 12))))

-- A binary command with any code but those of restart, stop, start, shutdown, start-program and
-- stop-program leaves the server as it is.
pub dispatch_bin-unchanged :
    (env : CommandEnv) (cmd : BinCommand) (s : Server)
    → is_change cmd.code ≡ false
    → (dispatch_bin env cmd s).1 ≡ s
unfolding dispatch_bin Reads
dispatch_bin-unchanged env cmd s h =
    let name = bin_attr cmd (text "name") in
    let lines = bin_attr_int cmd (text "lines") in
    ground (
      arith,
      with_name-Reads name on_status on_status-Reads s,
      with_name-Reads name (λ n. on_logs n lines) (λ n. on_logs-Reads n lines) s,
      on_list_features-Reads s,
      on_list_daemons-Reads s,
      on_list_programs-Reads s,
      with_programs-Reads (λ pm. with_name name (λ n. on_program_status n pm))
          (λ pm.
            with_name-Reads name (λ n. on_program_status n pm) (λ n. on_program_status-Reads n pm))
          s,
    )

-- A binary command cancels the server exactly if it is a shutdown; no other one brings it back either.
pub dispatch_bin-is_cancelled :
    (env : CommandEnv) (cmd : BinCommand) (s : Server)
    → (dispatch_bin env cmd s).1.is_cancelled ≡ (s.is_cancelled || cmd.code == 8)
unfolding dispatch_bin GoesOn on_shutdown
dispatch_bin-is_cancelled env cmd s =
    let name = bin_attr cmd (text "name") in
    ground (
      arith,
      dispatch_bin-unchanged env cmd s,
      with_name-GoesOn name (on_restart env) (on_restart-GoesOn env) s,
      with_name-GoesOn name (on_stop env) (on_stop-GoesOn env) s,
      with_name-GoesOn name (on_start env) (on_start-GoesOn env) s,
      with_programs-GoesOn (λ pm. with_name name (λ n. on_start_program env n pm))
          (λ pm.
            with_name-GoesOn name (λ n. on_start_program env n pm)
              (λ n. on_start_program-GoesOn env n pm))
          s,
      with_programs-GoesOn (λ pm. with_name name (λ n. on_stop_program env n pm))
          (λ pm.
            with_name-GoesOn name (λ n. on_stop_program env n pm)
              (λ n. on_stop_program-GoesOn env n pm))
          s,
    )
