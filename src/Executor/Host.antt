-- ===== src/Executor/Host.antt =====
-- server/internal/executor/executor.go and host.go: the result of a command, the interface of an
-- executor, and how HostExecutor reads the end of a process. Running the process is the operating
-- system's.
use multiagent.Base.{Bool, Option, none, some, List, if◌then◌else◌, is_nil}
use multiagent.Base.Text.{Text, codes}
use multiagent.Base.Int.{ℤ, pos, negsuc}

-- An error of an executor, by what `errors.Is` finds in it. A denial or a checkpoint comes from
-- SafeExecutor.
pub data ExecError : Type 0 where
  denied : (reason : Text) → ExecError
  checkpoint : (id reason : Text) → ExecError
  deadline_exceeded : ExecError
  failed : (message : Text) → ExecError

pub record Result : Type 0 where
  pub stdout : Text
  pub stderr : Text
  pub exit_code : ℤ

-- The two values that Run returns.
pub record Ran : Type 0 where
  pub result : Option Result
  pub error : Option ExecError

-- Executor, over the state `W` of the world that commands change.
pub record Executor (W : Type 0) : Type 0 where
  pub run : Text → W → W × Ran
  pub run_command : Text → List Text → W → W × Ran
  pub workdir : Text

-- The error of `cmd.Run`: an exit status that is not zero, or no start.
pub data RunFailure : Type 0 where
  exit_error : ℤ → RunFailure
  start_error : Text → RunFailure

-- The end of a process: its error, whether the context's deadline had passed, and its output.
pub record Ended : Type 0 where
  pub failure : Option RunFailure
  pub past_deadline : Bool
  pub stdout : Text
  pub stderr : Text

abbrev with_output : Ended → ℤ → Result
with_output e code = record { stdout = e.stdout; stderr = e.stderr; exit_code = code }

failure_of : Ended → RunFailure → Ran
failure_of e (exit_error code) = record { result = some (with_output e code); error = none }
failure_of e (start_error message) = record { result = none; error = some (failed message) }

-- finishCommand
unfoldable pub finish_command : Ended → Ran
unfolding failure_of
finish_command e = elim e.failure [
  | none ↦ record { result = some (with_output e (pos 0)); error = none }
  | some f ↦
      if e.past_deadline
      then record { result = some (with_output e (negsuc 0)); error = some deadline_exceeded }
      else failure_of e f
]

abbrev refused : Text → Ran
refused message = record { result = none; error = some (failed message) }

-- HostExecutor.Run, over the process that it starts for a command.
unfoldable pub host_run : {W : Type 0} → (Text → W → W × Ended) → Text → W → W × Ran
host_run process command w =
    if is_nil command
    then (w, refused (codes "executor: 命令不能为空"))
    else let (w', e) = process command w in (w', finish_command e)

-- HostExecutor.RunCommand
unfoldable pub host_run_command :
    {W : Type 0} → (Text → List Text → W → W × Ended) → Text → List Text → W → W × Ran
host_run_command process name args w =
    if is_nil name
    then (w, refused (codes "executor: 程序名不能为空"))
    else let (w', e) = process name args w in (w', finish_command e)
