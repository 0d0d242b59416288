-- ===== src/Executor/Examples.antt =====
-- Commands run on a world that counts them.
use multiagent.Base.{ℕ, ◌+◌, ◌≡◌, ◌⊎◌, refl, true, none, some, List, [], ◌∷◌, inl}
use multiagent.Base.Text.{Text, codes, trim_space, to_lower, fields, join, contains}
use multiagent.Base.Int.{pos}
use multiagent.Executor.Blacklist.{
  Mode, unattended, ask, deny, Rule, denying, asking, normalize_command, DangerousCommandPolicy,
  new_dangerous_command_policy, evaluate,
}
use multiagent.Executor.Host.{Executor}
use multiagent.Executor.Safe.{SafeExecutor, State, guarded, run, run_command, command_line}
use multiagent.Executor.Safe.Outcomes.{IsRefusal, IsAudited, IsUnaudited}
use multiagent.Executor.Safe.Audits.{guarded-IsAudited}
use multiagent.Executor.Safe.Unattended.{run-unattended}

abbrev table : ℕ → ℕ
table n = n

abbrev policy : DangerousCommandPolicy
policy = new_dangerous_command_policy unattended

abbrev short_policy : Mode → List Rule → DangerousCommandPolicy
short_policy mode rules = record { rules = rules; mode = mode }

abbrev first_rule : Rule
first_rule = denying (codes "mkfs") (codes "format")

abbrev second_rule : Rule
second_rule = asking (codes "rm -rf") (codes "delete")

abbrev wipe : Text
wipe = codes "  RM   -rf  build "

wipe_asks : (evaluate table policy wipe).0 ≡ ask
unfolding evaluate normalize_command trim_space to_lower fields join contains
wipe_asks = refl

abbrev counting : Executor ℕ
counting = record {
  run = λ command w. (
    w + 1,
    record {
      result = some (record { stdout = command; stderr = []; exit_code = pos 0 });
      error = none;
    },
  );
  run_command = λ name args w. (
    w + 1,
    record {
      result = some (record { stdout = name; stderr = []; exit_code = pos 0 });
      error = none;
    },
  );
  workdir = codes "/work";
}

abbrev guard : SafeExecutor ℕ
guard = record {
  inner = counting;
  policy = some (evaluate table policy);
  ask_handler = none;
  checkpointer = none;
}

abbrev start : State ℕ
start = record { world = 0; entries = [] }

-- One who stores the command as a checkpoint; the world counts that too.
abbrev storing : SafeExecutor ℕ
storing = record guard { checkpointer = some (λ request w. (w + 10, (codes "CP-1", true))) }

guarded-IsAudited_example :
    let out = guarded storing 1 wipe (counting.run wipe) start in
    IsAudited storing wipe (counting.run wipe) (evaluate table policy wipe) start out
    ⊎ IsUnaudited (counting.run wipe) (evaluate table policy wipe) start out
guarded-IsAudited_example =
    guarded-IsAudited storing 1 wipe (counting.run wipe) (evaluate table policy) start refl

run-unattended_example :
    let out = run guard 1 (command_line (codes "mkfs") (codes "/dev/x" ∷ [])) start in
    let out' = run_command guard 1 (codes "mkfs") (codes "/dev/x" ∷ []) start in
    (out.0.world ≡ 0)
    × (out.1.result ≡ none)
    × IsRefusal out.1.error
    × (out'.0.world ≡ 0)
    × (out'.1.result ≡ none)
    × IsRefusal out'.1.error
unfolding normalize_command trim_space to_lower fields join
run-unattended_example =
    run-unattended table policy guard 1 (codes "mkfs") (codes "/dev/x" ∷ []) deny start refl refl
      refl (inl refl)
      (6, denying (codes "mkfs") (codes "格式化文件系统"), [], codes " /dev/x", refl, refl, refl)
