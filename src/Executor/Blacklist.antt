-- ===== src/Executor/Blacklist.antt =====
-- server/internal/executor/blacklist.go: the policy of dangerous commands.
pub mod Verdicts
use multiagent.Base.{
  ℕ, Bool, true, false, ◌&&◌, ◌||◌, Option, none, some, List, [], ◌∷◌, ◌++◌, if◌then◌else◌, ◌==◌,
}
use multiagent.Base.Text.{Text, codes, trim_space, to_lower, fields, join, contains}

pub data Mode : Type 0 where
  unattended interactive : Mode

-- Decision, an integer of which three are named; `other` is the rest.
pub data Decision : Type 0 where
  allow ask deny : Decision
  other : ℕ → Decision

-- Decision.String
abbrev pub decision_text : Decision → Text
decision_text allow = codes "allow"
decision_text ask = codes "ask"
decision_text deny = codes "deny"
decision_text (other n) = codes "unknown"

abbrev pub decision_eq : Decision → Decision → Bool
decision_eq allow allow = true
decision_eq ask ask = true
decision_eq deny deny = true
decision_eq (other m) (other n) = m == n
decision_eq _ _ = false

-- Rule; `fragment` is its field Match.
pub record Rule : Type 0 where
  pub fragment : Text
  pub decision : Decision
  pub reason : Text

-- normalizeCommand
unfoldable pub normalize_command : (ℕ → ℕ) → Text → Text
normalize_command table command = join (codes " ") (fields (to_lower table (trim_space command)))

abbrev pub denying : Text → Text → Rule
denying fragment reason = record { fragment = fragment; decision = deny; reason = reason }

abbrev pub asking : Text → Text → Rule
asking fragment reason = record { fragment = fragment; decision = ask; reason = reason }

-- DefaultDangerousRules
abbrev pub default_dangerous_rules : List Rule
default_dangerous_rules =
    denying (codes "rm -rf /") (codes "递归强制删除根目录")
    ∷ denying (codes "rm -rf /*") (codes "递归强制删除根目录下全部")
    ∷ denying (codes "rm -fr /") (codes "递归强制删除根目录(参数顺序变体)")
    ∷ denying (codes "rm -rf ~") (codes "递归强制删除用户主目录")
    ∷ denying (codes "rm -fr ~") (codes "递归强制删除用户主目录(参数顺序变体)")
    ∷ denying (codes ":(){") (codes "fork 炸弹（:(){ :|:& };:）")
    ∷ denying (codes "mkfs") (codes "格式化文件系统")
    ∷ denying (codes "shutdown") (codes "关机/重启系统")
    ∷ denying (codes "reboot") (codes "重启系统")
    ∷ denying (codes "halt") (codes "关机系统")
    ∷ denying (codes "> /dev/sda") (codes "向原始磁盘设备写入")
    ∷ denying (codes "of=/dev/sda") (codes "向原始磁盘设备写入(dd)")
    ∷ denying (codes "dd if=/dev/zero") (codes "向磁盘清零(dd)")
    ∷ asking (codes "rm -rf") (codes "递归强制删除（可能误删重要文件）")
    ∷ asking (codes "rm -fr") (codes "递归强制删除（可能误删重要文件）")
    ∷ asking (codes "git push --force") (codes "强制推送（覆盖远端历史）")
    ∷ asking (codes "git push -f") (codes "强制推送（覆盖远端历史）")
    ∷ asking (codes "git reset --hard") (codes "硬重置（丢弃本地修改）")
    ∷ asking (codes "git clean -f") (codes "强制清理未跟踪文件")
    ∷ asking (codes "git checkout --") (codes "丢弃工作区修改")
    ∷ asking (codes "chmod -r 000") (codes "递归剥夺全部权限")
    ∷ []

pub record DangerousCommandPolicy : Type 0 where
  pub rules : List Rule
  pub mode : Mode

-- NewDangerousCommandPolicy
abbrev pub new_dangerous_command_policy : Mode → DangerousCommandPolicy
new_dangerous_command_policy mode = record { rules = default_dangerous_rules; mode = mode }

abbrev pub is_hit : Decision → Text → Rule → Bool
is_hit d norm r = decision_eq r.decision d && contains norm r.fragment

-- One scan of Evaluate: the reason of the first rule with a decision that the command hits.
scan : Decision → Text → List Rule → Option Text
scan d norm [] = none
scan d norm (r ∷ rules) = if is_hit d norm r then some r.reason else scan d norm rules

-- Evaluate
unfoldable pub evaluate : (ℕ → ℕ) → DangerousCommandPolicy → Text → Decision × Text
unfolding scan
evaluate table p command =
    let norm = normalize_command table command in
    elim (scan deny norm p.rules) [
      | some reason ↦ (deny, reason)
      | none ↦ elim (scan ask norm p.rules) [ some reason ↦ (ask, reason) | none ↦ (allow, []) ]
    ]
