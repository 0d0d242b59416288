-- ===== src/Identity/Seeds.antt =====
-- server/internal/model/role.go: the roles that every database starts with.
use multiagent.Base.{List, [], ◌∷◌, String}
use multiagent.Base.Text.{codes}
use multiagent.Identity.{RolePermission, Role}

abbrev permission : String → String → RolePermission
permission resource action = record { resource = codes resource; action = codes action }

unfoldable pub admin_role : Role
admin_role = record {
  id = 1;
  name = codes "admin";
  description = codes "Administrator with full access";
  permissions = permission "*" "*" ∷ [];
}

unfoldable pub developer_role : Role
developer_role = record {
  id = 2;
  name = codes "developer";
  description = codes "Developer with workspace and agent access";
  permissions =
      permission "providers" "read"
      ∷ permission "providers" "write"
      ∷ permission "models" "read"
      ∷ permission "models" "write"
      ∷ permission "sessions" "*"
      ∷ permission "chat" "*"
      ∷ permission "apikeys" "write"
      ∷ permission "workspaces" "write"
      ∷ permission "tools" "read"
      ∷ permission "skills" "read"
      ∷ permission "skills" "write"
      ∷ permission "mcp" "read"
      ∷ permission "mcp" "write"
      ∷ permission "taskruns" "read"
      ∷ permission "taskruns" "write"
      ∷ permission "audit" "read"
      ∷ permission "usage" "read"
      ∷ permission "budgets" "read"
      ∷ permission "budgets" "write"
      ∷ permission "checkpoints" "read"
      ∷ permission "checkpoints" "write"
      ∷ permission "automations" "read"
      ∷ permission "automations" "write"
      ∷ permission "notifications" "read"
      ∷ permission "notifications" "write"
      ∷ permission "knowledge" "read"
      ∷ permission "knowledge" "write"
      ∷ permission "skill_candidates" "read"
      ∷ permission "skill_candidates" "write"
      ∷ permission "evaluations" "read"
      ∷ permission "evaluations" "write"
      ∷ permission "promptiter" "read"
      ∷ permission "promptiter" "write"
      ∷ permission "instructions" "read"
      ∷ permission "instructions" "write"
      ∷ permission "im" "read"
      ∷ permission "im" "write"
      ∷ permission "tenants" "read"
      ∷ [];
}

unfoldable pub viewer_role : Role
viewer_role = record {
  id = 3;
  name = codes "viewer";
  description = codes "Read-only access";
  permissions =
      permission "providers" "read"
      ∷ permission "models" "read"
      ∷ permission "workspaces" "read"
      ∷ permission "chat" "read"
      ∷ permission "mcp" "read"
      ∷ permission "skills" "read"
      ∷ permission "taskruns" "read"
      ∷ permission "audit" "read"
      ∷ permission "usage" "read"
      ∷ permission "budgets" "read"
      ∷ permission "checkpoints" "read"
      ∷ permission "automations" "read"
      ∷ permission "notifications" "read"
      ∷ permission "knowledge" "read"
      ∷ permission "skill_candidates" "read"
      ∷ permission "evaluations" "read"
      ∷ permission "promptiter" "read"
      ∷ permission "instructions" "read"
      ∷ permission "im" "read"
      ∷ [];
}

-- SeedRoles, numbered as an empty table numbers them.
unfoldable pub seed_roles : List Role
unfolding admin_role developer_role viewer_role
seed_roles = admin_role ∷ developer_role ∷ viewer_role ∷ []
