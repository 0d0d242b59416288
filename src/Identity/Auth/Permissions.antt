-- ===== src/Identity/Auth/Permissions.antt =====
-- middleware/auth.go: what the seeded roles may do.
use multiagent.Base.{
  ◌≡◌, ◌⊎◌, refl, sym, inl, inr, Bool, true, false, ◌&&◌, Option, none, some, List, [], ◌∷◌, arith,
  All, Bool-cases,
}
use multiagent.Base.Text.{Text, codes, text_eq, text_eq_iff}
use multiagent.Identity.{RolePermission, Role, Tables, get_role_by_name}
use multiagent.Identity.Seeds.{seed_roles, admin_role, developer_role, viewer_role}
use multiagent.Identity.Auth.{
  Identity, passes, require_permission, permitted, has_permission, covers,
}

has_permission-read :
    (ps : List RolePermission) (resource action : Text)
    → All (λ p. p.action ≡ codes "read") ps
    → has_permission ps resource action ≡ true
    → action ≡ codes "read"
unfolding has_permission
has_permission-read [] resource action a e = absurd (ground arith)
has_permission-read (p ∷ ps) resource action a e = elim (Bool-cases (covers p.action action)) [
  | inl now ↦
      ground (arith, a.0, now, text_eq_iff p.action (codes "*"), text_eq_iff p.action action)
  | inr later ↦ has_permission-read ps resource action a.1 (ground (arith, e))
]

permitted-passes :
    (resource action : Text) (i j : Identity) (r : Option Role)
    → permitted resource action i r ≡ passes j
    → (role : Role) × (r ≡ some role) × (has_permission role.permissions resource action ≡ true)
unfolding permitted
permitted-passes resource action i j none e = absurd (ground arith)
permitted-passes resource action i j (some r) e =
    elim (Bool-cases (has_permission r.permissions resource action)) [
      | inl has ↦ (r, refl, has)
      | inr not_has ↦ absurd (ground (arith, e))
    ]

module _ (name : Text) (t : Tables) where
  seeded_viewer :
      t.roles ≡ seed_roles
      → text_eq (codes "admin") name ≡ false
      → text_eq (codes "developer") name ≡ false
      → text_eq (codes "viewer") name ≡ true
      → get_role_by_name name t ≡ some viewer_role
  unfolding get_role_by_name seed_roles admin_role developer_role viewer_role
  seeded_viewer et a d v = rw (et, a, d, v) refl

  seeded_none :
      t.roles ≡ seed_roles
      → text_eq (codes "admin") name ≡ false
      → text_eq (codes "developer") name ≡ false
      → text_eq (codes "viewer") name ≡ false
      → get_role_by_name name t ≡ none
  unfolding get_role_by_name seed_roles admin_role developer_role viewer_role
  seeded_none et a d v = rw (et, a, d, v) refl

abbrev reads_only : List RolePermission → Bool
reads_only [] = true
reads_only (p ∷ ps) = text_eq p.action (codes "read") && reads_only ps

reads_only-All :
    (ps : List RolePermission) → reads_only ps ≡ true → All (λ p. p.action ≡ codes "read") ps
reads_only-All [] e = tt
reads_only-All (p ∷ ps) e =
    ((text_eq_iff p.action (codes "read")).0 (ground arith), reads_only-All ps (ground arith))

viewer_reads : All (λ p. p.action ≡ codes "read") viewer_role.permissions
unfolding viewer_role text_eq
viewer_reads = reads_only-All viewer_role.permissions refl

-- With the seeded roles a caller that may do something is an admin, a developer, or a viewer that
-- reads.
pub require_permission-seeded :
    (t : Tables) (resource action : Text) (i j : Identity)
    → t.roles ≡ seed_roles
    → require_permission t resource action (some i) ≡ passes j
    → (i.role ≡ codes "admin")
      ⊎ ((i.role ≡ codes "developer") ⊎ ((i.role ≡ codes "viewer") × (action ≡ codes "read")))
unfolding require_permission
require_permission-seeded t resource action i j et e =
    let (r, found, has) = permitted-passes resource action i j (get_role_by_name i.role t) e in
    elim (Bool-cases (text_eq (codes "admin") i.role)) [
      | inl admin ↦ inl (sym ((text_eq_iff (codes "admin") i.role).0 admin))
      | inr not_admin ↦ elim (Bool-cases (text_eq (codes "developer") i.role)) [
        | inl developer ↦ inr (inl (sym ((text_eq_iff (codes "developer") i.role).0 developer)))
        | inr not_developer ↦ elim (Bool-cases (text_eq (codes "viewer") i.role)) [
          | inl viewer ↦ inr (
              inr (
                sym ((text_eq_iff (codes "viewer") i.role).0 viewer),
                has_permission-read viewer_role.permissions resource action viewer_reads (
                    ground (
                      arith,
                      has,
                      found,
                      seeded_viewer i.role t et not_admin not_developer viewer,
                    )),
              ))
          | inr unknown ↦
              absurd
                (ground (arith, found, seeded_none i.role t et not_admin not_developer unknown))
        ]
      ]
    ]
