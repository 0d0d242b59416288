-- ===== src/Identity/Admin/Callers.antt =====
-- api/admin.go: when the server keeps an active admin.
use multiagent.Base.{
  ℕ, ◌≡◌, refl, sym, inl, inr, ◌&&◌, not, Option, none, some, arith, ◌==◌, ==_iff, Bool-cases,
  subst,
}
use multiagent.Base.Text.{Text, codes, text_eq}
use multiagent.Base.Decimal.{parse_uint}
use multiagent.Identity.{
  active, disabled, is_active, User, Role, Tables, role_of, role_name, get_role_id_by_name,
  get_user_by_id, update_user, count_admins, get_role_by_name, id_of,
}
use multiagent.Identity.Auth.{Identity}
use multiagent.Identity.Auth.Grants.{first-found}
use multiagent.Identity.Admin.{
  UpdateUserRequest, Change, stops, goes, changed, save_change, update_loaded, update_numbered,
  update_user_handler, disable_user_handler, disable_loaded, disable_numbered, enable_user_handler,
  enable_loaded, enable_numbered, reset_password_handler, reset_loaded, reset_hashed,
  reset_numbered, is_last_admin,
}
use multiagent.Identity.Admin.Kept.{
  IsAdmin, Keeps, changed-Keeps, Keeps-same, Keeps-other, Keeps-disabled, Keeps-id, Keeps-IsAdmin,
  get_user-replace, loaded_id, loaded_self,
}

-- A call of a handler that changes accounts.
pub data Call : Type 0 where
  updates : (id : Text) → Option UpdateUserRequest → Call
  disables enables : (id : Text) → Call
  resets : (id : Text) → Option Text → Call

-- Save writes the number of the loaded role or that of the row, which are the same here.
abbrev pub KeepsReference : (ℕ → Option ℕ → ℕ) → Type 0
KeepsReference saved_role =
    ((n : ℕ) → saved_role n none ≡ n) × ((n : ℕ) → saved_role n (some n) ≡ n)

abbrev pub StillAdmin : ℕ → Tables → Type 0
StillAdmin id t = (u : User) × (get_user_by_id id t ≡ some u) × IsAdmin t u

module _ (hash_password : Text → Option Text) (saved_role : ℕ → Option ℕ → ℕ) where
  pub call : Identity → Call → Tables → Tables
  call i (updates id req) t = (update_user_handler hash_password saved_role (some i) id req t).0
  call i (disables id) t = (disable_user_handler hash_password saved_role (some i) id t).0
  call i (enables id) t = (enable_user_handler hash_password saved_role id t).0
  call i (resets id password) t = (reset_password_handler hash_password saved_role id password t).0

  saved_role-same :
      (n : ℕ) (o : Option Role) (old : User) (t : Tables)
      → KeepsReference saved_role
      → role_of old t ≡ o
      → n ≡ old.role_id
      → saved_role n (id_of o) ≡ n
  unfolding role_of
  saved_role-same n none old t keeps eo same = keeps.0 n
  saved_role-same n (some r) old t keeps eo same =
      let is = (first-found (λ r. r.id == old.role_id) t.roles r eo).1 in
      ground (arith, keeps.1 n, ==_iff r.id old.role_id)

  -- The row that Save writes.
  abbrev written : User → User → Tables → User
  written new old t = record new { role_id = saved_role new.role_id (id_of (role_of old t)) }

  written-IsAdmin :
      (new old : User) (t : Tables)
      → KeepsReference saved_role
      → IsAdmin t old
      → IsAdmin t new
      → IsAdmin t (written new old t)
  written-IsAdmin new old t keeps was is = record {
    role = ground (
      arith,
      is.role,
      saved_role-same new.role_id (role_of old t) old t keeps refl
          (ground (arith, was.role, is.role)),
    );
    status = is.status;
  }

  -- Writing an account back: the account of that number, or any other.
  saved-StillAdmin :
      (me : ℕ) (new old u : User) (t : Tables)
      → KeepsReference saved_role
      → get_user_by_id me t ≡ some u
      → IsAdmin t u
      → get_user_by_id old.id t ≡ some old
      → Keeps (me == old.id) t old new
      → StillAdmin me (update_user saved_role new (role_of old t) t)
  unfolding update_user get_user_by_id get_role_id_by_name get_role_by_name
  saved-StillAdmin me new old u t keeps found admin loaded kept = elim (Bool-cases (me == old.id)) [
    | inl self ↦
        let was : IsAdmin t old = record {
          role = ground (arith, admin.role, ==_iff me old.id);
          status = ground (arith, admin.status, ==_iff me old.id);
        } in
        let is =
          written-IsAdmin new old t keeps was
            (Keeps-IsAdmin (me == old.id) t old new kept self was) in
        (
          written new old t,
          ground (
            arith,
            get_user-replace me (written new old t) t.users u found,
            Keeps-id (me == old.id) t old new kept,
            ==_iff me old.id,
            ==_iff new.id me,
          ),
          record { role = is.role; status = is.status },
        )
    | inr other ↦ (
      u,
      ground (
        arith,
        get_user-replace me (written new old t) t.users u found,
        Keeps-id (me == old.id) t old new kept,
        ==_iff me old.id,
        ==_iff new.id me,
      ),
      record { role = admin.role; status = admin.status },
    )
  ]

  module _ (i : Identity) (t : Tables) (me : User) (keeps : KeepsReference saved_role)
      (found : get_user_by_id i.user_id t ≡ some me) (admin : IsAdmin t me) where
    same : StillAdmin i.user_id t
    same = (me, found, admin)

    save_change-StillAdmin :
        (old : User) (c : Change)
        → get_user_by_id old.id t ≡ some old
        → ((new : User) → c ≡ goes new → Keeps (i.user_id == old.id) t old new)
        → StillAdmin i.user_id (save_change hash_password saved_role old t c).0
    unfolding save_change
    save_change-StillAdmin old (stops status message) loaded kept = same
    save_change-StillAdmin old (goes new) loaded kept =
        saved-StillAdmin i.user_id new old me t keeps found admin loaded (kept new refl)

    update_loaded-StillAdmin :
        (id : ℕ) (req : UpdateUserRequest) (u : Option User)
        → get_user_by_id id t ≡ u
        → StillAdmin i.user_id (update_loaded hash_password saved_role (some i) id req t u).0
    unfolding update_loaded
    update_loaded-StillAdmin id req none loaded = same
    update_loaded-StillAdmin id req (some u) loaded =
        save_change-StillAdmin u (changed (i.user_id == id) req t u) (loaded_self id t u loaded)
          (λ v e.
            subst (λ n. Keeps (i.user_id == n) t u v) (sym (loaded_id id t u loaded))
              (changed-Keeps (i.user_id == id) req t u v e))

    update_numbered-StillAdmin :
        (req : Option UpdateUserRequest) (id : Option ℕ)
        → StillAdmin i.user_id (update_numbered hash_password saved_role (some i) req t id).0
    unfolding update_numbered
    update_numbered-StillAdmin req none = same
    update_numbered-StillAdmin none (some id) = same
    update_numbered-StillAdmin (some req) (some id) =
        update_loaded-StillAdmin id req (get_user_by_id id t) refl

    saves :
        (id : ℕ) (new old : User)
        → get_user_by_id id t ≡ some old
        → Keeps (i.user_id == old.id) t old new
        → StillAdmin i.user_id (update_user saved_role new (role_of old t) t)
    saves id new old loaded kept =
        saved-StillAdmin i.user_id new old me t keeps found admin (loaded_self id t old loaded) kept

    disable_loaded-StillAdmin :
        (id : ℕ) (u : Option User)
        → get_user_by_id id t ≡ u
        → StillAdmin i.user_id (disable_loaded hash_password saved_role (some i) id t u).0
    unfolding disable_loaded
    disable_loaded-StillAdmin id none loaded = same
    disable_loaded-StillAdmin id (some u) loaded = elim (Bool-cases (not (is_active u.status))) [
      | inl off ↦ rw off same
      | inr on ↦ elim (Bool-cases (i.user_id == id)) [
        | inl self ↦ rw (on, self) same
        | inr other ↦
            elim (Bool-cases (
              text_eq (role_name u t) (codes "admin")
              && is_last_admin hash_password saved_role (count_admins t))) [
                | inl last ↦ rw (on, other, last) same
                | inr free ↦
                    rw (on, other, free)
                      (saves id (record u { status = disabled }) u loaded
                        (Keeps-other (i.user_id == u.id) t u (record u { status = disabled })
                          (ground (arith, other, loaded_id id t u loaded)) refl))
              ]
      ]
    ]

    enable_loaded-StillAdmin :
        (id : ℕ) (u : Option User)
        → get_user_by_id id t ≡ u
        → StillAdmin i.user_id (enable_loaded hash_password saved_role t u).0
    unfolding enable_loaded
    enable_loaded-StillAdmin id none loaded = same
    enable_loaded-StillAdmin id (some u) loaded = elim (Bool-cases (is_active u.status)) [
      | inl on ↦ rw on same
      | inr off ↦ rw off (
          saves id (record u { status = active }) u loaded
            (Keeps-disabled (i.user_id == u.id) t u (record u { status = active }) off refl))
    ]

    reset_hashed-StillAdmin :
        (id : ℕ) (u : User) (hash : Option Text)
        → get_user_by_id id t ≡ some u
        → StillAdmin i.user_id (reset_hashed hash_password saved_role u t hash).0
    unfolding reset_hashed
    reset_hashed-StillAdmin id u none loaded = same
    reset_hashed-StillAdmin id u (some hash) loaded =
        saves id (record u { password_hash = hash }) u loaded
          (Keeps-same (i.user_id == u.id) t u (record u { password_hash = hash }) refl refl refl)

    disable_numbered-StillAdmin :
        (id : Option ℕ)
        → StillAdmin i.user_id (disable_numbered hash_password saved_role (some i) t id).0
    unfolding disable_numbered
    disable_numbered-StillAdmin none = same
    disable_numbered-StillAdmin (some id) = disable_loaded-StillAdmin id (get_user_by_id id t) refl

    enable_numbered-StillAdmin :
        (id : Option ℕ) → StillAdmin i.user_id (enable_numbered hash_password saved_role t id).0
    unfolding enable_numbered
    enable_numbered-StillAdmin none = same
    enable_numbered-StillAdmin (some id) = enable_loaded-StillAdmin id (get_user_by_id id t) refl

    reset_loaded-StillAdmin :
        (id : ℕ) (password : Text) (u : Option User)
        → get_user_by_id id t ≡ u
        → StillAdmin i.user_id (reset_loaded hash_password saved_role password t u).0
    unfolding reset_loaded
    reset_loaded-StillAdmin id password none loaded = same
    reset_loaded-StillAdmin id password (some u) loaded =
        reset_hashed-StillAdmin id u (hash_password password) loaded

    reset_numbered-StillAdmin :
        (password : Option Text) (id : Option ℕ)
        → StillAdmin i.user_id (reset_numbered hash_password saved_role password t id).0
    unfolding reset_numbered
    reset_numbered-StillAdmin password none = same
    reset_numbered-StillAdmin none (some id) = same
    reset_numbered-StillAdmin (some password) (some id) =
        reset_loaded-StillAdmin id password (get_user_by_id id t) refl

-- Whatever an active admin asks for, an update, a disabling, an enabling or a new password of any
-- account, its own included, it is an active admin afterwards, if Save keeps a role's number that
-- is also the loaded role's.
pub call-StillAdmin :
    (hash_password : Text → Option Text) (saved_role : ℕ → Option ℕ → ℕ) (i : Identity) (c : Call)
    (t : Tables) (me : User)
    → KeepsReference saved_role
    → get_user_by_id i.user_id t ≡ some me
    → IsAdmin t me
    → StillAdmin i.user_id (call hash_password saved_role i c t)
unfolding call update_user_handler disable_user_handler enable_user_handler reset_password_handler
call-StillAdmin hash_password saved_role i (updates id req) t me keeps found admin =
    update_numbered-StillAdmin hash_password saved_role i t me keeps found admin req (parse_uint id)
call-StillAdmin hash_password saved_role i (disables id) t me keeps found admin =
    disable_numbered-StillAdmin hash_password saved_role i t me keeps found admin (parse_uint id)
call-StillAdmin hash_password saved_role i (enables id) t me keeps found admin =
    enable_numbered-StillAdmin hash_password saved_role i t me keeps found admin (parse_uint id)
call-StillAdmin hash_password saved_role i (resets id password) t me keeps found admin =
    reset_numbered-StillAdmin hash_password saved_role i t me keeps found admin password
      (parse_uint id)
