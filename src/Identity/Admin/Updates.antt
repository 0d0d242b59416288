-- ===== src/Identity/Admin/Updates.antt =====
-- api/admin.go: what UpdateUserHandler does to the admins.
use multiagent.Base.{
  ℕ, ◌≡◌, ◌≤◌, ◌<◌, refl, sym, ◌∙◌, inl, inr, Bool, true, false, ◌&&◌, not, Option, none, some,
  List, [], ◌∷◌, arith, length, keep, ◌==◌, ==_iff, Bool-cases, subst,
}
use multiagent.Base.Text.{Text, codes, text_eq}
use multiagent.Base.Decimal.{parse_uint}
use multiagent.Identity.{
  disabled, is_active, User, Role, Tables, first, role_of, role_name, get_role_id_by_name,
  get_user_by_id, replace_user, update_user, count_admins, get_role_by_name, id_of,
}
use multiagent.Identity.Auth.{Identity}
use multiagent.Identity.Auth.Grants.{first-found}
use multiagent.Identity.Admin.{
  UpdateUserRequest, Change, stops, goes, changed, change_role, change_status, change_tenant,
  save_change, update_loaded, update_numbered, is_self, update_user_handler, disable_user_handler,
  disable_loaded, disable_numbered,
}
use multiagent.Identity.Admin.Kept.{IsAdmin, changed-Keeps, Keeps-id, get_user-replace, loaded_self}

abbrev counts : ℕ → User → Bool
counts role u = (u.role_id == role) && is_active u.status

abbrev pub count : ℕ → List User → ℕ
count role us = length (keep (counts role) us)

-- Writing back an account that does not count does not raise the count.
count-replace-le :
    (role : ℕ) (v : User) (us : List User)
    → counts role v ≡ false
    → count role (replace_user v us) ≤ count role us
count-replace-le role v [] off = ground arith
count-replace-le role v (u ∷ us) off = ground (arith, count-replace-le role v us off)

-- It lowers the count if the account counted before.
count-replace-lt :
    (role : ℕ) (v u : User) (us : List User)
    → counts role v ≡ false
    → counts role u ≡ true
    → first (λ w. w.id == v.id) us ≡ some u
    → count role (replace_user v us) < count role us
count-replace-lt role v u [] off on found = absurd (ground arith)
count-replace-lt role v u (w ∷ us) off on found =
    ground
      (arith, ==_iff w.id v.id, count-replace-le role v us off, count-replace-lt role v u us off on)

-- A request that disables an account and changes nothing else.
abbrev pub disabling : UpdateUserRequest
disabling = record { display_name = []; role = []; status = codes "disabled"; tenant_id = none }

changed-disabling :
    (b : Bool) (t : Tables) (u : User)
    → b ≡ false
    → changed b disabling t u ≡ goes (record u { status = disabled })
unfolding changed change_role change_status change_tenant text_eq
changed-disabling b t u free = rw free refl

module _ (hash_password : Text → Option Text) (saved_role : ℕ → Option ℕ → ℕ) where
  update_handler-disabling :
      (caller : Identity) (id : Text) (n : ℕ) (t : Tables) (u : User)
      → parse_uint id ≡ some n
      → get_user_by_id n t ≡ some u
      → (caller.user_id == n) ≡ false
      → (update_user_handler hash_password saved_role (some caller) id (some disabling) t).0
        ≡ update_user saved_role (record u { status = disabled }) (role_of u t) t
  unfolding update_user_handler update_numbered update_loaded save_change
  update_handler-disabling caller id n t u parsed loaded other =
      rw (parsed, loaded, changed-disabling (caller.user_id == n) t u other) refl

  disable_handler-last :
      (caller : Identity) (id : Text) (n : ℕ) (t : Tables) (u : User)
      → parse_uint id ≡ some n
      → get_user_by_id n t ≡ some u
      → role_name u t ≡ codes "admin"
      → count_admins t ≡ some 1
      → (disable_user_handler hash_password saved_role (some caller) id t).0 ≡ t
  unfolding disable_user_handler disable_numbered disable_loaded text_eq
  disable_handler-last caller id n t u parsed loaded named one =
      rw (parsed, loaded)
        (elim (Bool-cases (not (is_active u.status))) [
          | inl off ↦ rw off refl
          | inr on ↦ elim (Bool-cases (caller.user_id == n)) [
            | inl self ↦ rw (on, self) refl
            | inr other ↦ rw (on, other, named, one) refl
          ]
        ])

count_admins-of :
    (t : Tables) (role : ℕ)
    → get_role_id_by_name (codes "admin") t ≡ some role
    → count_admins t ≡ some (count role t.users)
unfolding count_admins
count_admins-of t role e = rw (count_admins, e) refl

module _ (saved_role : ℕ → Option ℕ → ℕ) where
  count_admins-disabled :
      (t : Tables) (u : User)
      → IsAdmin t u
      → get_user_by_id u.id t ≡ some u
      → count_admins t ≡ some 1
      → count_admins (update_user saved_role (record u { status = disabled }) (role_of u t) t)
        ≡ some 0
  unfolding update_user get_user_by_id get_role_id_by_name get_role_by_name
  count_admins-disabled t u admin loaded one =
      let was = count_admins-of t u.role_id admin.role in
      let v = record u {
        role_id = saved_role u.role_id (id_of (role_of u t));
        status = disabled;
      } in
      let off : count u.role_id (replace_user v t.users) ≡ 0 = ground (
        arith,
        was,
        one,
        count-replace-lt u.role_id v u t.users (ground arith)
            (ground (arith, admin.status, ==_iff u.role_id u.role_id)) loaded,
      ) in
      ground (
        arith,
        count_admins-of (record t { users = replace_user v t.users }) u.role_id admin.role,
        off,
      )

-- Where one active admin is left, DisableUserHandler leaves the tables as they are when it is asked
-- to disable that account, whoever asks; but UpdateUserHandler, asked for the same by a caller that
-- is another account, whatever the caller's role, leaves no active admin at all.
pub update_handler-locks_out :
    (hash_password : Text → Option Text) (saved_role : ℕ → Option ℕ → ℕ) (caller : Identity)
    (id : Text) (n : ℕ) (t : Tables) (last : User)
    → parse_uint id ≡ some n
    → get_user_by_id n t ≡ some last
    → IsAdmin t last
    → role_name last t ≡ codes "admin"
    → count_admins t ≡ some 1
    → (caller.user_id == n) ≡ false
    → ((disable_user_handler hash_password saved_role (some caller) id t).0 ≡ t)
      × (count_admins
            (update_user_handler hash_password saved_role (some caller) id (some disabling) t).0
          ≡ some 0)
update_handler-locks_out hash_password saved_role caller id n t last parsed loaded admin named one
      other =
    (
      disable_handler-last hash_password saved_role caller id n t last parsed loaded named one,
      rw (update_handler-disabling hash_password saved_role caller id n t last parsed loaded other)
          (count_admins-disabled saved_role t last admin (loaded_self n t last loaded) one),
    )

-- Save of a row with a loaded role writes that role's number.
abbrev pub SavesReference : (ℕ → Option ℕ → ℕ) → Type 0
SavesReference saved_role = (n m : ℕ) → saved_role n (some m) ≡ m

abbrev pub role_id_of : Option User → Option ℕ
role_id_of none = none
role_id_of (some u) = some u.role_id

module _ (hash_password : Text → Option Text) (saved_role : ℕ → Option ℕ → ℕ) (t : Tables)
    (saves : SavesReference saved_role) (n : ℕ) (u : User) (r : Role)
    (found : get_user_by_id n t ≡ some u) (loaded : role_of u t ≡ some r) where
  abbrev Unmoved : Tables → Type 0
  Unmoved t' = role_id_of (get_user_by_id n t') ≡ some u.role_id

  unmoved : Unmoved t
  unmoved = ground (arith, found)

  -- What Save writes of a changed account has the number of the role it was loaded with.
  written_role :
      (new old : User) → old ≡ u → saved_role new.role_id (id_of (role_of old t)) ≡ u.role_id
  unfolding role_of
  written_role new old is =
      let named = (first-found (λ s. s.id == u.role_id) t.roles r loaded).1 in
      subst (λ v. saved_role new.role_id (id_of (role_of v t)) ≡ u.role_id) (sym is)
        (rw (role_of, loaded) (saves new.role_id r.id ∙ (==_iff r.id u.role_id).0 named))

  save_change-Unmoved :
      (old : User) (c : Change)
      → get_user_by_id old.id t ≡ some old
      → ((new : User) → c ≡ goes new → new.id ≡ old.id)
      → Unmoved (save_change hash_password saved_role old t c).0
  unfolding save_change update_user get_user_by_id
  save_change-Unmoved old (stops status message) own kept = unmoved
  save_change-Unmoved old (goes new) own kept =
      let v = record new { role_id = saved_role new.role_id (id_of (role_of old t)) } in
      let after = get_user-replace n v t.users u found in
      elim (Bool-cases (old.id == n)) [
        | inl same ↦ ground (
          arith,
          after,
          kept new refl,
          ==_iff old.id n,
          ==_iff new.id n,
          written_role new old (ground (arith, own, found, ==_iff old.id n)),
        )
        | inr other ↦ ground (arith, after, kept new refl, ==_iff old.id n, ==_iff new.id n)
      ]

  update_loaded-Unmoved :
      (caller : Option Identity) (id : ℕ) (req : UpdateUserRequest) (o : Option User)
      → get_user_by_id id t ≡ o
      → Unmoved (update_loaded hash_password saved_role caller id req t o).0
  unfolding update_loaded
  update_loaded-Unmoved caller id req none own = unmoved
  update_loaded-Unmoved caller id req (some v) own =
      save_change-Unmoved v (changed (is_self hash_password saved_role caller id) req t v)
        (loaded_self id t v own)
        (λ w e.
          Keeps-id (is_self hash_password saved_role caller id) t v w
            (changed-Keeps (is_self hash_password saved_role caller id) req t v w e))

  update_numbered-Unmoved :
      (caller : Option Identity) (req : Option UpdateUserRequest) (id : Option ℕ)
      → Unmoved (update_numbered hash_password saved_role caller req t id).0
  unfolding update_numbered
  update_numbered-Unmoved caller req none = unmoved
  update_numbered-Unmoved caller none (some id) = unmoved
  update_numbered-Unmoved caller (some req) (some id) =
      update_loaded-Unmoved caller id req (get_user_by_id id t) refl

-- Where Save writes the number of a loaded role, UpdateUserHandler changes no role: it loads the
-- account with its role and does not unload the role when it sets another number, so every account
-- with a role has the same role's number after every request.
pub update_handler-role :
    (hash_password : Text → Option Text) (saved_role : ℕ → Option ℕ → ℕ) (caller : Option Identity)
    (id : Text) (req : Option UpdateUserRequest) (t : Tables) (n : ℕ) (u : User) (r : Role)
    → SavesReference saved_role
    → get_user_by_id n t ≡ some u
    → role_of u t ≡ some r
    → role_id_of (get_user_by_id n (update_user_handler hash_password saved_role caller id req t).0)
      ≡ some u.role_id
unfolding update_user_handler
update_handler-role hash_password saved_role caller id req t n u r saves found loaded =
    update_numbered-Unmoved hash_password saved_role t saves n u r found loaded caller req
      (parse_uint id)
