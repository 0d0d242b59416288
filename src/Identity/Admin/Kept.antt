-- ===== src/Identity/Admin/Kept.antt =====
-- api/admin.go: what an account's change leaves as it is.
use multiagent.Base.{
  ℕ, ◌≡◌, ◌⊎◌, refl, sym, ◌∙◌, inl, inr, Bool, true, false, ◌&&◌, not, Option, none, some, List, [],
  ◌∷◌, arith, is_nil, if◌then◌else◌, ◌==◌, ==_iff, Bool-cases, subst,
}
use multiagent.Base.Text.{Text, codes, text_eq, text_eq_iff}
use multiagent.Identity.{
  active, disabled, is_active, User, Tables, first, get_role_id_by_name, get_user_by_id,
  replace_user,
}
use multiagent.Identity.Auth.Grants.{first-found}
use multiagent.Identity.Admin.{
  UpdateUserRequest, Change, stops, goes, and_then, change_role, given_role, change_status,
  change_name, change_tenant, joined, tenant_for, changed, is_known_role,
}

-- What CountAdmins counts.
pub record IsAdmin (t : Tables) (u : User) : Type 0 where
  pub role : get_role_id_by_name (codes "admin") t ≡ some u.role_id
  pub status : u.status ≡ active

-- A change of an account keeps its number, and an admin an admin where the caller is the account.
abbrev pub Keeps : Bool → Tables → User → User → Type 0
Keeps true t u v = (v.id ≡ u.id) × (IsAdmin t u → IsAdmin t v)
Keeps false t u v = (v.id ≡ u.id) × Unit

Keeps-trans : (b : Bool) (t : Tables) (u v w : User) → Keeps b t u v → Keeps b t v w → Keeps b t u w
Keeps-trans true t u v w (i, f) (j, g) = (ground arith, λ a. g (f a))
Keeps-trans false t u v w (i, f) (j, g) = (ground arith, tt)

pub Keeps-same :
    (b : Bool) (t : Tables) (u v : User)
    → v.id ≡ u.id
    → v.role_id ≡ u.role_id
    → v.status ≡ u.status
    → Keeps b t u v
Keeps-same true t u v i r s =
    (i, λ a. record { role = ground (arith, a.role); status = s ∙ a.status })
Keeps-same false t u v i r s = (i, tt)

pub Keeps-other : (b : Bool) (t : Tables) (u v : User) → b ≡ false → v.id ≡ u.id → Keeps b t u v
Keeps-other true t u v other i = absurd (ground arith)
Keeps-other false t u v other i = (i, tt)

pub Keeps-disabled :
    (b : Bool) (t : Tables) (u v : User) → is_active u.status ≡ false → v.id ≡ u.id → Keeps b t u v
Keeps-disabled true t u v off i = (i, λ a. absurd (ground (arith, a.status)))
Keeps-disabled false t u v off i = (i, tt)

pub Keeps-id : (b : Bool) (t : Tables) (u v : User) → Keeps b t u v → v.id ≡ u.id
Keeps-id true t u v k = k.0
Keeps-id false t u v k = k.0

pub Keeps-IsAdmin :
    (b : Bool) (t : Tables) (u v : User) → Keeps b t u v → b ≡ true → IsAdmin t u → IsAdmin t v
Keeps-IsAdmin true t u v k is = k.1
Keeps-IsAdmin false t u v k is = absurd (ground arith)

and_then-Keeps :
    (b : Bool) (t : Tables) (c : Change) (f : User → Change) (u w : User)
    → ((v : User) → c ≡ goes v → Keeps b t u v)
    → ((v : User) → f v ≡ goes w → Keeps b t v w)
    → and_then c f ≡ goes w
    → Keeps b t u w
and_then-Keeps b t (stops status message) f u w h k e = absurd (ground arith)
and_then-Keeps b t (goes v) f u w h k e = Keeps-trans b t u v w (h v refl) (k v e)

given_role-goes :
    (id : Option ℕ) (u v : User)
    → given_role id u ≡ goes v
    → (n : ℕ) × (id ≡ some n) × (v ≡ record u { role_id = n })
unfolding given_role
given_role-goes none u v e = absurd (ground arith)
given_role-goes (some n) u v e = (n, refl, ground arith)

change_role-goes :
    (b : Bool) (t : Tables) (role : Text) (u v : User)
    → change_role b role t u ≡ goes v
    → (v ≡ u)
      ⊎ ((n : ℕ) × (get_role_id_by_name role t ≡ some n)
          × (v ≡ record u { role_id = n })
          × ((b && not (text_eq role (codes "admin"))) ≡ false))
unfolding change_role
change_role-goes b t role u v e = elim (Bool-cases (is_nil role)) [
  | inl blank ↦ inl (ground (arith, e))
  | inr given ↦ elim (Bool-cases (not (is_known_role role))) [
    | inl unknown ↦ absurd (ground (arith, e))
    | inr known ↦ elim (Bool-cases (b && not (text_eq role (codes "admin")))) [
      | inl demotes ↦ absurd (ground (arith, e))
      | inr free ↦
          let (n, is, v_is) =
            given_role-goes (get_role_id_by_name role t) u v (ground (arith, e)) in
          inr (n, is, v_is, free)
    ]
  ]
]

change_role-Keeps :
    (b : Bool) (t : Tables) (role : Text) (u v : User)
    → change_role b role t u ≡ goes v
    → Keeps b t u v
change_role-Keeps true t role u v e = elim (change_role-goes true t role u v e) [
  | inl same ↦ Keeps-same true t u v (ground arith) (ground arith) (ground arith)
  | inr (n, found, is, free) ↦ (
    ground arith,
    λ a. record {
      role = ground (arith, a.role, found, text_eq_iff role (codes "admin"));
      status = ground (arith, a.status);
    },
  )
]
change_role-Keeps false t role u v e = elim (change_role-goes false t role u v e) [
  | inl same ↦ (ground arith, tt)
  | inr (n, found, is, free) ↦ (ground arith, tt)
]

change_status-goes :
    (b : Bool) (status : Text) (u v : User)
    → change_status b status u ≡ goes v
    → (v ≡ u)
      ⊎ ((v ≡ record u { status = active }) ⊎ ((v ≡ record u { status = disabled }) × (b ≡ false)))
unfolding change_status
change_status-goes b status u v e = elim (Bool-cases (is_nil status)) [
  | inl blank ↦ inl (ground (arith, e))
  | inr given ↦ elim (Bool-cases (text_eq status (codes "active"))) [
    | inl enables ↦ inr (inl (ground (arith, e)))
    | inr other ↦ elim (Bool-cases (not (text_eq status (codes "disabled")))) [
      | inl unknown ↦ absurd (ground (arith, e))
      | inr disables ↦ elim (Bool-cases b) [
        | inl self ↦ absurd (ground (arith, e))
        | inr free ↦ inr (inr (ground (arith, e), free))
      ]
    ]
  ]
]

change_status-Keeps :
    (b : Bool) (t : Tables) (status : Text) (u v : User)
    → change_status b status u ≡ goes v
    → Keeps b t u v
change_status-Keeps true t status u v e = elim (change_status-goes true status u v e) [
  | inl same ↦ Keeps-same true t u v (ground arith) (ground arith) (ground arith)
  | inr (inl is) ↦
      (ground arith, λ a. record { role = ground (arith, a.role); status = ground arith })
  | inr (inr (is, free)) ↦ absurd (ground arith)
]
change_status-Keeps false t status u v e = elim (change_status-goes false status u v e) [
  | inl same ↦ (ground arith, tt)
  | inr (inl is) ↦ (ground arith, tt)
  | inr (inr (is, free)) ↦ (ground arith, tt)
]

joined-Keeps :
    (b : Bool) (t : Tables) (o : Option Text × Option ℕ) (u v : User)
    → joined o u ≡ goes v
    → Keeps b t u v
unfolding joined
joined-Keeps b t (some message, id) u v e = absurd (ground arith)
joined-Keeps b t (none, id) u v e = Keeps-same b t u v (ground arith) (ground arith) (ground arith)

change_tenant-Keeps :
    (b : Bool) (t : Tables) (id : Option ℕ) (u v : User)
    → change_tenant id t u ≡ goes v
    → Keeps b t u v
unfolding change_tenant
change_tenant-Keeps b t none u v e = Keeps-same b t u v (ground arith) (ground arith) (ground arith)
change_tenant-Keeps b t (some id) u v e = joined-Keeps b t (tenant_for (some id) t) u v e

change_name-Keeps :
    (b : Bool) (t : Tables) (name : Text) (u v : User) → change_name name u ≡ goes v → Keeps b t u v
change_name-Keeps b t name u v e = Keeps-same b t u v (ground arith) (ground arith) (ground arith)

-- The changes of a request together.
pub changed-Keeps :
    (b : Bool) (req : UpdateUserRequest) (t : Tables) (u v : User)
    → changed b req t u ≡ goes v
    → Keeps b t u v
unfolding changed
changed-Keeps b req t u v e =
    and_then-Keeps b t (change_role b req.role t u) _ u v (change_role-Keeps b t req.role u)
      (λ u₁.
        and_then-Keeps b t (change_status b req.status u₁) _ u₁ v
          (change_status-Keeps b t req.status u₁)
          (λ u₂.
            and_then-Keeps b t (change_name req.display_name u₂) _ u₂ v
              (change_name-Keeps b t req.display_name u₂)
              (λ u₃. change_tenant-Keeps b t req.tenant_id u₃ v)))
      e

-- An account after one of that number has been replaced.
pub get_user-replace :
    (id : ℕ) (v : User) (us : List User) (u : User)
    → first (λ u. u.id == id) us ≡ some u
    → first (λ u. u.id == id) (replace_user v us) ≡ some (if v.id == id then v else u)
get_user-replace id v [] u e = absurd (ground arith)
get_user-replace id v (w ∷ us) u e =
    ground (arith, ==_iff v.id id, ==_iff w.id id, ==_iff w.id v.id, get_user-replace id v us u)

-- A loaded account is the one of the number it was loaded by.
pub loaded_id : (id : ℕ) (t : Tables) (u : User) → get_user_by_id id t ≡ some u → u.id ≡ id
unfolding get_user_by_id
loaded_id id t u e = (==_iff u.id id).0 (first-found (λ u. u.id == id) t.users u e).1

pub loaded_self :
    (id : ℕ) (t : Tables) (u : User) → get_user_by_id id t ≡ some u → get_user_by_id u.id t ≡ some u
loaded_self id t u loaded =
    subst (λ n. get_user_by_id n t ≡ some u) (sym (loaded_id id t u loaded)) loaded
