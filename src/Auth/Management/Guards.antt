-- ===== src/Auth/Management/Guards.antt =====
-- What holds when the guard on the last admin returns.
use ansina.Prelude.{
  ℕ, ◌≡◌, ◌≢◌, refl, ap, some, List, [], ◌∷◌, Bool, true, false, not, ◌&&◌, ◌||◌, ◌==◌, arith,
  Bool-cases, inl, inr, ok,
}
use ansina.Auth.Grants.{has_role}
use ansina.Auth.Directory.Any.{any, any-row}
use ansina.Auth.Directory.{User, Role, Directory, get_role, get_by_slug, users_with_role, direct}
use ansina.Auth.Directory.Holders.{Holds}
use ansina.Auth.Management.{ids, assert_admin_remains, guard}

abbrev pub admin_role : ℕ → Role
admin_role a = record { id = a; slug = "admin" }

-- The admin role is the one with its id, and the one with its slug.
pub record IsAdminRole (a : ℕ) (roles : List Role) : Type 0 where
  pub by_slug : get_by_slug "admin" roles ≡ some (admin_role a)
  pub by_id : get_role a roles ≡ some (admin_role a)

-- Somebody who can still sign in is admin.
pub record IsAdministered (a : ℕ) (d : Directory) : Type 0 where
  pub roles : IsAdminRole a d.roles
  pub admin_id : ℕ
  pub holds : Holds a admin_id d

pub has_role-ids : (u : ℕ) (us : List User) → has_role u (ids us) ≡ any (λ v. v.id == u) us
unfolding has_role ids any
has_role-ids u [] = refl
has_role-ids u (v ∷ us) = ap (λ b. (v.id == u) || b) (has_role-ids u us)

pub get_role-any :
    (id : ℕ) (rs : List Role) (r : Role) (p : Role → Bool)
    → get_role id rs ≡ some r
    → p r ≡ true
    → any p rs ≡ true
unfolding get_role any
get_role-any id [] r p h e = cc
get_role-any id (s ∷ rs) r p h e = elim (Bool-cases (s.id == id)) [
  | inr other ↦ let later = get_role-any id rs r p (rw other at h) e in rw later (ground arith)
  | inl here ↦
      let found : some s ≡ some r = rw here at h in
      let same : s ≡ r = ground arith in rw (same, e) refl
]

-- Who is left when the guard returns.
pub survivor :
    (a : ℕ) (losing : List ℕ) (d : Directory)
    → IsAdminRole a d.roles
    → assert_admin_remains losing d ≡ true
    → (w : ℕ) × Holds a w d × (has_role w losing ≡ false)
unfolding assert_admin_remains users_with_role
survivor a losing d i h =
    let remaining : any (λ u. not (has_role u.id losing)) (users_with_role a d) ≡ true =
      rw (assert_admin_remains, i.by_slug) at h in
    let (u, spared, test, find) = any-row _ _ d.users remaining in
    (
      u.id,
      record {
        lives = find (λ v. v.id == u.id && v.active && not v.deleted) (ground arith);
        reaches = elim (Bool-cases (direct a u.id d)) [
          | inl straight ↦ inl straight
          | inr not_straight ↦ inr (ground arith)
        ];
      },
      ground arith,
    )

pub guard-ok :
    (passes : Bool) (d d' : Directory) → guard passes d ≡ ok d' → (passes ≡ true) × (d ≡ d')
guard-ok true d d' h = (refl, ground arith)
guard-ok false d d' h = cc

pub other : (id w : ℕ) → has_role w (id ∷ []) ≡ false → id ≢ w
unfolding has_role
other id w h e = ground arith
