-- ===== src/Auth/Directory/Holders.antt =====
-- Which changes of the tables leave a user with a role that it holds.
use ansina.Prelude.{
  ℕ, ◌≡◌, ◌⊎◌, refl, List, [], ◌∷◌, Bool, true, false, not, ◌&&◌, ◌==◌, keep, arith, Bool-cases,
  inl, inr,
}
use ansina.Auth.Directory.Any.{any, any_mono, any-keep, any-none, any_anti}
use ansina.Auth.Directory.{
  SubjectType, User, Membership, RoleAssignment, Directory, assigns, set_users, direct,
  through_group, list_members,
}

abbrev pub live : ℕ → List User → Bool
live u = any (λ v. v.id == u && v.active && not v.deleted)

-- The role that is looked at, and one user.
module _ (role u : ℕ) where
  abbrev pub by_group : List RoleAssignment → Membership → Bool
  by_group as' m = m.user_id == u && any (assigns SubjectType.group m.group_id role) as'

  -- An active user that holds the role, directly or through a group.
  pub record Holds (d : Directory) : Type 0 where
    pub lives : live u d.users ≡ true
    pub reaches : (direct role u d ≡ true) ⊎ (through_group role u d ≡ true)

  pub by_group-keep :
      (q : RoleAssignment → Bool) (as' : List RoleAssignment) (m : Membership)
      → ((a : RoleAssignment) → assigns SubjectType.group m.group_id role a ≡ true → q a ≡ true)
      → by_group as' m ≡ true
      → by_group (keep q as') m ≡ true
  by_group-keep q as' m f e =
      let kept = any-keep (assigns SubjectType.group m.group_id role) q as' f (ground arith) in
      rw kept (ground arith)

  -- The group is not what the user has the role through.
  abbrev pub Apart : ℕ → Directory → Type 0
  Apart g d = any (λ m. by_group d.assignments m && m.group_id == g) d.memberships ≡ false

  no_membership-Apart :
      (g : ℕ) (d : Directory)
      → any (λ m. m.user_id == u && m.group_id == g) d.memberships ≡ false
      → Apart g d
  no_membership-Apart g d h = any_anti _ _ d.memberships (λ m e. ground arith) h

  pub no_assignment-Apart :
      (g : ℕ) (d : Directory)
      → any (assigns SubjectType.group g role) d.assignments ≡ false
      → Apart g d
  no_assignment-Apart g d h = any-none _ d.memberships (λ m. elim (Bool-cases (m.group_id == g)) [
    | inl here ↦ let same : m.group_id ≡ g = ground arith in rw (here, same, h) (ground arith)
    | inr there ↦ rw there (ground arith)
  ])

  -- A user of the table that is not among the listed members is no member.
  pub not_member-Apart :
      (g : ℕ) (d : Directory)
      → live u d.users ≡ true
      → any (λ v. v.id == u) (list_members g d) ≡ false
      → Apart g d
  unfolding list_members
  not_member-Apart g d l h =
      elim (Bool-cases (any (λ m. m.user_id == u && m.group_id == g) d.memberships)) [
        | inr absent ↦ no_membership-Apart g d absent
        | inl present ↦
            let there : any (λ v. v.id == u) d.users ≡ true =
              any_mono _ _ d.users (λ v e. ground arith) l in
            let found =
              any-keep (λ v. v.id == u)
                (λ v. any (λ m. m.user_id == v.id && m.group_id == g) d.memberships) d.users
                (λ v e. let same : v.id ≡ u = ground arith in rw (same, present) refl) there in
            cc
      ]

  pub set_users-live :
      (f : User → User) (id : ℕ) (us : List User)
      → ((v : User) → v.id ≡ u → v.id ≡ id → live u (v ∷ []) ≡ true → live u (f v ∷ []) ≡ true)
      → live u us ≡ true
      → live u (set_users f id us) ≡ true
  unfolding set_users any
  set_users-live f id [] k h = cc
  set_users-live f id (v ∷ us) k h = elim (Bool-cases (v.id == id)) [
    | inr other ↦ rw other (ground (arith, set_users-live f id us k))
    | inl here ↦ elim (Bool-cases (live u (v ∷ []))) [
      | inl hit ↦
          let kept : live u (f v ∷ []) ≡ true = k v (ground arith) (ground arith) hit in
          rw here (ground arith)
      | inr miss ↦ rw here (ground (arith, set_users-live f id us k (ground arith)))
    ]
  ]
