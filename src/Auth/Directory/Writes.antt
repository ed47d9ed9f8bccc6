-- ===== src/Auth/Directory/Writes.antt =====
-- Each change of the tables that spares a user's role, and the insertions, which all do.
use ansina.Prelude.{
  Option, ℕ, String, ◌≡◌, ◌≢◌, ◌⊎◌, refl, none, List, [], ◌∷◌, ◌++◌, Bool, true, false, not, ◌&&◌,
  ◌==◌, keep, arith, Bool-cases, inl, inr, ok, err,
}
use ansina.Auth.Directory.Any.{any, any-append, any_mono, any-keep, any-split, any-none, any_anti}
use ansina.Auth.Directory.{
  SubjectType, User, Membership, RoleAssignment, Directory, DirectoryError, concerns, assigns,
  set_active, soft_delete, delete_group_rows, add_member_row, remove_member_row, subject_exists,
  user_exists, group_exists, assign, unassign,
}
use ansina.Auth.Directory.Holders.{live, Holds, Apart, by_group, by_group-keep, set_users-live}

-- The role that is looked at, and one user.
module _ (role u : ℕ) where
  pub Holds-set_active :
      (id : ℕ) (flag : Bool) (d : Directory)
      → (id ≢ u) ⊎ (flag ≡ true)
      → Holds role u d
      → Holds role u (set_active id flag d)
  unfolding set_active any
  Holds-set_active id flag d (inl other) v = record {
    lives = set_users-live role u _ id d.users (λ w a b h. absurd (ground arith)) v.lives;
    reaches = v.reaches;
  }
  Holds-set_active id flag d (inr on) v = record {
    lives = set_users-live role u _ id d.users (λ w a b h. rw on (ground arith)) v.lives;
    reaches = v.reaches;
  }

  -- Rows may go from both tables, if neither a row that assigns the role to the user goes nor,
  -- along with the membership, one that assigns it to a group of the user.
  spare :
      (d : Directory) (us : List User) (gs : List ℕ) (q : RoleAssignment → Bool)
      (p : Membership → Bool)
      → live u us ≡ true
      → ((a : RoleAssignment) → assigns SubjectType.user u role a ≡ true → q a ≡ true)
      → any
          (λ m.
            by_group role u d.assignments m
            && not (p m && any (assigns SubjectType.group m.group_id role) (keep q d.assignments)))
          d.memberships
        ≡ false
      → Holds role u d
      → Holds role u (record d {
        users = us;
        groups = gs;
        assignments = keep q d.assignments;
        memberships = keep p d.memberships;
      })
  spare d us gs q p l mine ours v = record {
    lives = l;
    reaches = elim v.reaches [
      | inl straight ↦ inl (any-keep _ q d.assignments mine straight)
      | inr around ↦
          let found = any-split (by_group role u d.assignments) _ d.memberships around ours in
          inr (
            any_mono _ (by_group role u (keep q d.assignments)) (keep p d.memberships)
              (λ m e. ground arith) (any-keep _ p d.memberships (λ m e. ground arith) found))
    ];
  }

  pub Holds-soft_delete :
      (id : ℕ) (d : Directory) → id ≢ u → Holds role u d → Holds role u (soft_delete id d)
  unfolding soft_delete any
  Holds-soft_delete id d other v =
      spare d _ d.groups (λ a. not (concerns SubjectType.user id a)) (λ m. not (m.user_id == id))
        (set_users-live role u _ id d.users (λ w a b h. absurd (ground arith)) v.lives)
        (λ a e. ground arith)
        (any-none _ d.memberships (λ m. elim (Bool-cases (by_group role u d.assignments m)) [
          | inr not_ours ↦ rw not_ours refl
          | inl ours ↦
              let kept =
                any-keep (assigns SubjectType.group m.group_id role)
                  (λ a. not (concerns SubjectType.user id a)) d.assignments (λ a e. ground arith)
                  (ground arith) in
              rw kept (ground arith)
        ]))
        v

  pub Holds-delete_group_rows :
      (g : ℕ) (d : Directory)
      → Apart role u g d
      → Holds role u d
      → Holds role u (delete_group_rows g d)
  unfolding delete_group_rows
  Holds-delete_group_rows g d apart v =
      spare d d.users _ (λ a. not (concerns SubjectType.group g a)) (λ m. not (m.group_id == g))
        v.lives (λ a e. ground arith)
        (any_anti _ _ d.memberships
          (λ m e. elim (Bool-cases (m.group_id == g)) [
            | inl here ↦ ground arith
            | inr there ↦
                let kept =
                  any-keep (assigns SubjectType.group m.group_id role)
                    (λ a. not (concerns SubjectType.group g a)) d.assignments (λ a h. ground arith)
                    (ground arith) in
                absurd (ground arith)
          ])
          apart)
        v

  pub Holds-remove_member_row :
      (g id : ℕ) (d : Directory)
      → (id ≢ u) ⊎ Apart role u g d
      → Holds role u d
      → Holds role u (remove_member_row g id d)
  unfolding remove_member_row
  Holds-remove_member_row g id d safe v = record {
    lives = v.lives;
    reaches = elim v.reaches [
      | inl straight ↦ inl straight
      | inr around ↦ elim safe [
        | inl other ↦ inr (any-keep _ _ d.memberships (λ m e. ground arith) around)
        | inr apart ↦
            let found =
              any-split (by_group role u d.assignments) (λ m. m.group_id == g) d.memberships around
                apart in
            inr (
              any_mono _ (by_group role u d.assignments) _ (λ m e. ground arith)
                (any-keep _ (λ m. not (m.group_id == g && m.user_id == id)) d.memberships
                  (λ m e. ground arith) found))
      ]
    ];
  }

  pub Holds-unassign_user :
      (id r : ℕ) (source : Option String) (d : Directory)
      → (id ≢ u) ⊎ (r ≢ role)
      → Holds role u d
      → Holds role u (unassign SubjectType.user id r source d)
  unfolding unassign
  Holds-unassign_user id r source d safe v = record {
    lives = v.lives;
    reaches = elim v.reaches [
      | inl straight ↦ inl (
          any-keep _ _ d.assignments
            (λ a e. elim safe [ inl other ↦ ground arith | inr other ↦ ground arith ]) straight)
      | inr around ↦ inr (
          any_mono (by_group role u d.assignments) _ d.memberships
            (λ m. by_group-keep role u _ d.assignments m (λ a h. ground arith)) around)
    ];
  }

  pub Holds-unassign_group :
      (g r : ℕ) (d : Directory)
      → Apart role u g d ⊎ (r ≢ role)
      → Holds role u d
      → Holds role u (unassign SubjectType.group g r none d)
  unfolding unassign
  Holds-unassign_group g r d safe v = record {
    lives = v.lives;
    reaches = elim v.reaches [
      | inl straight ↦ inl (any-keep _ _ d.assignments (λ a e. ground arith) straight)
      | inr around ↦ elim safe [
        | inl apart ↦ inr (
            any_mono (λ m. by_group role u d.assignments m && not (m.group_id == g)) _ d.memberships
              (λ m e. by_group-keep role u _ d.assignments m (λ a h. ground arith) (ground arith))
              (any-split (by_group role u d.assignments) (λ m. m.group_id == g) d.memberships around
                apart))
        | inr other ↦ inr (
            any_mono (by_group role u d.assignments) _ d.memberships
              (λ m. by_group-keep role u _ d.assignments m (λ a h. ground arith)) around)
      ]
    ];
  }

  more_assignments :
      (d : Directory) (xs : List RoleAssignment)
      → Holds role u d
      → Holds role u (record d { assignments = d.assignments ++ xs })
  more_assignments d xs v = record {
    lives = v.lives;
    reaches = elim v.reaches [
      | inl straight ↦
          inl (rw (any-append (assigns SubjectType.user u role) d.assignments xs, straight) refl)
      | inr around ↦ inr (
          any_mono (by_group role u d.assignments) _ d.memberships
            (λ m e.
              rw (any-append (assigns SubjectType.group m.group_id role) d.assignments xs)
                (ground arith))
            around)
    ];
  }

  more_memberships :
      (d : Directory) (xs : List Membership)
      → Holds role u d
      → Holds role u (record d { memberships = d.memberships ++ xs })
  more_memberships d xs v = record {
    lives = v.lives;
    reaches = elim v.reaches [
      | inl straight ↦ inl straight
      | inr around ↦
          inr (rw (any-append (by_group role u d.assignments) d.memberships xs, around) refl)
    ];
  }

  pub Holds-assign :
      (t : SubjectType) (id r : ℕ) (s : String) (d d' : Directory)
      → assign t id r s d ≡ ok d'
      → Holds role u d
      → Holds role u d'
  unfolding assign
  Holds-assign t id r s d d' h v = elim (Bool-cases (not (subject_exists t id d))) [
    | inl refused ↦ let bad : err DirectoryError.unknown_subject ≡ ok d' = rw refused at h in cc
    | inr there ↦ elim (Bool-cases (any (assigns t id r) d.assignments)) [
      | inl old ↦
          let e : ok d ≡ ok d' = rw (there, old) at h in
          let same : d ≡ d' = ground arith in rw (← same) v
      | inr new ↦
          let e : ok (record d {
            assignments =
                d.assignments
                ++ record { subject_type = t; subject_id = id; role_id = r; source = s } ∷ [];
          })
              ≡ ok d' =
            rw (there, new) at h in
          let same : record d {
            assignments =
                d.assignments
                ++ record { subject_type = t; subject_id = id; role_id = r; source = s } ∷ [];
          }
              ≡ d' =
            ground arith in
          rw (← same) (more_assignments d _ v)
    ]
  ]

  pub Holds-add_member_row :
      (g id : ℕ) (d d' : Directory)
      → add_member_row g id d ≡ ok d'
      → Holds role u d
      → Holds role u d'
  unfolding add_member_row
  Holds-add_member_row g id d d' h v =
      elim (Bool-cases (any (λ m. m.user_id == id && m.group_id == g) d.memberships)) [
        | inl old ↦
            let e : ok d ≡ ok d' = rw old at h in let same : d ≡ d' = ground arith in rw (← same) v
        | inr new ↦ elim (Bool-cases (user_exists id d && group_exists g d)) [
          | inr absent ↦
              let bad : err DirectoryError.integrity_error ≡ ok d' = rw (new, absent) at h in cc
          | inl there ↦
              let e : ok (record d {
                memberships = d.memberships ++ record { user_id = id; group_id = g } ∷ [];
              })
                  ≡ ok d' =
                rw (new, there) at h in
              let same : record d {
                memberships = d.memberships ++ record { user_id = id; group_id = g } ∷ [];
              }
                  ≡ d' =
                ground arith in
              rw (← same) (more_memberships d _ v)
        ]
      ]

-- Neither insertion touches the roles.
pub add_member_row-roles :
    (g id : ℕ) (d d' : Directory) → add_member_row g id d ≡ ok d' → d'.roles ≡ d.roles
unfolding add_member_row
add_member_row-roles g id d d' h = ground arith

pub assign-roles :
    (t : SubjectType) (id r : ℕ) (s : String) (d d' : Directory)
    → assign t id r s d ≡ ok d'
    → d'.roles ≡ d.roles
unfolding assign
assign-roles t id r s d d' h = ground arith
