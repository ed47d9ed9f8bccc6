-- ===== src/Auth/RoleSync/Provenance.antt =====
-- What a synchronisation changes: the rows of its provider for its user, and no others.
use ansina.Prelude.{
  ℕ, String, ◌≡◌, refl, ap, ◌∙◌, some, List, [], ◌∷◌, ◌++◌, Bool, true, false, not, ◌&&◌, ◌||◌,
  ◌==◌, str_eq, eq_iff, keep, arith, Bool-cases, inl, inr, ok,
}
use ansina.Auth.Grants.{has_role}
use ansina.Auth.Directory.Any.{any, any-append, any_mono}
use ansina.Auth.Directory.{
  SubjectType, RoleAssignment, Directory, concerns, assigns, assign, unassign, role_ids_of,
  user_exists, subject_exists, from_source,
}
use ansina.Auth.RoleSync.{
  RoleMapping, Claims, list_for_provider, desired, difference, assign_all, unassign_all,
  then_unassign, sync_mapped_roles,
}

has_role-difference :
    (r : ℕ) (xs ys : List ℕ) → has_role r (difference xs ys) ≡ has_role r xs && not (has_role r ys)
unfolding has_role keep
has_role-difference r [] ys = refl
has_role-difference r (x ∷ xs) ys =
    let rest = has_role-difference r xs ys in
    elim (Bool-cases (x == r)) [
      | inl here ↦ let same : x ≡ r = ground arith in rw same (ground (arith, rest))
      | inr there ↦ ground (arith, rest)
    ]

module _ (u : ℕ) (provider : String) where
  -- The rows that a synchronisation may touch.
  abbrev pub own_row : RoleAssignment → Bool
  own_row a = concerns SubjectType.user u a && str_eq a.source provider

  -- The provider's row for a role, and anybody's.
  abbrev pub owned : ℕ → Directory → Bool
  owned r d = any (λ a. assigns SubjectType.user u r a && str_eq a.source provider) d.assignments

  abbrev pub assigned : ℕ → Directory → Bool
  assigned r d = any (assigns SubjectType.user u r) d.assignments

  abbrev pub others : Directory → List RoleAssignment
  others d = keep (λ a. not (own_row a)) d.assignments

  has_role-role_ids_of :
      (r : ℕ) (xs : List RoleAssignment)
      → has_role r (role_ids_of SubjectType.user u provider xs)
        ≡ any (λ a. assigns SubjectType.user u r a && str_eq a.source provider) xs
  unfolding has_role role_ids_of any
  has_role-role_ids_of r [] = refl
  has_role-role_ids_of r (a ∷ xs) = ground (arith, has_role-role_ids_of r xs)

  keep-keep :
      (p q : RoleAssignment → Bool) (xs : List RoleAssignment)
      → ((a : RoleAssignment) → p a ≡ true → q a ≡ true)
      → keep p (keep q xs) ≡ keep p xs
  unfolding keep
  keep-keep p q [] f = refl
  keep-keep p q (x ∷ xs) f = elim (Bool-cases (p x)) [
    | inl mine ↦ rw (f x mine, mine) (ap (λ ys. x ∷ ys) (keep-keep p q xs f))
    | inr other ↦ elim (Bool-cases (q x)) [
      | inl kept ↦ rw (kept, other) (keep-keep p q xs f)
      | inr left ↦ rw (left, other) (keep-keep p q xs f)
    ]
  ]

  keep-snoc :
      (p : RoleAssignment → Bool) (xs : List RoleAssignment) (a : RoleAssignment)
      → p a ≡ false
      → keep p (xs ++ a ∷ []) ≡ keep p xs
  unfolding keep
  keep-snoc p [] a h = rw h refl
  keep-snoc p (x ∷ xs) a h = ground (arith, keep-snoc p xs a h)

  -- Deleting the provider's row for a role.
  owned-keep :
      (r s : ℕ) (xs : List RoleAssignment)
      → any
          (λ a. assigns SubjectType.user u r a && str_eq a.source provider)
          (keep (λ a. not (assigns SubjectType.user u s a && from_source (some provider) a)) xs)
        ≡ any (λ a. assigns SubjectType.user u r a && str_eq a.source provider) xs && not (r == s)
  unfolding any keep
  owned-keep r s [] = refl
  owned-keep r s (a ∷ xs) = ground (arith, owned-keep r s xs)

  unassign_all-owned :
      (r : ℕ) (rs : List ℕ) (d : Directory)
      → owned r (unassign_all u provider rs d) ≡ owned r d && not (has_role r rs)
  unfolding unassign_all unassign has_role
  unassign_all-owned r [] d = ground arith
  unassign_all-owned r (s ∷ rs) d =
      let rest = unassign_all-owned r rs (unassign SubjectType.user u s (some provider) d) in
      let first = owned-keep r s d.assignments in ground (arith, rest, first)

  unassign_all-others :
      (rs : List ℕ) (d : Directory) → others (unassign_all u provider rs d) ≡ others d
  unfolding unassign_all unassign
  unassign_all-others [] d = refl
  unassign_all-others (s ∷ rs) d =
      unassign_all-others rs (unassign SubjectType.user u s (some provider) d)
      ∙ keep-keep _ _ d.assignments (λ a h. ground arith)

  unassign_all-users :
      (rs : List ℕ) (d : Directory) → (unassign_all u provider rs d).users ≡ d.users
  unfolding unassign_all unassign
  unassign_all-users [] d = refl
  unassign_all-users (s ∷ rs) d =
      unassign_all-users rs (unassign SubjectType.user u s (some provider) d)

  owned-assigned : (r : ℕ) (d : Directory) → owned r d ≡ true → assigned r d ≡ true
  owned-assigned r d h = any_mono _ _ d.assignments (λ a e. ground arith) h

  abbrev new_row : ℕ → RoleAssignment
  new_row r = record {
    subject_type = SubjectType.user;
    subject_id = u;
    role_id = r;
    source = provider;
  }

  -- What one assignment does, in the source's two cases.
  pub record Assigns (r : ℕ) (d d' : Directory) : Type 0 where
    pub users : d'.users ≡ d.users
    pub kept : others d' ≡ others d
    pub owns : (s : ℕ) → owned s d' ≡ owned s d || (r == s && not (assigned r d))
    pub has : (s : ℕ) → assigned s d' ≡ assigned s d || r == s

  provider_refl : str_eq provider provider ≡ true
  provider_refl = (eq_iff provider provider).1 refl

  assigned-one : (r s : ℕ) → any (assigns SubjectType.user u s) (new_row r ∷ []) ≡ (r == s)
  unfolding any
  assigned-one r s = ground arith

  owned-one :
      (r s : ℕ)
      → any (λ a. assigns SubjectType.user u s a && str_eq a.source provider) (new_row r ∷ [])
        ≡ (r == s)
  unfolding any
  owned-one r s = rw provider_refl (ground arith)

  old-Assigns : (r : ℕ) (d : Directory) → assigned r d ≡ true → Assigns r d d
  old-Assigns r d old = record {
    users = refl;
    kept = refl;
    owns = λ s. rw old (ground arith);
    has = λ s. elim (Bool-cases (r == s)) [
      | inl here ↦ let same : r ≡ s = ground arith in rw (← same, old) refl
      | inr there ↦ rw there (ground arith)
    ];
  }

  new-Assigns :
      (r : ℕ) (d : Directory)
      → assigned r d ≡ false
      → Assigns r d (record d { assignments = d.assignments ++ new_row r ∷ [] })
  new-Assigns r d new = record {
    users = refl;
    kept = keep-snoc _ d.assignments (new_row r) (rw provider_refl (ground arith));
    owns = λ s.
        rw new (any-append _ d.assignments (new_row r ∷ []) ∙ rw (owned-one r s) (ground arith));
    has = λ s. any-append _ d.assignments (new_row r ∷ []) ∙ rw (assigned-one r s) refl;
  }

  assign-Assigns :
      (r : ℕ) (d : Directory)
      → user_exists u d ≡ true
      → (d' : Directory) × (assign SubjectType.user u r provider d ≡ ok d') × Assigns r d d'
  unfolding assign subject_exists
  assign-Assigns r d there = elim (Bool-cases (assigned r d)) [
    | inl old ↦ (d, rw (there, old) refl, old-Assigns r d old)
    | inr new ↦ (_, rw (there, new) refl, new-Assigns r d new)
  ]

  pub record AssignsAll (rs : List ℕ) (d d' : Directory) : Type 0 where
    pub users : d'.users ≡ d.users
    pub kept : others d' ≡ others d
    pub owns : (s : ℕ) → owned s d' ≡ owned s d || (has_role s rs && not (assigned s d))

  assign_all-AssignsAll :
      (rs : List ℕ) (d : Directory)
      → user_exists u d ≡ true
      → (d' : Directory) × (assign_all u provider rs d ≡ ok d') × AssignsAll rs d d'
  unfolding assign_all has_role user_exists
  assign_all-AssignsAll [] d there =
      (d, refl, record { users = refl; kept = refl; owns = λ s. ground arith })
  assign_all-AssignsAll (r ∷ rs) d there =
      let (d1, here, one) = assign-Assigns r d there in
      let exists : user_exists u d1 ≡ true = rw one.users there in
      let (d2, later, all) = assign_all-AssignsAll rs d1 exists in
      (
        d2,
        rw (assign_all, here) later,
        record {
          users = all.users ∙ one.users;
          kept = all.kept ∙ one.kept;
          owns = λ s. elim (Bool-cases (r == s)) [
            | inl same_role ↦
                let same : r ≡ s = ground arith in
                ground (arith, all.owns s, one.owns s, one.has s, same)
            | inr other ↦ ground (arith, all.owns s, one.owns s, one.has s)
          ];
        },
      )

  -- The rows of other sources and other subjects stay, in their order; the provider has a row for a
  -- role exactly if the claims imply the role, and nobody else has assigned it already.
  pub record Synced (wanted : List ℕ) (d d' : Directory) : Type 0 where
    pub users : d'.users ≡ d.users
    pub kept : others d' ≡ others d
    pub owns : (r : ℕ) → owned r d' ≡ has_role r wanted && (owned r d || not (assigned r d))

  -- For a user that exists, the synchronisation succeeds.
  -- It leaves every row that another source made, or that is about another subject, as it is.
  -- Afterwards the provider has a row for a role exactly if some mapping whose claim matches implies
  -- the role, and the role was the provider's before or was not assigned to the user at all.
  pub sync_mapped_roles-Synced :
      (mappings : List RoleMapping) (claims : Claims) (d : Directory)
      → user_exists u d ≡ true
      → (d' : Directory) × (sync_mapped_roles mappings u provider claims d ≡ ok d')
        × Synced (desired claims (list_for_provider provider mappings)) d d'
  unfolding sync_mapped_roles
  sync_mapped_roles-Synced mappings claims d there =
      let wanted = desired claims (list_for_provider provider mappings) in
      let current = role_ids_of SubjectType.user u provider d.assignments in
      let (d1, run, all) = assign_all-AssignsAll (difference wanted current) d there in
      (
        unassign_all u provider (difference current wanted) d1,
        ap (then_unassign u provider (difference current wanted)) run,
        record {
          users = unassign_all-users (difference current wanted) d1 ∙ all.users;
          kept = unassign_all-others (difference current wanted) d1 ∙ all.kept;
          owns = λ r. ground (
            arith,
            unassign_all-owned r (difference current wanted) d1,
            all.owns r,
            has_role-difference r wanted current,
            has_role-difference r current wanted,
            has_role-role_ids_of r d.assignments,
          );
        },
      )
