-- ===== src/Auth/Management/Login.antt =====
-- A login that takes the admin role from nobody leaves an admin.
use ansina.Prelude.{ℕ, String, ◌≡◌, refl, some, List, [], ◌∷◌, false, arith, inr, Result, ok, err}
use ansina.Auth.Grants.{has_role}
use ansina.Auth.Directory.{SubjectType, Directory, DirectoryError, assign, unassign, role_ids_of}
use ansina.Auth.Directory.Writes.{Holds-assign, Holds-unassign_user, assign-roles}
use ansina.Auth.RoleSync.{
  RoleMapping, Claims, list_for_provider, desired, difference, assign_all, unassign_all,
  then_unassign, sync_mapped_roles,
}
use ansina.Auth.Management.{Request}
use ansina.Auth.Management.Guards.{IsAdministered}

-- The roles that the synchronisation takes from the user: what the provider has given before, and the
-- claims do not imply.
abbrev pub taken : List RoleMapping → ℕ → String → Claims → Directory → List ℕ
taken mappings u provider claims d =
    difference (role_ids_of SubjectType.user u provider d.assignments)
      (desired claims (list_for_provider provider mappings))

-- A login takes the admin role from nobody.
abbrev pub Spares : ℕ → Request → Directory → Type 0
Spares a (Request.log_in mappings u provider claims) d =
    has_role a (taken mappings u provider claims d) ≡ false
Spares a _ d = Unit {0}

module _ (a u : ℕ) (provider : String) where
  assign_all-IsAdministered :
      (rs : List ℕ) (d d' : Directory)
      → assign_all u provider rs d ≡ ok d'
      → IsAdministered a d
      → IsAdministered a d'
  unfolding assign_all
  assign_all-IsAdministered [] d d' h v = let same : d ≡ d' = ground arith in rw (← same) v
  assign_all-IsAdministered (r ∷ rs) d d' h v =
      go (assign SubjectType.user u r provider d) refl
        (λ mid k w. assign_all-IsAdministered rs mid d' k w)
    where
      go :
          (o : Result DirectoryError Directory)
          → assign SubjectType.user u r provider d ≡ o
          → ((mid : Directory)
              → assign_all u provider rs mid ≡ ok d'
              → IsAdministered a mid
              → IsAdministered a d')
          → IsAdministered a d'
      go (err e) same next = let h' = rw (assign_all, same) at h in cc
      go (ok mid) same next = next mid (rw (assign_all, same) at h) (record {
        roles = rw (assign-roles SubjectType.user u r provider d mid same) v.roles;
        admin_id = v.admin_id;
        holds = Holds-assign a v.admin_id SubjectType.user u r provider d mid same v.holds;
      })

  unassign_all-IsAdministered :
      (rs : List ℕ) (d : Directory)
      → has_role a rs ≡ false
      → IsAdministered a d
      → IsAdministered a (unassign_all u provider rs d)
  unfolding unassign_all has_role unassign
  unassign_all-IsAdministered [] d h v = v
  unassign_all-IsAdministered (r ∷ rs) d h v =
      unassign_all-IsAdministered rs (unassign SubjectType.user u r (some provider) d)
        (ground arith)
        (record {
          roles = v.roles;
          admin_id = v.admin_id;
          holds =
              Holds-unassign_user a v.admin_id u r (some provider) d
                (inr (λ e. ground (arith, e, h))) v.holds;
        })

  pub sync_mapped_roles-IsAdministered :
      (mappings : List RoleMapping) (claims : Claims) (d d' : Directory)
      → has_role a (taken mappings u provider claims d) ≡ false
      → sync_mapped_roles mappings u provider claims d ≡ ok d'
      → IsAdministered a d
      → IsAdministered a d'
  unfolding sync_mapped_roles
  sync_mapped_roles-IsAdministered mappings claims d d' h run v =
      let wanted = desired claims (list_for_provider provider mappings) in
      let current = role_ids_of SubjectType.user u provider d.assignments in
      go (assign_all u provider (difference wanted current) d) refl run
    where
      go :
          (o : Result DirectoryError Directory)
          → assign_all u provider
              (difference
                (desired claims (list_for_provider provider mappings))
                (role_ids_of SubjectType.user u provider d.assignments))
              d
            ≡ o
          → then_unassign u provider (taken mappings u provider claims d) o ≡ ok d'
          → IsAdministered a d'
      go (err e) same k = cc
      go (ok mid) same k =
          let last : unassign_all u provider (taken mappings u provider claims d) mid ≡ d' = cc in
          rw (← last) (
            unassign_all-IsAdministered (taken mappings u provider claims d) mid h
              (assign_all-IsAdministered _ d mid same v))
