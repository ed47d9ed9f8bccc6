-- ===== src/Auth/Management/LastAdmin.antt =====
-- No request takes the last admin away.
use ansina.Prelude.{
  ℕ, ◌≡◌, ◌≢◌, refl, Option, none, some, List, [], ◌∷◌, Bool, true, false, not, ◌&&◌, ◌||◌, str_eq,
  arith, Bool-cases, Option-cases, inl, inr, Result, ok, err,
}
use ansina.Auth.Grants.{Grants, Principal}
use ansina.Auth.Directory.Any.{any}
use ansina.Auth.Directory.{
  SubjectType, Role, Directory, DirectoryError, assigns, get_role, has_slug, list_members,
  group_exists, add_member_row, assign, set_active, soft_delete, delete_group_rows,
  remove_member_row, unassign,
}
use ansina.Auth.Directory.Holders.{Holds, Apart, no_assignment-Apart, not_member-Apart}
use ansina.Auth.Directory.Writes.{
  Holds-set_active, Holds-soft_delete, Holds-delete_group_rows, Holds-remove_member_row,
  Holds-unassign_user, Holds-unassign_group, Holds-assign, Holds-add_member_row,
  add_member_row-roles, assign-roles,
}
use ansina.Auth.Management.{
  Request, ids, assert_admin_remains, update_user, delete_user, delete_group, add_member,
  remove_member, unassign_from_user, unassign_from_group, assign_role, detach_role, handle,
  handle_all, state_after, get_live_user, set_if, deactivates, may_assign,
}
use ansina.Auth.Management.Login.{Spares, sync_mapped_roles-IsAdministered}
use ansina.Auth.Management.Guards.{
  admin_role, IsAdministered, has_role-ids, get_role-any, survivor, guard-ok, other,
}

-- A guard that was skipped or returned leaves an admin that the change spares.
module _ (a : ℕ) (d : Directory) (v : IsAdministered a d) where
  again : (w : ℕ) (d' : Directory) → d'.roles ≡ d.roles → Holds a w d' → IsAdministered a d'
  again w d' same h = record { roles = rw same v.roles; admin_id = w; holds = h }

  update_user-IsAdministered :
      (id : ℕ) (active : Option Bool) (d' : Directory)
      → update_user id active d ≡ ok d'
      → IsAdministered a d'
  unfolding update_user set_active
  update_user-IsAdministered id active d' h = elim (Option-cases (get_live_user id d)) [
    | inl gone ↦ let bad : err DirectoryError.not_found ≡ ok d' = rw (update_user, gone) at h in cc
    | inr (_, there) ↦
        let (passed, same) = guard-ok _ (set_if id active d) d' (rw (update_user, there) at h) in
        rw (← same) (go active passed)
  ]
    where
      go :
          (active : Option Bool)
          → not (deactivates active) || assert_admin_remains (id ∷ []) d ≡ true
          → IsAdministered a (set_if id active d)
      go none passed = v
      go (some true) passed =
          again v.admin_id _ refl (Holds-set_active a v.admin_id id true d (inr refl) v.holds)
      go (some false) passed =
          let (w, h, left) = survivor a (id ∷ []) d v.roles passed in
          again w _ refl (Holds-set_active a w id false d (inl (other id w left)) h)

  delete_user-IsAdministered :
      (id : ℕ) (d' : Directory) → delete_user id d ≡ ok d' → IsAdministered a d'
  unfolding delete_user soft_delete
  delete_user-IsAdministered id d' h = elim (Option-cases (get_live_user id d)) [
    | inl gone ↦ let bad : err DirectoryError.not_found ≡ ok d' = rw (delete_user, gone) at h in cc
    | inr (_, there) ↦
        let (passed, same) = guard-ok _ (soft_delete id d) d' (rw (delete_user, there) at h) in
        let (w, k, left) = survivor a (id ∷ []) d v.roles passed in
        rw (← same) (again w _ refl (Holds-soft_delete a w id d (other id w left) k))
  ]

  -- Either nobody is admin through the group, or the survivor is not one of its members.
  outside :
      (g : ℕ)
      → not (has_slug SubjectType.group g "admin" d)
          || assert_admin_remains (ids (list_members g d)) d
        ≡ true
      → (w : ℕ) × Holds a w d × Apart a w g d
  unfolding has_slug
  outside g h = elim (Bool-cases (has_slug SubjectType.group g "admin" d)) [
    | inl carries ↦
        let (w, k, left) = survivor a (ids (list_members g d)) d v.roles (ground arith) in
        (w, k, not_member-Apart a w g d k.lives (rw (has_role-ids w (list_members g d)) at left))
    | inr plain ↦ (v.admin_id, v.holds, no_assignment-Apart a v.admin_id g d (not_carried g plain))
  ]
    where
      not_carried :
          (g : ℕ)
          → has_slug SubjectType.group g "admin" d ≡ false
          → any (assigns SubjectType.group g a) d.assignments ≡ false
      not_carried g plain = elim (Bool-cases (any (assigns SubjectType.group g a) d.assignments)) [
        | inr free ↦ free
        | inl held ↦
            let bad =
              get_role-any a d.roles (admin_role a)
                (λ r. str_eq r.slug "admin" && any (assigns SubjectType.group g r.id) d.assignments)
                v.roles.by_id (rw held refl) in
            cc
      ]

  delete_group-IsAdministered :
      (g : ℕ) (d' : Directory) → delete_group g d ≡ ok d' → IsAdministered a d'
  unfolding delete_group delete_group_rows
  delete_group-IsAdministered g d' h = elim (Bool-cases (not (group_exists g d))) [
    | inl gone ↦ let bad : err DirectoryError.not_found ≡ ok d' = rw (delete_group, gone) at h in cc
    | inr there ↦
        let (passed, same) =
          guard-ok _ (delete_group_rows g d) d' (rw (delete_group, there) at h) in
        let (w, k, apart) = outside g passed in
        rw (← same) (again w _ refl (Holds-delete_group_rows a w g d apart k))
  ]

  add_member-IsAdministered :
      (g u : ℕ) (d' : Directory) → add_member g u d ≡ ok d' → IsAdministered a d'
  unfolding add_member
  add_member-IsAdministered g u d' h = elim (Bool-cases (not (group_exists g d))) [
    | inl gone ↦ let bad : err DirectoryError.not_found ≡ ok d' = rw (add_member, gone) at h in cc
    | inr there ↦
        let run : add_member_row g u d ≡ ok d' = rw (add_member, there) at h in
        again v.admin_id d' (add_member_row-roles g u d d' run)
          (Holds-add_member_row a v.admin_id g u d d' run v.holds)
  ]

  remove_member-IsAdministered :
      (g u : ℕ) (d' : Directory) → remove_member g u d ≡ ok d' → IsAdministered a d'
  unfolding remove_member remove_member_row
  remove_member-IsAdministered g u d' h = elim (Bool-cases (not (group_exists g d))) [
    | inl gone ↦
        let bad : err DirectoryError.not_found ≡ ok d' = rw (remove_member, gone) at h in cc
    | inr there ↦
        let (passed, same) =
          guard-ok _ (remove_member_row g u d) d' (rw (remove_member, there) at h) in
        elim (Bool-cases (has_slug SubjectType.group g "admin" d)) [
          | inl carries ↦
              let (w, k, left) = survivor a (u ∷ []) d v.roles (ground arith) in
              rw (← same)
                (again w _ refl (Holds-remove_member_row a w g u d (inl (other u w left)) k))
          | inr plain ↦
              let (w, k, apart) = outside g (ground arith) in
              rw (← same) (again w _ refl (Holds-remove_member_row a w g u d (inr apart) k))
        ]
  ]

  -- Another role than admin's has another id.
  other_role :
      (id : ℕ) (r : Role) → get_role id d.roles ≡ some r → str_eq r.slug "admin" ≡ false → id ≢ a
  other_role id r h plain e =
      let found : some (admin_role a) ≡ some r = cc in
      let same : admin_role a ≡ r = ground arith in
      let bad : str_eq "admin" "admin" ≡ false = rw (← same) at plain in cc

  detach_role-IsAdministered :
      (t : SubjectType) (id role : ℕ) (d' : Directory)
      → detach_role t id role d ≡ ok d'
      → IsAdministered a d'
  unfolding detach_role unassign_from_user unassign_from_group unassign
  detach_role-IsAdministered SubjectType.user id role d' h =
      elim (Option-cases (get_role role d.roles)) [
        | inl gone ↦
            let bad : err DirectoryError.not_found ≡ ok d' = rw (unassign_from_user, gone) at h in
            cc
        | inr (r, there) ↦
            let (passed, same) =
              guard-ok _ (unassign SubjectType.user id role none d) d'
                (rw (unassign_from_user, there) at h) in
            elim (Bool-cases (str_eq r.slug "admin")) [
              | inl is_admin ↦
                  let (w, k, left) = survivor a (id ∷ []) d v.roles (ground arith) in
                  rw (← same) (
                    again w _ refl
                      (Holds-unassign_user a w id role none d (inl (other id w left)) k))
              | inr plain ↦ rw (← same) (
                  again v.admin_id _ refl (
                    Holds-unassign_user a v.admin_id id role none d
                      (inr (other_role role r there plain)) v.holds))
            ]
      ]
  detach_role-IsAdministered SubjectType.group id role d' h =
      elim (Option-cases (get_role role d.roles)) [
        | inl gone ↦
            let bad : err DirectoryError.not_found ≡ ok d' = rw (unassign_from_group, gone) at h in
            cc
        | inr (r, there) ↦
            let (passed, same) =
              guard-ok _ (unassign SubjectType.group id role none d) d'
                (rw (unassign_from_group, there) at h) in
            elim (Bool-cases (str_eq r.slug "admin")) [
              | inl is_admin ↦
                  let (w, k, apart) = outside id (ground arith) in
                  rw (← same) (again w _ refl (Holds-unassign_group a w id role d (inl apart) k))
              | inr plain ↦ rw (← same) (
                  again v.admin_id _ refl (
                    Holds-unassign_group a v.admin_id id role d
                      (inr (other_role role r there plain)) v.holds))
            ]
      ]

  assign_role-IsAdministered :
      (gs : Grants) (p : Option Principal) (t : SubjectType) (id role : ℕ) (d' : Directory)
      → assign_role gs p t id role d ≡ ok d'
      → IsAdministered a d'
  unfolding assign_role
  assign_role-IsAdministered gs p t id role d' h = elim (Option-cases (get_role role d.roles)) [
    | inl gone ↦ let bad : err DirectoryError.not_found ≡ ok d' = rw (assign_role, gone) at h in cc
    | inr (r, there) ↦ elim (Bool-cases (may_assign gs p r)) [
      | inr refused ↦
          let bad : err DirectoryError.self_escalation ≡ ok d' =
            rw (assign_role, there, refused) at h in
          cc
      | inl allowed ↦
          let run : assign t id role "local" d ≡ ok d' = rw (assign_role, there, allowed) at h in
          again v.admin_id d' (assign-roles t id role "local" d d' run)
            (Holds-assign a v.admin_id t id role "local" d d' run v.holds)
    ]
  ]

  handle-IsAdministered :
      (gs : Grants) (r : Request) (d' : Directory)
      → Spares a r d
      → handle gs r d ≡ ok d'
      → IsAdministered a d'
  unfolding handle
  handle-IsAdministered gs (Request.update id active) d' s h =
      update_user-IsAdministered id active d' h
  handle-IsAdministered gs (Request.delete id) d' s h = delete_user-IsAdministered id d' h
  handle-IsAdministered gs (Request.drop_group g) d' s h = delete_group-IsAdministered g d' h
  handle-IsAdministered gs (Request.join g u) d' s h = add_member-IsAdministered g u d' h
  handle-IsAdministered gs (Request.leave g u) d' s h = remove_member-IsAdministered g u d' h
  handle-IsAdministered gs (Request.attach p t id role) d' s h =
      assign_role-IsAdministered gs p t id role d' h
  handle-IsAdministered gs (Request.detach t id role) d' s h =
      detach_role-IsAdministered t id role d' h
  handle-IsAdministered gs (Request.log_in mappings u provider claims) d' s h =
      sync_mapped_roles-IsAdministered a u provider mappings claims d d' s h v

state_after-IsAdministered :
    (a : ℕ) (d : Directory) (r : Result DirectoryError Directory)
    → IsAdministered a d
    → ((d' : Directory) → r ≡ ok d' → IsAdministered a d')
    → IsAdministered a (state_after d r)
state_after-IsAdministered a d (ok d') v f = f d' refl
state_after-IsAdministered a d (err e) v f = v

-- No login among the requests takes the admin role from its user, in the state that it comes in.
unfoldable pub AllSpare : ℕ → Grants → List Request → Directory → Type 0
AllSpare a gs [] d = Unit {0}
AllSpare a gs (r ∷ rs) d = Spares a r d × AllSpare a gs rs (state_after d (handle gs r d))

-- For any sequence of these requests, one after the other: updates and deletions of users, deletions of
-- groups, members joining and leaving, roles assigned and unassigned, by callers with or without a
-- principal and refused ones included, and logins, if no login's claims take the admin role from its
-- user. If an active user holds the admin role at first, directly or through a group, one does at the
-- end. Nothing is stated of requests whose guard and write interleave.
pub handle_all-IsAdministered :
    (gs : Grants) (rs : List Request) (a : ℕ) (d : Directory)
    → AllSpare a gs rs d
    → IsAdministered a d
    → IsAdministered a (handle_all gs rs d)
unfolding handle_all AllSpare
handle_all-IsAdministered gs [] a d s v = v
handle_all-IsAdministered gs (r ∷ rs) a d (here, later) v =
    handle_all-IsAdministered gs rs a _ later (
      state_after-IsAdministered a d (handle gs r d) v
        (λ d' h. handle-IsAdministered a d v gs r d' here h))
