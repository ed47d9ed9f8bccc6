-- ===== src/Auth/Sudo/Grant.antt =====
-- Who holds a sudo grant after a step-up and after a revocation.
use ansina.Prelude.{
  ℕ, ◌+◌, ◌≡◌, ◌≢◌, refl, String, Option, none, some, List, [], ◌∷◌, ◌++◌, true, ◌&&◌, arith, ltb,
  ◌==◌, str_eq, if◌then◌else◌, keep, ok, err, map,
}
use ansina.Clock.{iso}
use ansina.Auth.Sudo.{
  record_failure, SudoGrant, SudoLockout, Sudo, SudoSettings, Factor, StepUpError, sudo_locked_out,
  step_up_unavailable, get_lockout, clear_lockout, active_lockout, resolve_factor, without_user,
  live, is_live, revoke, revoke_for_user, revoke_all, hash_token, resolve, new_grant, step_up,
}

live-without_user :
    (user now : ℕ) (gs : List SudoGrant) → live user now (without_user user gs) ≡ none
unfolding live
live-without_user user now [] = refl
live-without_user user now (g ∷ gs) = ground (arith, live-without_user user now gs)

live-without_other :
    (user other now : ℕ) (gs : List SudoGrant)
    → other ≢ user
    → live other now (without_user user gs) ≡ live other now gs
unfolding live
live-without_other user other now [] ne = refl
live-without_other user other now (g ∷ gs) ne =
    ground (arith, live-without_other user other now gs ne)

live-append :
    (user now : ℕ) (gs : List SudoGrant) (g : SudoGrant)
    → live user now gs ≡ none
    → live user now (gs ++ g ∷ []) ≡ (if is_live user now g then some g else none)
unfolding live
live-append user now [] g e = refl
live-append user now (x ∷ gs) g e = ground (arith, live-append user now gs g)

live-append_other :
    (user now : ℕ) (gs : List SudoGrant) (g : SudoGrant)
    → g.user_id ≢ user
    → live user now (gs ++ g ∷ []) ≡ live user now gs
unfolding live
live-append_other user now [] g ne = ground arith
live-append_other user now (x ∷ gs) g ne = ground (arith, live-append_other user now gs g ne)

get-clear_lockout :
    (user : ℕ) (ls : List SudoLockout) → get_lockout user (clear_lockout user ls) ≡ none
unfolding get_lockout clear_lockout keep
get-clear_lockout user [] = refl
get-clear_lockout user (l ∷ ls) = ground (arith, get-clear_lockout user ls)

live-revoked :
    (user now at : ℕ) (gs : List SudoGrant)
    → live user now (map (λ g. if g.user_id == user then revoke at g else g) gs) ≡ none
unfolding live
live-revoked user now at [] = refl
live-revoked user now at (g ∷ gs) = ground (arith, live-revoked user now at gs)

live-revoked_all :
    (user now at : ℕ) (gs : List SudoGrant) → live user now (map (λ g. revoke at g) gs) ≡ none
unfolding live
live-revoked_all user now at [] = refl
live-revoked_all user now at (g ∷ gs) = ground (arith, live-revoked_all user now at gs)

live-revoked_other :
    (user other now at : ℕ) (gs : List SudoGrant)
    → other ≢ user
    → live other now (map (λ g. if g.user_id == user then revoke at g else g) gs)
      ≡ live other now gs
unfolding live
live-revoked_other user other now at [] ne = refl
live-revoked_other user other now at (g ∷ gs) ne =
    ground (arith, live-revoked_other user other now at gs ne)

module _ (sha256 : String → String) (c : SudoSettings) where
  -- After a revocation of the user's grant, and after the revocation of all grants, no token of that
  -- user resolves at any time; the first leaves what any other user's token resolves to as it was.
  pub resolve-revoke :
      (now at user other : ℕ) (token : String) (s : Sudo)
      → other ≢ user
      → (resolve sha256 c at user token (revoke_for_user now user s) ≡ none)
        × (resolve sha256 c at user token (revoke_all now s) ≡ none)
        × (resolve sha256 c at other token (revoke_for_user now user s)
            ≡ resolve sha256 c at other token s)
  unfolding resolve revoke_for_user revoke_all
  resolve-revoke now at user other token s ne = (
    rw (live-revoked user (iso at) (iso now) s.grants) refl,
    rw (live-revoked_all user (iso at) (iso now) s.grants) refl,
    rw (live-revoked_other user other (iso at) (iso now) s.grants ne) refl,
  )

  -- A step-up that issues a grant.
  abbrev pub after_grant : ℕ → String → String → ℕ → ℕ → String → Sudo → Sudo
  after_grant id salt token now user verifier s = record {
    grants = without_user user s.grants ++ new_grant sha256 c id salt token now user verifier ∷ [];
    lockouts = clear_lockout user s.lockouts;
  }

  resolve-after_grant :
      (id now at user : ℕ) (salt token tried verifier : String) (s : Sudo)
      → resolve sha256 c at user tried (after_grant id salt token now user verifier s) ≡ (
          if ltb (iso at) (iso (now + c.ttl))
            && str_eq (hash_token sha256 c tried salt) (hash_token sha256 c token salt)
          then some (new_grant sha256 c id salt token now user verifier)
          else none)
  unfolding resolve
  resolve-after_grant id now at user salt token tried verifier s =
      rw
        (live-append user (iso at) (without_user user s.grants)
          (new_grant sha256 c id salt token now user verifier)
          (live-without_user user (iso at) s.grants))
        (ground arith)

  resolve-after_grant_other :
      (id now at user other : ℕ) (salt token tried verifier : String) (s : Sudo)
      → other ≢ user
      → resolve sha256 c at other tried (after_grant id salt token now user verifier s)
        ≡ resolve sha256 c at other tried s
  unfolding resolve
  resolve-after_grant_other id now at user other salt token tried verifier s ne =
      rw
        (
          live-append_other other (iso at) (without_user user s.grants)
              (new_grant sha256 c id salt token now user verifier) (ground arith),
          live-without_other user other (iso at) s.grants ne,
        )
        refl

  -- The step-up finds the user not locked out, and a factor, which accepts.
  pub record Accepts (now user : ℕ) (requested : Option String) (factors : List Factor) (s : Sudo)
      (f : Factor) : Type 0 where
    pub unlocked : active_lockout (get_lockout user s.lockouts) now ≡ none
    pub meant : resolve_factor requested factors ≡ ok f
    pub accepts : f.accepts ≡ true

  step_up-after_grant :
      (id now user : ℕ) (salt token : String) (requested : Option String) (factors : List Factor)
      (f : Factor) (s : Sudo)
      → Accepts now user requested factors s f
      → step_up sha256 c id salt token now user requested factors s ≡ (
        ok (
            some (record {
              token = token;
              grant_id = id;
              verifier = f.name;
              expires_at = iso (now + c.ttl);
            })),
        after_grant id salt token now user f.name s,
      )
  unfolding step_up
  step_up-after_grant id now user salt token requested factors f s v =
      rw (v.unlocked, v.meant, v.accepts) refl

  -- A step-up of a user who is not locked out, with a factor that accepts, issues a grant and clears
  -- the user's lockout row. From then on a token of that user resolves, to the new grant, exactly
  -- before the expiry and if its salted hash is that of the issued token: a token of an earlier grant
  -- no longer does. What the tokens of any other user resolve to stays as it was.
  pub resolve-step_up :
      (id now at user other : ℕ) (salt token tried : String) (requested : Option String)
      (factors : List Factor) (f : Factor) (s : Sudo)
      → Accepts now user requested factors s f
      → other ≢ user
      → let (reply, t) = step_up sha256 c id salt token now user requested factors s in
        (reply
          ≡ ok (
              some (record {
                token = token;
                grant_id = id;
                verifier = f.name;
                expires_at = iso (now + c.ttl);
              })))
        × (get_lockout user t.lockouts ≡ none)
        × (resolve sha256 c at user tried t ≡ (
            if ltb (iso at) (iso (now + c.ttl))
              && str_eq (hash_token sha256 c tried salt) (hash_token sha256 c token salt)
            then some (new_grant sha256 c id salt token now user f.name)
            else none))
        × (resolve sha256 c at other tried t ≡ resolve sha256 c at other tried s)
  resolve-step_up id now at user other salt token tried requested factors f s v ne =
      rw (step_up-after_grant id now user salt token requested factors f s v) (
        refl,
        get-clear_lockout user s.lockouts,
        resolve-after_grant id now at user salt token tried f.name s,
        resolve-after_grant_other id now at user other salt token tried f.name s ne,
      )

  -- Why a step-up is refused.
  abbrev pub Reason : ℕ → ℕ → Option String → List Factor → Sudo → StepUpError → Type 0
  Reason now user requested factors s (sudo_locked_out wait) =
      active_lockout (get_lockout user s.lockouts) now ≡ some wait
  Reason now user requested factors s (step_up_unavailable available) =
      (active_lockout (get_lockout user s.lockouts) now ≡ none)
      × (resolve_factor requested factors ≡ err (step_up_unavailable available))

  -- A step-up that raises has changed nothing, so it uses up none of the user's attempts; it raises
  -- that the user is locked out only under a lock that is still on, and that no factor is available
  -- only if there is none and no lock is on.
  pub step_up-refused :
      (id now user : ℕ) (salt token : String) (requested : Option String) (factors : List Factor)
      (s : Sudo) (e : StepUpError)
      → (step_up sha256 c id salt token now user requested factors s).0 ≡ err e
      → ((step_up sha256 c id salt token now user requested factors s).1 ≡ s)
        × Reason now user requested factors s e
  unfolding step_up resolve_factor
  step_up-refused id now user salt token requested factors s (sudo_locked_out wait) h = ground arith
  step_up-refused id now user salt token requested factors s (step_up_unavailable names) h =
      ground arith

  -- A step-up whose factor does not accept records a failure of that user, and leaves every grant.
  pub step_up-denied :
      (id now user : ℕ) (salt token : String) (requested : Option String) (factors : List Factor)
      (s : Sudo)
      → (step_up sha256 c id salt token now user requested factors s).0 ≡ ok none
      → (step_up sha256 c id salt token now user requested factors s).1
        ≡ record s { lockouts = record_failure sha256 c now user s.lockouts }
  unfolding step_up
  step_up-denied id now user salt token requested factors s h = ground arith
