-- ===== src/Auth/Oidc/Once.antt =====
-- A login's state is used once.
use ansina.Prelude.{
  ℕ, String, ◌≡◌, refl, ap, ◌∙◌, none, some, List, [], ◌∷◌, ◌++◌, Bool, false, not, str_eq, keep,
  arith, Bool-cases, Option-cases, inl, inr, Result, ok, err,
}
use ansina.Clock.{iso}
use ansina.Auth.Directory.{Directory, DirectoryError}
use ansina.Auth.RoleSync.{Claims, get_claim}
use ansina.Auth.Oidc.{
  LoginState, Oidc, OidcError, OidcPort, find_state, take, delete_expired, start_login,
  complete_login, verified, provisioned, synced, non_empty, provision_user,
}

-- No row has the state.
abbrev pub Spent : String → List LoginState → Type 0
Spent s states = find_state s states ≡ none

Spent-keep :
    (s : String) (p : LoginState → Bool) (xs : List LoginState) → Spent s xs → Spent s (keep p xs)
unfolding find_state keep
Spent-keep s p [] h = refl
Spent-keep s p (x ∷ xs) h = elim (Bool-cases (str_eq x.state s)) [
  | inl here ↦ let bad : some x ≡ none = rw (find_state, here) at h in cc
  | inr there ↦
      let tail : find_state s xs ≡ none = rw (find_state, there) at h in
      elim (Bool-cases (p x)) [
        | inl kept ↦ rw (kept, there) (Spent-keep s p xs tail)
        | inr left ↦ rw left (Spent-keep s p xs tail)
      ]
]

Spent-without :
    (s : String) (xs : List LoginState) → Spent s (keep (λ q. not (str_eq q.state s)) xs)
unfolding find_state keep
Spent-without s [] = refl
Spent-without s (x ∷ xs) = elim (Bool-cases (str_eq x.state s)) [
  | inl here ↦ rw here (Spent-without s xs)
  | inr there ↦ rw (there, there) (Spent-without s xs)
]

Spent-snoc :
    (s : String) (xs : List LoginState) (r : LoginState)
    → Spent s xs
    → str_eq r.state s ≡ false
    → Spent s (xs ++ r ∷ [])
unfolding find_state
Spent-snoc s [] r h ne = rw ne refl
Spent-snoc s (x ∷ xs) r h ne = elim (Bool-cases (str_eq x.state s)) [
  | inl here ↦ let bad : some x ≡ none = rw (find_state, here) at h in cc
  | inr there ↦ rw there (Spent-snoc s xs r (rw (find_state, there) at h) ne)
]

-- What `take` leaves of one state's row.
take-Spent : (s : String) (now : ℕ) (xs : List LoginState) → Spent s (take s now xs).1
unfolding take
take-Spent s now xs = elim (Option-cases (find_state s xs)) [
  | inl absent ↦ rw (take, absent) absent
  | inr (r, there) ↦ rw (take, there) (Spent-without s xs)
]

take-keeps :
    (s t : String) (now : ℕ) (xs : List LoginState) → Spent s xs → Spent s (take t now xs).1
unfolding take
take-keeps s t now xs h = elim (Option-cases (find_state t xs)) [
  | inl absent ↦ rw (take, absent) h
  | inr (r, there) ↦ rw (take, there) (Spent-keep s _ xs h)
]

take-absent :
    (s : String) (now : ℕ) (xs : List LoginState) → Spent s xs → take s now xs ≡ (none, xs)
unfolding take
take-absent s now xs h = rw (take, h) refl

module _ (port : OidcPort) where
  provision_user-states :
      (fresh : ℕ) (subject : String) (claims : Claims) (o : Oidc) (u : ℕ) (o' : Oidc)
      → provision_user port fresh subject claims o ≡ ok (u, o')
      → o'.states ≡ o.states
  unfolding provision_user
  provision_user-states fresh subject claims o u o' h = ground arith

  synced-states :
      (u : ℕ) (o : Oidc) (r : Result DirectoryError Directory)
      → (synced port u o r).1.states ≡ o.states
  synced-states u o (ok d) = refl
  synced-states u o (err e) = refl

  provisioned-states :
      (before : Oidc) (claims : Claims) (r : Result OidcError (ℕ × Oidc))
      → ((u : ℕ) (o : Oidc) → r ≡ ok (u, o) → o.states ≡ before.states)
      → (provisioned port before claims r).1.states ≡ before.states
  provisioned-states before claims (err e) f = refl
  provisioned-states before claims (ok (u, o)) f = synced-states u o _ ∙ f u o refl

  verified-states :
      (fresh : ℕ) (o : Oidc) (r : Result OidcError Claims)
      → (verified port fresh o r).1.states ≡ o.states
  verified-states fresh o (err e) = refl
  verified-states fresh o (ok claims) = elim (Option-cases (non_empty (get_claim "sub" claims))) [
    | inl absent ↦ rw (verified, absent) refl
    | inr (subject, there) ↦
        rw (verified, there)
          (provisioned-states o claims (provision_user port fresh subject claims o)
            (λ u o' h. provision_user-states fresh subject claims o u o' h))
  ]

  -- What a login leaves of the states: what `take` leaves.
  complete_login-states :
      (fresh : ℕ) (code state : String) (now : ℕ) (o : Oidc)
      → (complete_login port fresh code state now o).1.states ≡ (take state (iso now) o.states).1
  unfolding complete_login
  complete_login-states fresh code state now o =
      elim (Option-cases (take state (iso now) o.states).0) [
        | inl absent ↦ rw (complete_login, absent) refl
        | inr (r, there) ↦
            rw (complete_login, there)
              (verified-states fresh (record o { states = (take state (iso now) o.states).1 })
                (port.exchange code r.code_verifier r.nonce))
      ]

  -- A call of the service: its fresh texts, or what the browser brings back.
  pub data Step : Type 0 where
    begin : String → String → String → ℕ → Step
    finish : ℕ → String → String → ℕ → Step

  pub step : Step → Oidc → Oidc
  step (begin state nonce verifier now) o = start_login port state nonce verifier now o
  step (finish fresh code state now) o = (complete_login port fresh code state now o).1

  pub steps : List Step → Oidc → Oidc
  unfolding step
  steps [] o = o
  steps (s ∷ ss) o = steps ss (step s o)

  -- No login begins with this state.
  abbrev pub Fresh : String → List Step → Type 0
  Fresh s [] = Unit
  Fresh s (begin state nonce verifier now ∷ ss) = (str_eq state s ≡ false) × Fresh s ss
  Fresh s (finish fresh code state now ∷ ss) = Fresh s ss

  steps-Spent :
      (s : String) (ss : List Step) (o : Oidc)
      → Fresh s ss
      → Spent s o.states
      → Spent s (steps ss o).states
  unfolding steps start_login delete_expired
  steps-Spent s [] o f h = h
  steps-Spent s (begin state nonce verifier now ∷ ss) o (ne, f) h =
      steps-Spent s ss _ f (Spent-snoc s _ _ (Spent-keep s _ o.states h) ne)
  steps-Spent s (finish fresh code state now ∷ ss) o f h =
      steps-Spent s ss _ f (
        rw (complete_login-states fresh code state now o) (take-keeps s state (iso now) o.states h))

  Spent-invalid :
      (fresh : ℕ) (code s : String) (now : ℕ) (o : Oidc)
      → Spent s o.states
      → complete_login port fresh code s now o ≡ (err OidcError.state_invalid, o)
  unfolding complete_login
  Spent-invalid fresh code s now o h =
      let e = take-absent s (iso now) o.states h in
      rw (complete_login, e) (ap (λ p. (err OidcError.state_invalid, record o { states = p.1 })) e)

  -- After a login with some state was completed, refused or failed, and whatever logins begin with
  -- other states and end since, a login with that state is refused and changes nothing.
  pub complete_login-once :
      (fresh again : ℕ) (code other_code s : String) (now later : ℕ) (o : Oidc)
      (between : List Step)
      → Fresh s between
      → complete_login port again other_code s later
          (steps between (complete_login port fresh code s now o).1)
        ≡ (err OidcError.state_invalid, steps between (complete_login port fresh code s now o).1)
  complete_login-once fresh again code other_code s now later o between f =
      Spent-invalid again other_code s later _ (
        steps-Spent s between _ f
          (rw (complete_login-states fresh code s now o) (take-Spent s (iso now) o.states)))
