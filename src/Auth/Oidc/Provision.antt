-- ===== src/Auth/Oidc/Provision.antt =====
-- Whom a completed login lets in, and what a refused one leaves.
use ansina.Prelude.{
  ℕ, String, ◌≡◌, refl, ap, ◌∙◌, Option, none, some, List, [], ◌∷◌, ◌++◌, true, false, not, ◌&&◌,
  ◌||◌, leb, ◌<◌, ◌==◌, str_eq, if◌then◌else◌, arith, Bool-cases, Option-cases, inl, inr, Result,
  ok, err, eq_iff,
}
use ansina.Clock.{iso}
use ansina.Auth.Directory.{User, Directory, get_user, user_exists}
use ansina.Auth.Directory.Any.{any, any-append, any_mono}
use ansina.Auth.Directory.Holders.{live}
use ansina.Auth.RoleSync.{Claims, get_claim, desired, list_for_provider}
use ansina.Auth.RoleSync.Provenance.{owned, assigned, sync_mapped_roles-Synced}
use ansina.Auth.Grants.{has_role}
use ansina.Auth.Oidc.{
  LoginState, ExternalIdentity, Oidc, OidcError, OidcPort, find_state, take, complete_login,
  verified, provisioned, non_empty, provision_user, returning, linking, link, add_user,
  get_by_provider_subject, get_by_username, is_bootstrap_identity, derive_username,
}

get_user-live :
    (id : ℕ) (us : List User) (u : User)
    → get_user id us ≡ some u
    → u.active ≡ true
    → u.deleted ≡ false
    → (u.id ≡ id) × (live id us ≡ true)
unfolding get_user any
get_user-live id [] u h a d = cc
get_user-live id (v ∷ us) u h a d = elim (Bool-cases (v.id == id)) [
  | inl here ↦
      let found : some v ≡ some u = rw (get_user, here) at h in
      let same : v ≡ u = ground arith in (ground arith, rw same (ground arith))
  | inr there ↦
      let (e, l) = get_user-live id us u (rw (get_user, there) at h) a d in (e, rw (there, l) refl)
]

get_by_username-live :
    (name : String) (us : List User) (u : User)
    → get_by_username name us ≡ some u
    → u.active ≡ true
    → u.deleted ≡ false
    → live u.id us ≡ true
unfolding get_by_username any
get_by_username-live name [] u h a d = cc
get_by_username-live name (v ∷ us) u h a d = elim (Bool-cases (str_eq v.username name)) [
  | inl here ↦
      let found : some v ≡ some u = rw (get_by_username, here) at h in
      let same : v ≡ u = ground arith in rw same (ground arith)
  | inr there ↦
      let l = get_by_username-live name us u (rw (get_by_username, there) at h) a d in
      rw l (ground arith)
]

live-exists : (u : ℕ) (d : Directory) → live u d.users ≡ true → user_exists u d ≡ true
unfolding user_exists
live-exists u d h = any_mono _ _ d.users (λ v e. ground arith) h

get_by_provider_subject-snoc :
    (provider subject : String) (id : ℕ) (is : List ExternalIdentity)
    → get_by_provider_subject provider subject is ≡ none
    → get_by_provider_subject provider subject
        (is ++ record { user_id = id; provider = provider; subject = subject } ∷ [])
      ≡ some (record { user_id = id; provider = provider; subject = subject })
unfolding get_by_provider_subject
get_by_provider_subject-snoc provider subject id [] h =
    let one = (eq_iff provider provider).1 refl in
    let two = (eq_iff subject subject).1 refl in rw (one, two) refl
get_by_provider_subject-snoc provider subject id (i ∷ is) h =
    elim (Bool-cases (str_eq i.provider provider && str_eq i.subject subject)) [
      | inl here ↦ let bad : some i ≡ none = rw (get_by_provider_subject, here) at h in cc
      | inr there ↦ rw there (
          get_by_provider_subject-snoc provider subject id is
            (rw (get_by_provider_subject, there) at h))
    ]

module _ (port : OidcPort) where
  -- A user that is active and not deleted, to whom the provider's subject is linked.
  pub record Provisioned (subject : String) (u : ℕ) (o o' : Oidc) : Type 0 where
    pub lives : live u o'.directory.users ≡ true
    pub identity : ExternalIdentity
    pub linked : get_by_provider_subject port.issuer subject o'.identities ≡ some identity
    pub owner : identity.user_id ≡ u
    pub assignments : o'.directory.assignments ≡ o.directory.assignments

  returning-Provisioned :
      (subject : String) (i : ExternalIdentity) (o : Oidc) (found : Option User) (u : ℕ) (o' : Oidc)
      → get_by_provider_subject port.issuer subject o.identities ≡ some i
      → get_user i.user_id o.directory.users ≡ found
      → returning port found o ≡ ok (u, o')
      → Provisioned subject u o o'
  returning-Provisioned subject i o none u o' linked h k = cc
  returning-Provisioned subject i o (some v) u o' linked h k =
      elim (Bool-cases (v.deleted || not v.active)) [
        | inl refused ↦
            let bad : err OidcError.provisioning_refused ≡ ok (u, o') = rw refused at k in cc
        | inr fine ↦
            let kept : ok (v.id, o) ≡ ok (u, o') = rw fine at k in
            let same : v.id ≡ u = ground arith in
            let same_state : o ≡ o' = ground arith in
            let (owns, l) =
              get_user-live i.user_id o.directory.users v h (ground arith) (ground arith) in
            rw (← same_state) (record {
              lives = rw (← same, owns) l;
              identity = i;
              linked = linked;
              owner = cc;
              assignments = refl;
            })
      ]

  linking-Provisioned :
      (fresh : ℕ) (username subject : String) (o : Oidc) (found : Option User) (u : ℕ) (o' : Oidc)
      → get_by_provider_subject port.issuer subject o.identities ≡ none
      → get_by_username username o.directory.users ≡ found
      → linking port fresh username subject found o ≡ ok (u, o')
      → Provisioned subject u o o'
  unfolding any
  linking-Provisioned fresh username subject o none u o' unlinked h k =
      let same : fresh ≡ u = ground arith in
      let same_state : link fresh port.issuer subject (add_user fresh username o) ≡ o' =
        ground arith in
      rw (← same_state, ← same)
        (record {
          lives = any-append _ o.directory.users _ ∙ ground arith;
          identity = record { user_id = fresh; provider = port.issuer; subject = subject };
          linked = get_by_provider_subject-snoc port.issuer subject fresh o.identities unlinked;
          owner = refl;
          assignments = refl;
        })
  linking-Provisioned fresh username subject o (some v) u o' unlinked h k =
      elim (Bool-cases (v.deleted || not v.active || is_bootstrap_identity v.id o.identities)) [
        | inl refused ↦
            let bad : err OidcError.provisioning_refused ≡ ok (u, o') = rw refused at k in cc
        | inr fine ↦
            let kept : ok (v.id, link v.id port.issuer subject o) ≡ ok (u, o') = rw fine at k in
            let same : v.id ≡ u = ground arith in
            let same_state : link v.id port.issuer subject o ≡ o' = ground arith in
            rw (← same_state, ← same)
              (record {
                lives =
                    get_by_username-live username o.directory.users v h (ground arith)
                      (ground arith);
                identity = record { user_id = v.id; provider = port.issuer; subject = subject };
                linked =
                    get_by_provider_subject-snoc port.issuer subject v.id o.identities unlinked;
                owner = refl;
                assignments = refl;
              })
      ]

  provision_user-Provisioned :
      (fresh : ℕ) (subject : String) (claims : Claims) (o : Oidc) (u : ℕ) (o' : Oidc)
      → provision_user port fresh subject claims o ≡ ok (u, o')
      → Provisioned subject u o o'
  unfolding provision_user
  provision_user-Provisioned fresh subject claims o u o' h =
      elim (Option-cases (get_by_provider_subject port.issuer subject o.identities)) [
        | inl unlinked ↦
            linking-Provisioned fresh (derive_username claims subject) subject o _ u o' unlinked
              refl (rw (provision_user, unlinked) at h)
        | inr (i, linked) ↦
            returning-Provisioned subject i o _ u o' linked refl (rw (provision_user, linked) at h)
      ]

  -- What a login that returns has seen and done, for the user that it returns.
  pub record Admits (state : String) (code : String) (now : ℕ) (o : Oidc) (u : ℕ) (o' : Oidc)
      : Type 0 where
    pub row : LoginState
    pub present : find_state state o.states ≡ some row
    pub unexpired : iso now < row.expires_at
    pub claims : Claims
    pub exchanged : port.exchange code row.code_verifier row.nonce ≡ ok claims
    pub subject : String
    pub identity : ExternalIdentity
    pub named : non_empty (get_claim "sub" claims) ≡ some subject
    pub linked : get_by_provider_subject port.issuer subject o'.identities ≡ some identity
    pub owner : identity.user_id ≡ u
    pub lives : live u o'.directory.users ≡ true
    pub roles :
        (r : ℕ)
        → owned u port.issuer r o'.directory
          ≡ has_role r (desired claims (list_for_provider port.issuer port.mappings))
            && (owned u port.issuer r o.directory || not (assigned u port.issuer r o.directory))

  abbrev pub Outcome : String → String → ℕ → Oidc → Result OidcError ℕ → Oidc → Type 0
  Outcome state code now o (ok u) o' = Admits state code now o u o'
  Outcome state code now o (err e) o' =
      (o'.identities ≡ o.identities) × (o'.directory ≡ o.directory)

  provisioned-Outcome :
      (fresh : ℕ) (state code subject : String) (now : ℕ) (o before : Oidc) (row : LoginState)
      (claims : Claims) (r : Result OidcError (ℕ × Oidc))
      → before.identities ≡ o.identities
      → before.directory ≡ o.directory
      → find_state state o.states ≡ some row
      → iso now < row.expires_at
      → port.exchange code row.code_verifier row.nonce ≡ ok claims
      → non_empty (get_claim "sub" claims) ≡ some subject
      → provision_user port fresh subject claims before ≡ r
      → Outcome state code now o
          (provisioned port before claims r).0
          (provisioned port before claims r).1
  provisioned-Outcome fresh state code subject now o before row claims (err e) same same_d a b c d
        h =
      (same, same_d)
  provisioned-Outcome fresh state code subject now o before row claims (ok (u, o1)) same same_d a b
        c d h =
      let p = provision_user-Provisioned fresh subject claims before u o1 h in
      let (d', run, s) =
        sync_mapped_roles-Synced u port.issuer port.mappings claims o1.directory
          (live-exists u o1.directory p.lives) in
      let rows_same : o1.directory.assignments ≡ o.directory.assignments =
        p.assignments ∙ ap (λ x. x.assignments) same_d in
      rw run (record {
        row = row;
        present = a;
        unexpired = b;
        claims = claims;
        exchanged = c;
        subject = subject;
        identity = p.identity;
        named = d;
        linked = p.linked;
        owner = p.owner;
        lives = rw s.users p.lives;
        roles = λ r. s.owns r ∙ rw rows_same refl;
      })

  verified-Outcome :
      (fresh : ℕ) (state code : String) (now : ℕ) (o before : Oidc) (row : LoginState)
      (r : Result OidcError Claims)
      → before.identities ≡ o.identities
      → before.directory ≡ o.directory
      → find_state state o.states ≡ some row
      → iso now < row.expires_at
      → port.exchange code row.code_verifier row.nonce ≡ r
      → Outcome state code now o (verified port fresh before r).0 (verified port fresh before r).1
  verified-Outcome fresh state code now o before row (err e) same same_d a b h = (same, same_d)
  verified-Outcome fresh state code now o before row (ok claims) same same_d a b h =
      elim (Option-cases (non_empty (get_claim "sub" claims))) [
        | inl absent ↦ rw (verified, absent) (same, same_d)
        | inr (subject, there) ↦
            rw (verified, there)
              (provisioned-Outcome fresh state code subject now o before row claims _ same same_d a
                b h there refl)
      ]

  take-some :
      (state : String) (now : ℕ) (states : List LoginState) (row : LoginState)
      → (take state now states).0 ≡ some row
      → (find_state state states ≡ some row) × (now < row.expires_at)
  unfolding take
  take-some state now states row h = elim (Option-cases (find_state state states)) [
    | inl absent ↦ let bad : none ≡ some row = rw (take, absent) at h in cc
    | inr (r, there) ↦
        let found : (if leb r.expires_at now then none else some r) ≡ some row =
          rw (take, there) at h in
        elim (Bool-cases (leb r.expires_at now)) [
          | inl late ↦ let bad : none ≡ some row = rw late at found in cc
          | inr early ↦
              let kept : some r ≡ some row = rw early at found in
              let same : r ≡ row = ground arith in rw (← same) (there, ground arith)
        ]
  ]

  -- A login that returns a user has found its state unexpired, and the provider has vouched, for the
  -- code, the verifier and the nonce of that state, for a subject; the user is active and not deleted,
  -- that subject is linked to it, and its roles from this provider are what the claims imply.
  -- A login that raises, for whatever reason, leaves the users, the links and the roles as they were.
  pub complete_login-Outcome :
      (fresh : ℕ) (code state : String) (now : ℕ) (o : Oidc)
      → Outcome state code now o
          (complete_login port fresh code state now o).0
          (complete_login port fresh code state now o).1
  unfolding complete_login
  complete_login-Outcome fresh code state now o =
      elim (Option-cases (take state (iso now) o.states).0) [
        | inl absent ↦ rw (complete_login, absent) (refl, refl)
        | inr (row, there) ↦
            let (present, early) = take-some state (iso now) o.states row there in
            rw (complete_login, there)
              (verified-Outcome fresh state code now o
                (record o { states = (take state (iso now) o.states).1 }) row _ refl refl present
                early refl)
      ]
