-- ===== src/Auth/RoleSync.antt =====
-- src/ansina/auth/role_sync.py: the roles that an identity provider's claims imply.
pub mod Provenance
use ansina.Prelude.{
  ℕ, String, Option, none, some, List, [], ◌∷◌, Bool, true, false, not, ◌&&◌, ◌||◌, str_eq,
  if◌then◌else◌, keep, Result, ok, err,
}
use ansina.Auth.Grants.{has_role}
use ansina.Auth.Directory.{
  SubjectType, RoleAssignment, Directory, DirectoryError, assign, unassign, role_ids_of,
}

-- The value of a claim: a text, a list with its elements that are no texts as `none`, or another.
pub data Claim : Type 0 where
  text : String → Claim
  texts : List (Option String) → Claim
  other : Claim

pub record RoleMapping : Type 0 where
  pub provider : String
  pub claim : String
  pub value : String
  pub role_id : ℕ

abbrev pub Claims : Type 0
Claims = List (String × Claim)

unfoldable pub get_claim : String → Claims → Option Claim
get_claim name [] = none
get_claim name ((n, c) ∷ cs) =
    let rest = get_claim name cs in if str_eq n name then some c else rest

unfoldable pub has_text : String → List (Option String) → Bool
has_text value [] = false
has_text value (none ∷ xs) = has_text value xs
has_text value (some s ∷ xs) = str_eq s value || has_text value xs

abbrev matches : String → Option Claim → Bool
matches value none = false
matches value (some (text s)) = str_eq s value
matches value (some (texts xs)) = has_text value xs
matches value (some other) = false

-- `_claim_matches`
unfoldable pub claim_matches : Claims → String → String → Bool
unfolding get_claim has_text
claim_matches claims claim value = matches value (get_claim claim claims)

-- `list_for_provider`, less its order.
unfoldable pub list_for_provider : String → List RoleMapping → List RoleMapping
unfolding keep
list_for_provider provider = keep (λ m. str_eq m.provider provider)

unfoldable pub desired : Claims → List RoleMapping → List ℕ
unfolding claim_matches
desired claims [] = []
desired claims (m ∷ ms) =
    let rest = desired claims ms in
    if claim_matches claims m.claim m.value then m.role_id ∷ rest else rest

abbrev pub difference : List ℕ → List ℕ → List ℕ
difference xs ys = keep (λ r. not (has_role r ys)) xs

-- The first loop of `sync_mapped_roles`.
unfoldable pub assign_all : ℕ → String → List ℕ → Directory → Result DirectoryError Directory
unfolding assign
assign_all u provider [] d = ok d
assign_all u provider (r ∷ rs) d = elim (assign SubjectType.user u r provider d) [
  | err e ↦ err e
  | ok d' ↦ assign_all u provider rs d'
]

-- The second loop.
unfoldable pub unassign_all : ℕ → String → List ℕ → Directory → Directory
unfolding unassign
unassign_all u provider [] d = d
unassign_all u provider (r ∷ rs) d =
    unassign_all u provider rs (unassign SubjectType.user u r (some provider) d)

abbrev pub then_unassign :
    ℕ → String → List ℕ → Result DirectoryError Directory → Result DirectoryError Directory
then_unassign u provider rs (ok d) = ok (unassign_all u provider rs d)
then_unassign u provider rs (err e) = err e

unfoldable pub sync_mapped_roles :
    List RoleMapping → ℕ → String → Claims → Directory → Result DirectoryError Directory
unfolding list_for_provider desired role_ids_of assign_all unassign_all has_role keep
sync_mapped_roles mappings u provider claims d =
    let wanted = desired claims (list_for_provider provider mappings) in
    let current = role_ids_of SubjectType.user u provider d.assignments in
    then_unassign u provider (difference current wanted)
      (assign_all u provider (difference wanted current) d)
