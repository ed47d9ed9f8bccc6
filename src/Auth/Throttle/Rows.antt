-- ===== src/Auth/Throttle/Rows.antt =====
-- The rows of `login_attempts` after a write.

use ansina.Prelude.{
  ◌≡◌, refl, String, none, some, List, [], ◌∷◌, Bool, true, false, ◌&&◌, arith, keep, Bool-cases,
  inl, inr, str_eq, eq_iff,
}
use ansina.Auth.Throttle.{Scope, Attempt, is_row, get, clear, set, scope_eq}

pub is_row_refl : (x : Attempt) → is_row x.scope x.key x ≡ true
is_row_refl x = ground (arith, eq_iff x.key x.key)

-- A row of the bucket that the update is for is no row of another bucket.
pub is_row-other :
    (s : Scope) (k : String) (x a : Attempt)
    → is_row x.scope x.key a ≡ true
    → is_row s k x ≡ false
    → is_row s k a ≡ false
is_row-other s k x a here ne = ground (arith, eq_iff a.key x.key, eq_iff x.key k, eq_iff a.key k)

pub get-set : (x : Attempt) (t : List Attempt) → get x.scope x.key (set x t) ≡ some x
unfolding get set
get-set x [] = rw (is_row_refl x) refl
get-set x (a ∷ t) = elim (Bool-cases (is_row x.scope x.key a)) [
  | inl here ↦ rw (here, is_row_refl x) refl
  | inr there ↦ rw (there, there) (get-set x t)
]

pub get-set_other :
    (s : Scope) (k : String) (x : Attempt) (t : List Attempt)
    → is_row s k x ≡ false
    → get s k (set x t) ≡ get s k t
unfolding get set
get-set_other s k x [] ne = ground arith
get-set_other s k x (a ∷ t) ne = elim (Bool-cases (is_row x.scope x.key a)) [
  | inl here ↦ rw (here, ne, is_row-other s k x a here ne) refl
  | inr there ↦ rw (there, get-set_other s k x t ne) refl
]

pub get-clear : (s : Scope) (k : String) (t : List Attempt) → get s k (clear s k t) ≡ none
unfolding get clear keep
get-clear s k [] = refl
get-clear s k (a ∷ t) = ground (arith, get-clear s k t)

pub get-clear_other :
    (s s' : Scope) (k k' : String) (t : List Attempt)
    → (scope_eq s s' && str_eq k k') ≡ false
    → get s k (clear s' k' t) ≡ get s k t
unfolding get clear keep
get-clear_other s s' k k' [] ne = refl
get-clear_other s s' k k' (a ∷ t) ne =
    ground (arith, get-clear_other s s' k k' t ne, eq_iff a.key k, eq_iff a.key k', eq_iff k k')

-- A row that is not kept is not found, so no other row takes its place.
pub get-keep-none :
    (s : Scope) (k : String) (test : Attempt → Bool) (t : List Attempt)
    → get s k t ≡ none
    → get s k (keep test t) ≡ none
unfolding get keep
get-keep-none s k test [] e = refl
get-keep-none s k test (a ∷ t) e = ground (arith, get-keep-none s k test t)

pub get-keep-some :
    (s : Scope) (k : String) (test : Attempt → Bool) (t : List Attempt) (r : Attempt)
    → get s k t ≡ some r
    → test r ≡ true
    → get s k (keep test t) ≡ some r
unfolding get keep
get-keep-some s k test [] r e p = cc
get-keep-some s k test (a ∷ t) r e p = ground (arith, get-keep-some s k test t r)
