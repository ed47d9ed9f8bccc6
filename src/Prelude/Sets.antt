-- ===== src/Prelude/Sets.antt =====
-- Finite sets of values with a Boolean equality, as lists: what Python's frozensets and the rows of
-- a table with a composite primary key are read as.
use ansina.Prelude.{
  ◌≡◌, ◌↔◌, refl, List, [], ◌∷◌, ◌++◌, Bool, true, false, not, ◌&&◌, ◌||◌, if◌then◌else◌, keep,
  arith, Bool-cases, inl, inr,
}

pub record Eq {ℓ} (A : Type ℓ) : Type ℓ where
  pub beq : A → A → Bool
  pub beq_iff : (a b : A) → (beq a b ≡ true) ↔ (a ≡ b)

module _ {ℓ} {A : Type ℓ} ⦃e : Eq A⦄ where
  unfoldable pub contains : A → List A → Bool
  contains a [] = false
  contains a (x ∷ xs) = e.beq a x || contains a xs

  -- `INSERT … ON CONFLICT DO NOTHING`
  unfoldable pub insert : A → List A → List A
  unfolding contains
  insert a xs = if contains a xs then xs else xs ++ a ∷ []

  unfoldable pub remove : A → List A → List A
  unfolding keep
  remove a = keep (λ x. not (e.beq x a))

  unfoldable pub insert_all : List A → List A → List A
  unfolding insert
  insert_all [] xs = xs
  insert_all (a ∷ as') xs = insert_all as' (insert a xs)

  unfoldable pub remove_all : List A → List A → List A
  unfolding remove
  remove_all [] xs = xs
  remove_all (a ∷ as') xs = remove_all as' (remove a xs)

  -- Set difference.
  unfoldable pub minus : List A → List A → List A
  unfolding keep contains
  minus xs ys = keep (λ x. not (contains x ys)) xs

  pub contains-keep :
      (a : A) (p : A → Bool) (xs : List A) → contains a (keep p xs) ≡ contains a xs && p a
  unfolding contains keep
  contains-keep a p [] = refl
  contains-keep a p (x ∷ xs) = ground (arith, e.beq_iff a x, contains-keep a p xs)

  pub contains-append :
      (a : A) (xs ys : List A) → contains a (xs ++ ys) ≡ contains a xs || contains a ys
  unfolding contains
  contains-append a [] ys = refl
  contains-append a (x ∷ xs) ys = ground (arith, contains-append a xs ys)

  contains-snoc : (a b : A) (xs : List A) → contains a (xs ++ b ∷ []) ≡ contains a xs || e.beq a b
  unfolding contains
  contains-snoc a b [] = ground arith
  contains-snoc a b (x ∷ xs) = ground (arith, contains-snoc a b xs)

  pub contains-insert :
      (a b : A) (xs : List A) → contains a (insert b xs) ≡ contains a xs || e.beq a b
  unfolding insert
  contains-insert a b xs = elim (Bool-cases (contains b xs)) [
    | inl old ↦ rw old (ground (arith, e.beq_iff a b, old))
    | inr new ↦ rw new (contains-snoc a b xs)
  ]

  pub contains-insert_all :
      (a : A) (bs xs : List A) → contains a (insert_all bs xs) ≡ contains a xs || contains a bs
  unfolding insert_all contains
  contains-insert_all a [] xs = ground arith
  contains-insert_all a (b ∷ bs) xs =
      ground (arith, contains-insert_all a bs (insert b xs), contains-insert a b xs)

  pub contains-remove :
      (a b : A) (xs : List A) → contains a (remove b xs) ≡ contains a xs && not (e.beq a b)
  unfolding remove
  contains-remove a b xs = contains-keep a _ xs

  pub contains-remove_all :
      (a : A) (bs xs : List A)
      → contains a (remove_all bs xs) ≡ contains a xs && not (contains a bs)
  unfolding remove_all contains
  contains-remove_all a [] xs = ground arith
  contains-remove_all a (b ∷ bs) xs =
      ground (arith, contains-remove_all a bs (remove b xs), contains-remove a b xs)

  pub contains-minus :
      (a : A) (xs ys : List A) → contains a (minus xs ys) ≡ contains a xs && not (contains a ys)
  unfolding minus
  contains-minus a xs ys = contains-keep a _ xs

  -- A table that is brought to `wanted` by adding what is missing and taking away what is stale.
  unfoldable pub reconcile : List A → List A → List A → List A
  reconcile current wanted t =
      remove_all (minus current wanted) (insert_all (minus wanted current) t)

  pub contains-reconcile :
      (a : A) (current wanted t : List A)
      → contains a (reconcile current wanted t)
        ≡ (contains a t || contains a wanted && not (contains a current))
          && not (contains a current && not (contains a wanted))
  unfolding reconcile
  contains-reconcile a current wanted t = ground (
    arith,
    contains-remove_all a (minus current wanted) (insert_all (minus wanted current) t),
    contains-minus a current wanted,
    contains-insert_all a (minus wanted current) t,
    contains-minus a wanted current,
  )
