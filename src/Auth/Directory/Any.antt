-- ===== src/Auth/Directory/Any.antt =====
-- Whether some row of a table passes a test, and what deleting rows does to it.
use ansina.Prelude.{
  ◌≡◌, refl, List, [], ◌∷◌, ◌++◌, Bool, true, false, not, ◌&&◌, ◌||◌, keep, arith, Bool-cases, inl,
  inr,
}

module _ {ℓ} {A : Type ℓ} where
  unfoldable pub any : (A → Bool) → List A → Bool
  any p [] = false
  any p (x ∷ xs) = p x || any p xs

  pub any-append : (p : A → Bool) (xs ys : List A) → any p (xs ++ ys) ≡ any p xs || any p ys
  unfolding any
  any-append p [] ys = refl
  any-append p (x ∷ xs) ys = ground (arith, any-append p xs ys)

  pub any_mono :
      (p q : A → Bool) (xs : List A)
      → ((x : A) → p x ≡ true → q x ≡ true)
      → any p xs ≡ true
      → any q xs ≡ true
  unfolding any
  any_mono p q [] f h = cc
  any_mono p q (x ∷ xs) f h = elim (Bool-cases (p x)) [
    | inl hit ↦ rw (f x hit) refl
    | inr miss ↦ ground (arith, any_mono p q xs f (rw miss at h))
  ]

  -- A deletion that spares the rows with a property finds them again.
  pub any-keep :
      (p q : A → Bool) (xs : List A)
      → ((x : A) → p x ≡ true → q x ≡ true)
      → any p xs ≡ true
      → any p (keep q xs) ≡ true
  unfolding any keep
  any-keep p q [] f h = cc
  any-keep p q (x ∷ xs) f h = elim (Bool-cases (p x)) [
    | inl hit ↦ rw (f x hit, hit) refl
    | inr miss ↦ ground (arith, any-keep p q xs f (rw miss at h))
  ]

  pub any-split :
      (p q : A → Bool) (xs : List A)
      → any p xs ≡ true
      → any (λ x. p x && q x) xs ≡ false
      → any (λ x. p x && not (q x)) xs ≡ true
  unfolding any
  any-split p q [] h k = cc
  any-split p q (x ∷ xs) h k = ground (arith, any-split p q xs)

  pub any-none : (p : A → Bool) (xs : List A) → ((x : A) → p x ≡ false) → any p xs ≡ false
  unfolding any
  any-none p [] f = refl
  any-none p (x ∷ xs) f = rw (f x, any-none p xs f) refl

  pub any_anti :
      (p q : A → Bool) (xs : List A)
      → ((x : A) → p x ≡ true → q x ≡ true)
      → any q xs ≡ false
      → any p xs ≡ false
  any_anti p q xs f h = elim (Bool-cases (any p xs)) [
    | inr miss ↦ miss
    | inl hit ↦ let bad = any_mono p q xs f hit in cc
  ]

  -- A row behind the answer, with what it brings about.
  pub any-row :
      (p q : A → Bool) (xs : List A)
      → any p (keep q xs) ≡ true
      → (x : A) × (p x ≡ true) × (q x ≡ true) × ((f : A → Bool) → f x ≡ true → any f xs ≡ true)
  unfolding any keep
  any-row p q [] h = cc
  any-row p q (x ∷ xs) h = elim (Bool-cases (q x)) [
    | inr left ↦
        let (y, a, b, f) = any-row p q xs (rw left at h) in
        (y, a, b, λ g e. rw (f g e) (ground arith))
    | inl kept ↦ elim (Bool-cases (p x)) [
      | inl hit ↦ (x, hit, kept, λ g e. rw e refl)
      | inr miss ↦
          let (y, a, b, f) = any-row p q xs (rw (kept, miss) at h) in
          (y, a, b, λ g e. rw (f g e) (ground arith))
    ]
  ]

  pub any-member :
      (p : A → Bool) (xs : List A)
      → any p xs ≡ true
      → (x : A) × (p x ≡ true) × ((f : A → Bool) → f x ≡ true → any f xs ≡ true)
  unfolding any
  any-member p [] h = cc
  any-member p (x ∷ xs) h = elim (Bool-cases (p x)) [
    | inl hit ↦ (x, hit, λ g e. rw e refl)
    | inr miss ↦
        let (y, a, f) = any-member p xs (rw miss at h) in (y, a, λ g e. rw (f g e) (ground arith))
  ]
