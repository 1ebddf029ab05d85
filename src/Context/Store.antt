-- ===== src/Context/Store.antt =====
-- Reading back after writing through a pointer or unlinking a record.
use galileom2m.Prelude.{
  ℕ, ◌≡◌, refl, none, some, List, [], ◌∷◌, ◌==◌, if◌then◌else◌, arith, is_some,
}
use galileom2m.Context.{at, store, unlink_at}

module _ {A : Type 0} (self : A → ℕ) where
  -- No two records have the same address.
  abbrev pub Distinct : List A → Type 0
  Distinct [] = Unit {0}
  Distinct (x ∷ xs) = (at self (self x) xs ≡ none) × Distinct xs

  pub at_nil : (q : ℕ) → at self q [] ≡ none
  unfolding at
  at_nil q = refl

  pub at_cons :
      (q : ℕ) (x : A) (xs : List A)
      → at self q (x ∷ xs) ≡ (if self x == q then some x else at self q xs)
  unfolding at
  at_cons q x xs = refl

  pub store_cons :
      (new x : A) (xs : List A)
      → store self new (x ∷ xs) ≡ (if self x == self new then new ∷ xs else x ∷ store self new xs)
  unfolding store
  store_cons new x xs = refl

  pub at-store :
      (q : ℕ) (new : A) (xs : List A)
      → at self q (store self new xs) ≡ (
          if self new == q
          then (if is_some (at self q xs) then some new else none)
          else at self q xs)
  unfolding at store
  at-store q new [] = ground arith
  at-store q new (x ∷ xs) = ground (arith, at-store q new xs)

  pub store-Distinct : (new : A) (xs : List A) → Distinct xs → Distinct (store self new xs)
  unfolding at store
  store-Distinct new [] d = tt
  store-Distinct new (x ∷ xs) (fresh, d) =
      ground (arith, store-Distinct new xs d, at-store (self x) new xs)

  pub unlink_at-only : (x : A) → unlink_at self (self x) (x ∷ []) ≡ []
  unfolding unlink_at
  unlink_at-only x = ground arith

  pub at-unlink_at :
      (p q : ℕ) (xs : List A)
      → Distinct xs
      → at self q (unlink_at self p xs) ≡ (if p == q then none else at self q xs)
  unfolding at unlink_at
  at-unlink_at p q [] d = ground arith
  at-unlink_at p q (x ∷ xs) (fresh, d) = ground (arith, at-unlink_at p q xs d)
