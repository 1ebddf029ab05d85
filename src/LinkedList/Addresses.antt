-- ===== src/LinkedList/Addresses.antt =====
-- core/list.c: a node that is added can be read through its address, and so can all the others.
use galileom2m.Prelude.{ℕ, ◌≡◌, ◌≢◌, none, some, List, [], ◌∷◌, arith, ◌==◌, if◌then◌else◌}
use galileom2m.Context.{at}
use galileom2m.Context.Store.{Distinct, at_cons}
use galileom2m.LinkedList.{insert_after, list_add, unlink, list_remove}

module _ {A : Type 0} (key self : A → ℕ) where
  at-insert_after :
      (xs : List A) (node : A) (q : ℕ)
      → at self (self node) xs ≡ none
      → at self q (insert_after key xs node) ≡ (if self node == q then some node else at self q xs)
  unfolding insert_after
  at-insert_after [] node q h = at_cons self q node []
  at-insert_after (x ∷ xs) node q h = ground (
    arith,
    at_cons self q x xs,
    at_cons self q x (insert_after key xs node),
    at_cons self q node (x ∷ xs),
    at_cons self (self node) x xs,
    at-insert_after xs node q,
  )

  pub at-list_add :
      (xs : List A) (node : A) (q : ℕ)
      → at self (self node) xs ≡ none
      → at self q (list_add key xs node) ≡ (if self node == q then some node else at self q xs)
  unfolding list_add
  at-list_add [] node q h = at_cons self q node []
  at-list_add (x ∷ xs) node q h = ground (
    arith,
    at_cons self q x xs,
    at_cons self q x (insert_after key xs node),
    at_cons self q node (x ∷ xs),
    at_cons self (self node) x xs,
    at-insert_after xs node q,
  )

  insert_after-Distinct :
      (xs : List A) (node : A)
      → Distinct self xs
      → at self (self node) xs ≡ none
      → Distinct self (insert_after key xs node)
  unfolding insert_after
  insert_after-Distinct [] node d h = (h, tt)
  insert_after-Distinct (x ∷ xs) node (fresh, d) h = ground (
    arith,
    h,
    at_cons self (self node) x xs,
    at-insert_after xs node (self x),
    insert_after-Distinct xs node d,
  )

  pub list_add-Distinct :
      (xs : List A) (node : A)
      → Distinct self xs
      → at self (self node) xs ≡ none
      → Distinct self (list_add key xs node)
  unfolding list_add
  list_add-Distinct [] node d h = (h, tt)
  list_add-Distinct (x ∷ xs) node (fresh, d) h = ground (
    arith,
    h,
    at_cons self (self node) x xs,
    at-insert_after xs node (self x),
    insert_after-Distinct xs node d,
  )

  at-unlink : (xs : List A) (id q : ℕ) → at self q xs ≡ none → at self q (unlink key xs id).0 ≡ none
  unfolding unlink
  at-unlink [] id q h = h
  at-unlink (x ∷ xs) id q h =
      ground (arith, at_cons self q x xs, at_cons self q x (unlink key xs id).0, at-unlink xs id q)

  unlink-Distinct : (xs : List A) (id : ℕ) → Distinct self xs → Distinct self (unlink key xs id).0
  unfolding unlink
  unlink-Distinct [] id d = d
  unlink-Distinct (x ∷ xs) id (fresh, d) =
      ground (arith, unlink-Distinct xs id d, at-unlink xs id (self x))

  pub list_remove-Distinct :
      (xs : List A) (id : ℕ) → Distinct self xs → Distinct self (list_remove key xs id).0
  unfolding list_remove
  list_remove-Distinct [] id d = d
  list_remove-Distinct (x ∷ xs) id (fresh, d) =
      ground (arith, unlink-Distinct xs id d, at-unlink xs id (self x))

  unlink-gone :
      (xs : List A) (id : ℕ) (x : A)
      → Distinct self xs
      → (unlink key xs id).1 ≡ some x
      → (at self (self x) (unlink key xs id).0 ≡ none) × (at self (self x) xs ≢ none)
  unfolding unlink
  unlink-gone [] id x d e = absurd (grind arith)
  unlink-gone (y ∷ xs) id x (fresh, d) e = ground (
    arith,
    at_cons self (self x) y xs,
    at_cons self (self x) y (unlink key xs id).0,
    unlink-gone xs id x d,
  )

  -- A node that was removed cannot be read through its address any more.
  pub list_remove-gone :
      (xs : List A) (id : ℕ) (x : A)
      → Distinct self xs
      → (list_remove key xs id).1 ≡ some x
      → at self (self x) (list_remove key xs id).0 ≡ none
  unfolding list_remove
  list_remove-gone [] id x d e = absurd (grind arith)
  list_remove-gone (y ∷ xs) id x (fresh, d) e =
      ground (arith, at_cons self (self x) y (unlink key xs id).0, unlink-gone xs id x d)
