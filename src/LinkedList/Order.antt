-- ===== src/LinkedList/Order.antt =====
-- core/list.c: a list with strictly rising ids stays one, and is a finite map from ids to nodes.
use galileom2m.Prelude.{
  ℕ, suc, ◌≤◌, ◌<◌, ◌≡◌, refl, Option, none, some, List, [], ◌∷◌, arith, ltb, ◌==◌, if◌then◌else◌,
}
use galileom2m.LinkedList.{insert_after, list_add, list_find, unlink, list_remove}

module _ {A : Type 0} (key : A → ℕ) where
  -- The ids rise strictly and the first is at least `n`.
  abbrev pub RisesFrom : ℕ → List A → Type 0
  RisesFrom n [] = Unit {0}
  RisesFrom n (x ∷ xs) = (n ≤ key x) × RisesFrom (suc (key x)) xs

  abbrev pub Rises : List A → Type 0
  Rises xs = RisesFrom 0 xs

  pub RisesFrom-mono : (m n : ℕ) (xs : List A) → m ≤ n → RisesFrom n xs → RisesFrom m xs
  RisesFrom-mono m n [] h r = tt
  RisesFrom-mono m n (x ∷ xs) h r = (omega arith, r.1)

  pub list_find_below :
      (id n : ℕ) (xs : List A) → RisesFrom n xs → id < n → list_find key xs id ≡ none
  unfolding list_find
  list_find_below id n [] r h = refl
  list_find_below id n (x ∷ xs) r h = ground arith

  pub list_find_nil : (id : ℕ) → list_find key [] id ≡ none
  unfolding list_find
  list_find_nil id = refl

  pub list_find_cons :
      (x : A) (xs : List A) (id : ℕ)
      → list_find key (x ∷ xs) id
        ≡ (if ltb (key x) id then list_find key xs id else if key x == id then some x else none)
  unfolding list_find
  list_find_cons x xs id = refl

  insert_after-RisesFrom :
      (n : ℕ) (xs : List A) (node : A)
      → n ≤ key node
      → RisesFrom n xs
      → list_find key xs (key node) ≡ none
      → RisesFrom n (insert_after key xs node)
  unfolding insert_after list_find
  insert_after-RisesFrom n [] node h r e = (h, tt)
  insert_after-RisesFrom n (x ∷ xs) node h r e =
      ground (arith, insert_after-RisesFrom (suc (key x)) xs node)

  list_find-insert_after :
      (n : ℕ) (xs : List A) (node : A) (id : ℕ)
      → RisesFrom n xs
      → list_find key xs (key node) ≡ none
      → list_find key (insert_after key xs node) id
        ≡ (if key node == id then some node else list_find key xs id)
  unfolding insert_after list_find
  list_find-insert_after n [] node id r e = ground arith
  list_find-insert_after n (x ∷ xs) node id r e =
      ground (arith, list_find-insert_after (suc (key x)) xs node id r.1)

  -- Adding a node whose id is not in use keeps the ids strictly rising.
  pub list_add-Rises :
      (xs : List A) (node : A)
      → Rises xs
      → list_find key xs (key node) ≡ none
      → Rises (list_add key xs node)
  unfolding list_add list_find
  list_add-Rises [] node r e = ground arith
  list_add-Rises (x ∷ xs) node r e = ground (arith, insert_after-RisesFrom (suc (key x)) xs node)

  -- After adding a node whose id was not in use, that id finds the node and every other id finds
  -- what it found before.
  pub list_find-list_add :
      (xs : List A) (node : A) (id : ℕ)
      → Rises xs
      → list_find key xs (key node) ≡ none
      → list_find key (list_add key xs node) id
        ≡ (if key node == id then some node else list_find key xs id)
  unfolding list_add list_find
  list_find-list_add [] node id r e = ground arith
  list_find-list_add (x ∷ xs) node id r e =
      ground (arith, list_find-insert_after (suc (key x)) xs node id r.1)

  -- What is left after the removal of `id`.
  abbrev pub Removed : List A → ℕ → List A × Option A → Type 0
  Removed xs id (rest, node) =
      (node ≡ list_find key xs id)
      × ((j : ℕ) → list_find key rest j ≡ (if id == j then none else list_find key xs j))

  unlink-RisesFrom :
      (n : ℕ) (xs : List A) (id : ℕ) → RisesFrom n xs → RisesFrom n (unlink key xs id).0
  unfolding unlink
  unlink-RisesFrom n [] id r = tt
  unlink-RisesFrom n (x ∷ xs) id r =
      ground (arith, unlink-RisesFrom (suc (key x)) xs id r.1, RisesFrom-mono n (suc (key x)) xs)

  unlink-node : (xs : List A) (id : ℕ) → (unlink key xs id).1 ≡ list_find key xs id
  unfolding unlink list_find
  unlink-node [] id = refl
  unlink-node (x ∷ xs) id = ground (arith, unlink-node xs id)

  list_find-unlink :
      (n : ℕ) (xs : List A) (id j : ℕ)
      → RisesFrom n xs
      → list_find key (unlink key xs id).0 j ≡ (if id == j then none else list_find key xs j)
  unfolding unlink list_find
  list_find-unlink n [] id j r = ground arith
  list_find-unlink n (x ∷ xs) id j r =
      ground
        (arith, list_find-unlink (suc (key x)) xs id j r.1, list_find_below j (suc (key x)) xs r.1)

  -- Removing an id hands out the node that the id found, keeps the ids strictly rising, and
  -- afterwards the id finds nothing while every other id finds what it found before.
  pub list_remove-Removed :
      (xs : List A) (id : ℕ)
      → Rises xs
      → Rises (list_remove key xs id).0 × Removed xs id (list_remove key xs id)
  unfolding list_remove list_find
  list_remove-Removed [] id r = (tt, (refl, λ j. ground arith))
  list_remove-Removed (x ∷ xs) id r = (
    ground (arith, RisesFrom-mono 0 (suc (key x)) xs, unlink-RisesFrom (suc (key x)) xs id r.1),
    (
      ground (arith, unlink-node xs id, list_find_below id (suc (key x)) xs r.1),
      λ j. ground (
        arith,
        list_find-unlink (suc (key x)) xs id j r.1,
        list_find_below id (suc (key x)) xs r.1,
        list_find_below j (suc (key x)) xs r.1,
      ),
    ),
  )
