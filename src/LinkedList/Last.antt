-- ===== src/LinkedList/Last.antt =====
-- core/list.c: what happens to a node whose id is above all the others.
use galileom2m.Prelude.{ℕ, ◌<◌, ◌≤◌, ◌≡◌, refl, none, some, List, [], ◌∷◌, ◌++◌, arith, All}
use galileom2m.LinkedList.{insert_after, list_add, list_find}

module _ {A : Type 0} (key : A → ℕ) where
  abbrev pub Below : ℕ → List A → Type 0
  Below n xs = All (λ x. key x < n) xs

  pub Below-mono : (m n : ℕ) (xs : List A) → m ≤ n → Below m xs → Below n xs
  Below-mono m n [] h below = tt
  Below-mono m n (x ∷ xs) h (one, below) = (omega arith, Below-mono m n xs h below)

  pub Below-snoc : (n : ℕ) (xs : List A) (x : A) → Below n xs → key x < n → Below n (xs ++ (x ∷ []))
  Below-snoc n [] x below h = (h, tt)
  Below-snoc n (y ∷ xs) x (one, below) h = (one, Below-snoc n xs x below h)

  insert_after_last :
      (xs : List A) (node : A) → Below (key node) xs → insert_after key xs node ≡ xs ++ (node ∷ [])
  unfolding insert_after
  insert_after_last [] node below = refl
  insert_after_last (x ∷ xs) node (one, below) = ground (arith, insert_after_last xs node below)

  -- A node is added behind all the others.
  pub list_add_last :
      (xs : List A) (node : A) → Below (key node) xs → list_add key xs node ≡ xs ++ (node ∷ [])
  unfolding list_add
  list_add_last [] node below = refl
  list_add_last (x ∷ xs) node (one, below) = ground (arith, insert_after_last xs node below)

  -- It is found there.
  pub list_find_last :
      (xs : List A) (node : A)
      → Below (key node) xs
      → list_find key (xs ++ (node ∷ [])) (key node) ≡ some node
  unfolding list_find
  list_find_last [] node below = ground arith
  list_find_last (x ∷ xs) node (one, below) = ground (arith, list_find_last xs node below)

  pub list_find_above : (xs : List A) (id : ℕ) → Below id xs → list_find key xs id ≡ none
  unfolding list_find
  list_find_above [] id below = refl
  list_find_above (x ∷ xs) id (one, below) = ground (arith, list_find_above xs id below)
