-- ===== src/LinkedList/Refinement.antt =====
-- core/list.c: as the core uses it, a list is a finite map that hands out the lowest free id.
use galileom2m.Prelude.{
  ℕ, suc, ◌+◌, ◌≤◌, ◌<◌, ◌≡◌, ◌≢◌, refl, Option, none, some, List, [], ◌∷◌, arith, ◌==◌,
  if◌then◌else◌, length,
}
use galileom2m.LinkedList.{insert_after, list_add, list_find, unlink, list_remove, list_new_id}
use galileom2m.LinkedList.Order.{Rises, list_add-Rises, list_find-list_add, list_remove-Removed}
use galileom2m.LinkedList.NewId.{list_new_id-Lowest}

-- What the core does with a list: a node is entered under a new id, taken out, or looked up.
pub data Operation (A : Type 0) : Type 0 where
  enter : A → Operation A
  take_out look_up : ℕ → Operation A

-- What comes of it: the new id, or the node.
pub data Answer (A : Type 0) : Type 0 where
  entered : ℕ → Answer A
  node : Option A → Answer A

module _ {A : Type 0} (key : A → ℕ) (with_id : ℕ → A → A)
    (key_with_id : (id : ℕ) (x : A) → key (with_id id x) ≡ id) where
  -- A finite map that hands out the lowest free id.
  pub data Allows (m : ℕ → Option A) : Operation A → Answer A → (ℕ → Option A) → Type 0 where
    enters :
        (x : A) (id : ℕ) (m' : ℕ → Option A)
        → m id ≡ none
        → ((j : ℕ) → j < id → m j ≢ none)
        → ((j : ℕ) → m' j ≡ (if id == j then some (with_id id x) else m j))
        → Allows m (enter x) (entered id) m'
    takes_out :
        (id : ℕ) (m' : ℕ → Option A)
        → ((j : ℕ) → m' j ≡ (if id == j then none else m j))
        → Allows m (take_out id) (node (m id)) m'
    looks_up : (id : ℕ) → Allows m (look_up id) (node (m id)) m

  -- The answers that the map allows to operations, one after another.
  pub data Behaves : (ℕ → Option A) → List (Operation A) → List (Answer A) → Type 0 where
    done : (m : ℕ → Option A) → Behaves m [] []
    goes_on :
        (m m' : ℕ → Option A) (operation : Operation A) (answer : Answer A)
        (operations : List (Operation A)) (answers : List (Answer A))
        → Allows m operation answer m'
        → Behaves m' operations answers
        → Behaves m (operation ∷ operations) (answer ∷ answers)

  -- An operation on the list, as the callers make it.
  pub perform : List A → Operation A → List A × Answer A
  perform xs (enter x) = let id = list_new_id key xs in (list_add key xs (with_id id x), entered id)
  perform xs (take_out id) = let (rest, x) = list_remove key xs id in (rest, node x)
  perform xs (look_up id) = (xs, node (list_find key xs id))

  pub answers_of : List A → List (Operation A) → List (Answer A)
  unfolding perform
  answers_of xs [] = []
  answers_of xs (operation ∷ operations) =
      let (xs', answer) = perform xs operation in answer ∷ answers_of xs' operations

  length-insert_after : (xs : List A) (x : A) → length (insert_after key xs x) ≡ suc (length xs)
  unfolding insert_after
  length-insert_after [] x = refl
  length-insert_after (y ∷ xs) x = ground (arith, length-insert_after xs x)

  length-list_add : (xs : List A) (x : A) → length (list_add key xs x) ≡ suc (length xs)
  unfolding list_add
  length-list_add [] x = refl
  length-list_add (y ∷ xs) x = ground (arith, length-insert_after xs x)

  length-unlink : (xs : List A) (id : ℕ) → length (unlink key xs id).0 ≤ length xs
  unfolding unlink
  length-unlink [] id = omega arith
  length-unlink (y ∷ xs) id = ground (arith, length-unlink xs id)

  length-list_remove : (xs : List A) (id : ℕ) → length (list_remove key xs id).0 ≤ length xs
  unfolding list_remove
  length-list_remove [] id = omega arith
  length-list_remove (y ∷ xs) id = ground (arith, length-unlink xs id)

  -- An operation, its refinement, and what the next one needs.
  record Refined (xs : List A) (operation : Operation A) : Type 0 where
    allowed :
        Allows
          (list_find key xs)
          operation
          (perform xs operation).1
          (list_find key (perform xs operation).0)
    rises : Rises key (perform xs operation).0
    grown : length (perform xs operation).0 ≤ suc (length xs)

  perform-Refined :
      (xs : List A) (operation : Operation A)
      → Rises key xs
      → length xs < 65536
      → Refined xs operation
  unfolding perform
  perform-Refined xs (enter x) rises few =
      let (free, lower, small) = list_new_id-Lowest key xs rises few in
      let id = list_new_id key xs in
      let named = key_with_id id x in
      let free' : list_find key xs (key (with_id id x)) ≡ none = rw named free in
      record {
        allowed =
            enters x id _ free lower
              (λ j. ground (arith, named, list_find-list_add key xs (with_id id x) j rises free'));
        rises = list_add-Rises key xs (with_id id x) rises free';
        grown = omega (arith, length-list_add xs (with_id id x));
      }
  perform-Refined xs (take_out id) rises few =
      let (rises', (found, rest)) = list_remove-Removed key xs id rises in
      record {
        allowed = rw found (takes_out id _ rest);
        rises = rises';
        grown = omega (arith, length-list_remove xs id);
      }
  perform-Refined xs (look_up id) rises few = record {
    allowed = looks_up id;
    rises = rises;
    grown = omega arith;
  }

  -- Whatever nodes are entered under a new id, taken out and looked up in a list with rising ids,
  -- the answers are those of a finite map that hands out the lowest free id, as long as the list
  -- cannot reach 65536 nodes.
  pub answers_of-Behaves :
      (xs : List A) (operations : List (Operation A))
      → Rises key xs
      → length xs + length operations ≤ 65536
      → Behaves (list_find key xs) operations (answers_of xs operations)
  unfolding answers_of
  answers_of-Behaves xs [] rises few = done (list_find key xs)
  answers_of-Behaves xs (operation ∷ operations) rises few =
      let refined = perform-Refined xs operation rises (omega arith) in
      goes_on _ _ operation _ operations _ refined.allowed (
        answers_of-Behaves (perform xs operation).0 operations refined.rises
          (omega (arith, refined.grown)))
