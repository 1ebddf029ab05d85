-- ===== src/LinkedList/Examples.antt =====
-- The list functions of core/list.c on lists of ids.
use galileom2m.Prelude.{ℕ, ◌≡◌, refl, none, List, [], ◌∷◌, arith}
use galileom2m.LinkedList.{list_find, list_new_id}
use galileom2m.LinkedList.Order.{Rises}
use galileom2m.LinkedList.Refinement.{
  Operation, enter, take_out, look_up, Behaves, answers_of, answers_of-Behaves,
}

abbrev itself : ℕ → ℕ
itself n = n

abbrev ids : List ℕ
ids = 0 ∷ 1 ∷ 3 ∷ []

ids-Rises : Rises itself ids
ids-Rises = (omega arith, (omega arith, (omega arith, tt)))

two_unused : list_find itself ids 2 ≡ none
unfolding list_find
two_unused = refl

new_id : list_new_id itself ids ≡ 2
unfolding list_new_id
new_id = refl

-- An id becomes free and is handed out again.
abbrev busy : List (Operation ℕ)
busy = enter 9 ∷ take_out 1 ∷ enter 9 ∷ look_up 1 ∷ []

renamed : (id x : ℕ) → itself ((λ (i y : ℕ). i) id x) ≡ id
renamed id x = refl

answers_of-Behaves_example :
    Behaves itself
      (λ i y. i)
      renamed
      (list_find itself ids)
      busy
      (answers_of itself (λ i y. i) renamed ids busy)
answers_of-Behaves_example =
    answers_of-Behaves itself (λ i y. i) renamed ids busy ids-Rises (omega arith)
