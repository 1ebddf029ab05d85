-- ===== src/LinkedList/NewId.antt =====
-- core/list.c: `lwm2m_list_newId` finds the lowest unused id.
use galileom2m.Prelude.{
  ℕ, suc, ◌+◌, ◌%◌, ◌≤◌, ◌<◌, ◌≡◌, ◌≢◌, refl, inl, inr, none, List, [], ◌∷◌, arith, ◌==◌, length,
  Bool-cases,
}
use galileom2m.LinkedList.{list_find, new_id_from, list_new_id}
use galileom2m.LinkedList.Order.{RisesFrom, Rises, list_find_below}

module _ {A : Type 0} (key : A → ℕ) where
  -- The result of the scan that has reached `n`: not in use, and every id from `n` below it is.
  abbrev LowestFrom : ℕ → List A → ℕ → Type 0
  LowestFrom n xs id =
      (n ≤ id)
      × (id ≤ n + length xs)
      × (list_find key xs id ≡ none)
      × ((j : ℕ) → n ≤ j → j < id → list_find key xs j ≢ none)

  new_id_from-LowestFrom :
      (n : ℕ) (xs : List A)
      → RisesFrom key n xs
      → n + length xs < 65536
      → LowestFrom n xs (new_id_from key xs n)
  unfolding new_id_from list_find
  new_id_from-LowestFrom n [] r fits =
      (omega arith, omega arith, refl, λ j a b. absurd (omega arith))
  new_id_from-LowestFrom n (x ∷ xs) r fits = elim (Bool-cases (n == key x)) [
    | inl used ↦
        let same : key x ≡ n = ground arith in
        let next : (key x + 1) % 65536 ≡ suc (key x) = omega arith in
        let rest = new_id_from-LowestFrom (suc (key x)) xs r.1 (omega arith) in
        rw (used, next)
          (
            omega (arith, rest.0),
            omega (arith, rest.1),
            ground (arith, rest),
            λ j a b. ground (arith, rest.3 j),
          )
    | inr free ↦ rw free (
      omega arith,
      omega arith,
      ground (arith, list_find_below key n (suc (key x)) xs r.1),
      λ j a b. absurd (omega arith),
    )
  ]

  -- On a list with strictly rising 16-bit ids, fewer than 65536 of them, the new id is not in use,
  -- every smaller id is in use, and it is at most the number of nodes.
  pub list_new_id-Lowest :
      (xs : List A)
      → Rises key xs
      → length xs < 65536
      → (list_find key xs (list_new_id key xs) ≡ none)
        × ((j : ℕ) → j < list_new_id key xs → list_find key xs j ≢ none)
        × (list_new_id key xs ≤ length xs)
  unfolding list_new_id
  list_new_id-Lowest xs r fits =
      let low = new_id_from-LowestFrom 0 xs r (omega arith) in
      (low.2, λ j h. low.3 j (omega arith) h, omega (arith, low.1))
