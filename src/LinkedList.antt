-- ===== src/LinkedList.antt =====
-- core/list.c: the sorted list that holds transactions, servers, clients, their objects and their
-- observations. A chain of nodes is the sequence of the records; `key` reads the field that every
-- node has at the place of `lwm2m_list_t::id`, a uint16_t.
mod Examples
pub mod Order
pub mod NewId
pub mod Addresses
pub mod Last
pub mod Refinement
use galileom2m.Prelude.{ℕ, ◌+◌, ◌%◌, Option, none, some, List, [], ◌∷◌, ltb, ◌==◌, if◌then◌else◌}

module _ {A : Type 0} (key : A → ℕ) where
  -- The loop of `lwm2m_list_add`, from `target->next` on.
  insert_after : List A → A → List A
  insert_after [] node = node ∷ []
  insert_after (x ∷ xs) node =
      if ltb (key x) (key node) then x ∷ insert_after xs node else node ∷ x ∷ xs

  pub list_add : List A → A → List A
  unfolding insert_after
  list_add [] node = node ∷ []
  list_add (head ∷ rest) node =
      if ltb (key node) (key head) then node ∷ head ∷ rest else head ∷ insert_after rest node

  pub list_find : List A → ℕ → Option A
  list_find [] id = none
  list_find (x ∷ xs) id =
      if ltb (key x) id then list_find xs id else if key x == id then some x else none

  -- The loop of `lwm2m_list_remove`, from `target->next` on, with the node taken out.
  unlink : List A → ℕ → List A × Option A
  unlink [] id = ([], none)
  unlink (x ∷ xs) id =
      let rest = unlink xs id in
      if ltb (key x) id
      then (x ∷ rest.0, rest.1)
      else if key x == id
      then (xs, some x)
      else (x ∷ xs, none)

  -- The new list, and what `*nodeP` is set to.
  pub list_remove : List A → ℕ → List A × Option A
  unfolding unlink
  list_remove [] id = ([], none)
  list_remove (head ∷ rest) id =
      let (kept, node) = unlink rest id in
      if key head == id then (rest, some head) else (head ∷ kept, node)

  -- `id` is a uint16_t: `target->id + 1` wraps.
  new_id_from : List A → ℕ → ℕ
  new_id_from [] id = id
  new_id_from (x ∷ xs) id =
      let next = new_id_from xs ((key x + 1) % 65536) in if id == key x then next else id

  unfoldable pub list_new_id : List A → ℕ
  unfolding new_id_from
  list_new_id head = new_id_from head 0
