-- ===== src/Objects.antt =====
-- core/objects.c: the objects that a client exposes, and the dispatch of requests to their
-- callbacks. The callbacks are the application's: they act on a state of type `S` and return a
-- status. A NULL callback is `none`. `objectList` is the list of the objects that it points at.
pub mod Dispatch
pub mod Printed
mod Examples
use galileom2m.Prelude.{
  ℕ, ◌+◌, ◌-◌, bit_and, Bool, true, false, Option, none, some, List, [], ◌∷◌, ◌++◌, ltb, leb, ◌==◌,
  ◌&&◌, ◌||◌, not, if◌then◌else◌, length, take,
}
use galileom2m.Coap.{bad_request, not_found, method_not_allowed}
use galileom2m.Uri.{Uri, flag_instance_id, flag_resource_id}
use galileom2m.Uri.Numbers.{decimal}

pub record Object (S : Type 0) : Type 0 where
  pub obj_id : ℕ
  pub instance_list : List ℕ
  pub read_func : Option (Uri → S → ℕ × List ℕ × S)
  pub write_func : Option (Uri → List ℕ → S → ℕ × S)
  pub execute_func : Option (Uri → List ℕ → S → ℕ × S)
  pub create_func : Option (Uri → List ℕ → S → ℕ × S)
  pub delete_func : Option (ℕ → S → ℕ × S)
  pub close_func : Option (S → S)

-- A comparison as an `int`, and an `int` as a condition.
abbrev int_of : Bool → ℕ
int_of true = 1
int_of false = 0

abbrev holds : ℕ → Bool
holds n = not (n == 0)

module _ {S : Type 0} where
  unfoldable pub find_object : List (Object S) → ℕ → Option (Object S)
  find_object [] id = none
  find_object (o ∷ objects) id = if o.obj_id == id then some o else find_object objects id

  -- The status, the bytes that are read, and the new state.
  unfoldable pub object_read : List (Object S) → Uri → S → ℕ × List ℕ × S
  object_read objects uri s = elim (find_object objects uri.object_id) [
    | none ↦ (not_found, [], s)
    | some o ↦ elim o.read_func [ none ↦ (method_not_allowed, [], s) | some read ↦ read uri s ]
  ]

  -- The condition is `uriP->flag & (LWM2M_URI_FLAG_INSTANCE_ID == 0)`, as it is bracketed there.
  pub object_write : List (Object S) → Uri → List ℕ → S → ℕ × S
  object_write objects uri buffer s =
      if holds (bit_and uri.flag (int_of (flag_instance_id == 0)))
      then (bad_request, s)
      else elim (find_object objects uri.object_id) [
        | none ↦ (not_found, s)
        | some o ↦ elim o.write_func [
          | none ↦ (method_not_allowed, s)
          | some write ↦ write uri buffer s
        ]
      ]

  execute : Object S → Uri → List ℕ → S → ℕ × S
  execute o uri buffer s = elim o.execute_func [
    | none ↦ (method_not_allowed, s)
    | some run ↦ run uri buffer s
  ]

  create : Object S → Uri → List ℕ → S → ℕ × S
  create o uri buffer s =
      if length buffer == 0
      then (bad_request, s)
      else elim o.create_func [ none ↦ (method_not_allowed, s) | some make ↦ make uri buffer s ]

  pub object_create_execute : List (Object S) → Uri → List ℕ → S → ℕ × S
  unfolding execute create
  object_create_execute objects uri buffer s = elim (find_object objects uri.object_id) [
    | none ↦ (not_found, s)
    | some o ↦
        if holds (bit_and uri.flag (int_of (not (flag_instance_id == 0))))
          && holds (bit_and uri.flag (int_of (not (flag_resource_id == 0))))
        then execute o uri buffer s
        else if holds (bit_and uri.flag (int_of (flag_resource_id == 0)))
            && not (length buffer == 0)
        then create o uri buffer s
        else (bad_request, s)
  ]

  pub object_delete : List (Object S) → Uri → S → ℕ × S
  object_delete objects uri s =
      if holds (bit_and uri.flag (int_of (flag_instance_id == 0)))
        || holds (bit_and uri.flag (int_of (not (flag_resource_id == 0))))
      then (bad_request, s)
      else elim (find_object objects uri.object_id) [
        | none ↦ (not_found, s)
        | some o ↦ elim o.delete_func [
          | none ↦ (method_not_allowed, s)
          | some remove ↦ remove uri.instance_id s
        ]
      ]

-- An entry of the registration payload: an object, and one of its instances if it has any.
pub record Entry : Type 0 where
  pub id : ℕ
  pub instance_id : Option ℕ

-- "%hu, " and "%hu/%hu, "
unfoldable pub entry_text : Entry → List ℕ
entry_text e = elim e.instance_id [
  | none ↦ decimal e.id
  | some i ↦ decimal e.id ++ (b'/' ∷ decimal i)
]

unfoldable pub instance_entries : ℕ → List ℕ → List Entry
instance_entries id [] = []
instance_entries id (i ∷ is) = record { id = id; instance_id = some i } ∷ instance_entries id is

unfoldable pub object_entries : ℕ → List ℕ → List Entry
unfolding instance_entries
object_entries id [] = record { id = id; instance_id = none } ∷ []
object_entries id (i ∷ is) = instance_entries id (i ∷ is)

unfoldable pub entries : {S : Type 0} → List (Object S) → List Entry
unfolding object_entries
entries [] = []
entries (o ∷ objects) = object_entries o.obj_id o.instance_list ++ entries objects

-- The loops of `prv_getRegisterPayload`: `text` is what stands in the buffer, `room` is
-- `length - index`; `none` is the early `return 0`. What `snprintf` cuts off when the text just
-- fits is the last of the two characters that the end of the function cuts off too.
unfoldable pub write_entries : List ℕ → ℕ → List Entry → Option (List ℕ)
write_entries text room [] = some text
write_entries text room (e ∷ es) =
    let item = entry_text e ++ (b',' ∷ b' ' ∷ []) in
    let more = write_entries (text ++ item) (room - length item) es in
    if leb (length item) room then more else none

-- The payload, of the length that the function returns.
unfoldable pub get_register_payload : {S : Type 0} → List (Object S) → ℕ → List ℕ
unfolding write_entries
get_register_payload objects size = elim (write_entries [] size (entries objects)) [
  | none ↦ []
  | some text ↦ take (length text - 2) text
]
