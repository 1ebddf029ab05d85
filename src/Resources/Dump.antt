-- ===== src/Resources/Dump.antt =====
-- tests/client/object.c: the TLV records of a whole object (`prv_get_object_tlv`) and of the values of
-- a resource.
use galileom2m.Prelude.{
  ℕ, zero, suc, ◌+◌, ◌-◌, ◌%◌, ◌^◌, Bool, true, Option, none, some, List, [], ◌∷◌, ◌++◌, leb, ◌==◌,
  if◌then◌else◌, length, take, drop,
}
use galileom2m.Context.{Run, ok, fault, ◌>>=◌}
use galileom2m.Tlv.{
  Encoded, written, refused, overrun, ressource_instance, multiple_instance, ressource, int_to_tlv,
  opaque_to_tlv,
}
use galileom2m.Resources.{exec, string, int, Cells, load_word, load_string, Resource, value_at}

-- The records of the values from index `n` on, `count` of them, behind what stands in the buffer of
-- 64 bytes; `none` if one is refused. A NULL value is left out or makes it fail.
unfoldable pub instance_tlvs : Cells → Resource → ℕ → Bool → ℕ → ℕ → List ℕ → Run (Option (List ℕ))
instance_tlvs m resource instance_id leave_out n zero buffer = ok (some buffer)
instance_tlvs m resource instance_id leave_out n (suc count) buffer = do
  value ← value_at resource instance_id n
  if value == 0
      then (let rest = instance_tlvs m resource instance_id leave_out (n + 1) count buffer in
          if leave_out then rest else ok none)
      else (do
        w ← load_word m value
        (elim (int_to_tlv ressource_instance w n (64 - length buffer)) [
          | refused ↦ ok none
          | overrun ↦ fault
          | written bytes ↦
              instance_tlvs m resource instance_id leave_out (n + 1) count (buffer ++ bytes)
        ]))

-- What one round of the loop over the resources leaves in `result`, where it encodes nothing or a
-- record. In the round of a string that is NULL it leaves the value of the round before.
pub data Piece : Type 0 where
  skipped stale : Piece
  encoded : Encoded → Piece

-- `room` is `PRV_TLV_BUFFER_SIZE - length` as a `size_t`.
unfoldable pub string_piece : Cells → Resource → ℕ → Run Piece
string_piece m resource room =
    if resource.nof_values == 1
    then (do
      value ← value_at resource 0 0
      if value == 0 then ok stale else (do
        text ← load_string m value
        ok (encoded (opaque_to_tlv ressource text resource.id room))))
    else ok skipped

unfoldable pub values_piece : Cells → Resource → ℕ → Run Piece
unfolding instance_tlvs
values_piece m resource room = do
  records ← instance_tlvs m resource 0 true 0 resource.nof_values []
  elim records [
    | none ↦ ok (encoded refused)
    | some buffer ↦ ok (encoded (opaque_to_tlv multiple_instance buffer resource.id room))
  ]

unfoldable pub int_piece : Cells → Resource → ℕ → Run Piece
unfolding values_piece
int_piece m resource room =
    if resource.nof_values == 1
    then (do
      value ← value_at resource 0 0
      if value == 0
          then values_piece m resource room
          else (do w ← load_word m value; ok (encoded (int_to_tlv ressource w resource.id room))))
    else values_piece m resource room

unfoldable pub resource_piece : Cells → Resource → ℕ → Run Piece
unfolding string_piece int_piece
resource_piece m resource room = elim resource.access [
  | exec ↦ ok skipped
  | _ ↦ elim resource.type [
    | string ↦ string_piece m resource room
    | int ↦ int_piece m resource room
  ]
]

-- The bytes from index `at` on, if they lie in the buffer.
unfoldable pub overlay : List ℕ → ℕ → List ℕ → Run (List ℕ)
overlay buffer start bytes =
    if leb (start + length bytes) (length buffer)
    then ok (take start buffer ++ (bytes ++ drop (start + length bytes) buffer))
    else fault

-- The loop over the resources. The buffer has 128 bytes; the result is empty on an error.
unfoldable pub object_loop : Cells → List Resource → ℕ → ℕ → List ℕ → Run (List ℕ)
unfolding resource_piece overlay
object_loop m [] result len buffer = if leb len (length buffer) then ok (take len buffer) else fault
object_loop m (x ∷ resources) result len buffer = do
  piece ← resource_piece m x ((128 + 2 ^ 64 - len) % 2 ^ 64)
  elim piece [
    | skipped ↦ object_loop m resources result len buffer
    | stale ↦
        (let rest = object_loop m resources result (len + result) buffer in
          if result == 0 then ok [] else rest)
    | encoded refused ↦ ok []
    | encoded overrun ↦ fault
    | encoded (written bytes) ↦ do
      buffer' ← overlay buffer len bytes
      object_loop m resources (length bytes) (len + length bytes) buffer'
  ]

-- `fresh` is what `malloc` hands out, and `garbage` what stands in `result` at the start. The result
-- has the length that is returned.
unfoldable pub get_object_tlv : Option (List ℕ) → ℕ → Cells → List Resource → Run (List ℕ)
unfolding object_loop
get_object_tlv none garbage m resources = ok []
get_object_tlv (some fresh) garbage m resources = object_loop m resources garbage 0 fresh
