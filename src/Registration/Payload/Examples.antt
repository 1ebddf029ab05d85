-- ===== src/Registration/Payload/Examples.antt =====
-- A client with a security object without instances and a server object with two.
use galileom2m.Prelude.{ℕ, ◌≡◌, ◌≢◌, refl, none, List, [], ◌∷◌, arith, map}
use galileom2m.Uri.Numbers.{decimal, decimal_fuel}
use galileom2m.Objects.{
  Object, entries, object_entries, instance_entries, entry_text, write_entries,
  get_register_payload,
}
use galileom2m.Registration.{decode_register_payload}
use galileom2m.Registration.Payload.Collect.{exposed, decode_register_payload-get_register_payload}

abbrev object : ℕ → List ℕ → Object ℕ
object id instances = record {
  obj_id = id;
  instance_list = instances;
  read_func = none;
  write_func = none;
  execute_func = none;
  create_func = none;
  delete_func = none;
  close_func = none;
}

abbrev objects : List (Object ℕ)
objects = object 0 [] ∷ object 10 (0 ∷ 12 ∷ []) ∷ []

-- "0, 10/0, 10/12"
payload :
    get_register_payload objects 64
    ≡ b'0' ∷ b',' ∷ b' ' ∷ b'1' ∷ b'0' ∷ b'/' ∷ b'0' ∷ b',' ∷ b' ' ∷ b'1' ∷ b'0' ∷ b'/' ∷ b'1'
      ∷ b'2' ∷ []
unfolding get_register_payload write_entries entries object_entries instance_entries entry_text
    decimal decimal_fuel
payload = refl

some_payload : get_register_payload objects 64 ≢ []
some_payload none_left = cc payload

decode_register_payload-get_register_payload_example :
    decode_register_payload (get_register_payload objects 64) ≡ map exposed objects
decode_register_payload-get_register_payload_example =
    decode_register_payload-get_register_payload objects 64 (omega arith) (omega arith) some_payload
