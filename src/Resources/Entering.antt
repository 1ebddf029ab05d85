-- ===== src/Resources/Entering.antt =====
-- tests/client/object.c: entering a value in a table of resources, and the bounds test before it.
use galileom2m.Prelude.{ℕ, ◌^◌, ◌<◌, ◌≤◌, ◌≡◌, ◌⊎◌, ◌↔◌, some, arith, length}
use galileom2m.Context.{fault}
use galileom2m.Resources.{string, Resource, ObjectConfig, find_id}
use galileom2m.Resources.Build.{object_set_string_value_instance_multiple, enter_value}

-- An entry that is found, of strings, with 10 rows of 10 values.
pub record HasRows (config : ObjectConfig) (id : ℕ) : Type 0 where
  pub resource : Resource
  pub found : find_id config.resources id ≡ some resource
  pub strings : resource.type ≡ string
  pub rows : length resource.values ≡ 100

-- Entering the value `n` of an instance, both below 2^31, in an entry of strings that is in the table
-- with its 10 rows of 10 values, writes outside of the array exactly for the instance 10 with a value
-- up to 10, and for the value 10 of the instance 9: the bounds test lets both through.
pub object_set_string_value_instance_multiple-fault :
    (config : ObjectConfig) (id instance_id n value : ℕ)
    → HasRows config id
    → instance_id < 2 ^ 31
    → n < 2 ^ 31
    → (object_set_string_value_instance_multiple config id instance_id n value ≡ fault)
      ↔ (((instance_id ≡ 10) × (n ≤ 10)) ⊎ ((instance_id ≡ 9) × (n ≡ 10)))
unfolding object_set_string_value_instance_multiple enter_value
object_set_string_value_instance_multiple-fault config id instance_id n value h small_i small_n =
    ground (arith, h.found, h.strings, h.rows)
