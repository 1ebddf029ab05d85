-- ===== src/Resources/Build.antt =====
-- tests/client/object.c: making a table of resources and entering resources and values.
use Prim.Native.String.{String}
use galileom2m.Prelude.{
  ℕ, zero, suc, ◌+◌, ◌%◌, ◌^◌, Bool, true, false, not, Option, none, some, List, [], ◌∷◌, ltb, leb,
  ◌==◌, ◌&&◌, ◌||◌, if◌then◌else◌, length, get_elem?, set, is_some,
}
use galileom2m.Context.{Run, ok, fault, ◌>>=◌, minus_one}
use galileom2m.Resources.{
  ResAccType, read, read_write, exec, ResType, string, int, Cells, Resource, ObjectConfig,
  max_obj_instances, max_data_values, slot, int_gt, find_id, replace_id, load_string,
}

abbrev pub replicate {ℓ} : {A : Type ℓ} → ℕ → A → List A
replicate zero a = []
replicate (suc n) a = a ∷ replicate n a

-- An entry after `calloc`, with the id -1.
unfoldable pub free_entry : Resource
free_entry = record {
  desc = none;
  id = minus_one;
  access = read;
  type = string;
  exec_fnc = none;
  nof_values = 0;
  str_buff_sz = 0;
  values = replicate 100 0;
}

-- The outcomes of `malloc` and `calloc` come first.
unfoldable pub new_object_config : Bool → Bool → ℕ → Option ObjectConfig
unfolding free_entry
new_object_config for_config for_table nof_resources =
    if for_config && for_table
    then some (record { resources = replicate nof_resources free_entry; nof_instances = 1 })
    else none

-- The loop of `_objectAddResource`: the index where it ends, or the first free index if the id is not
-- in the table.
unfoldable pub place : List Resource → ℕ → ℕ → Option ℕ → Option ℕ
place [] id i free_idx = free_idx
place (x ∷ resources) id i free_idx =
    let next =
      place resources id (i + 1)
        (if x.id == minus_one && not (is_some free_idx) then some i else free_idx) in
    if x.id == id then some i else next

-- The entry as it is written; its string size and its values stay.
unfoldable pub described :
    Resource
    → ℕ
    → Option String
    → ResType
    → ResAccType
    → Option (ℕ → Cells → Run (ℕ × Cells))
    → Resource
described old id desc type access exec_fnc = record old {
  id = id;
  desc = desc;
  type = type;
  access = access;
  exec_fnc = exec_fnc;
  nof_values = 1;
}

-- The table and the index, which is `none` for -1.
unfoldable pub add_resource :
    ObjectConfig
    → ℕ
    → Option String
    → ResType
    → ResAccType
    → Option (ℕ → Cells → Run (ℕ × Cells))
    → ObjectConfig × Option ℕ
unfolding place described
add_resource config id desc type access exec_fnc =
    if not (is_some desc) || leb (2 ^ 31) id
    then (config, none)
    else elim (place config.resources id 0 none) [
      | none ↦ (config, none)
      | some i ↦ elim (get_elem? config.resources i) [
        | none ↦ (config, none)
        | some old ↦ (
          record config {
            resources = set config.resources i (described old id desc type access exec_fnc);
          },
          some i,
        )
      ]
    ]

unfoldable pub object_add_resource_read :
    ObjectConfig → Option String → ℕ → ResType → ObjectConfig × Option ℕ
unfolding add_resource
object_add_resource_read config desc id type = add_resource config id desc type read none

unfoldable pub object_add_resource_read_write :
    ObjectConfig → Option String → ℕ → ResType → ObjectConfig × Option ℕ
unfolding add_resource
object_add_resource_read_write config desc id type =
    add_resource config id desc type read_write none

unfoldable pub object_add_resource_exec :
    ObjectConfig
    → Option String
    → ℕ
    → Option (ℕ → Cells → Run (ℕ × Cells))
    → ObjectConfig × Option ℕ
unfolding add_resource
object_add_resource_exec config desc id exec_fnc = add_resource config id desc int exec exec_fnc

-- `false` is the result -1.
unfoldable pub object_resource_string_size : ObjectConfig → ℕ → ℕ → ObjectConfig × Bool
unfolding find_id replace_id
object_resource_string_size config id str_buff_sz = elim (find_id config.resources id) [
  | none ↦ (config, false)
  | some resource ↦ (
    record config {
      resources = replace_id config.resources id (record resource { str_buff_sz = str_buff_sz });
    },
    true,
  )
]

-- What is written behind the bounds test.
unfoldable pub enter_value : ObjectConfig → Resource → ℕ → ℕ → ℕ → ℕ → Run (ObjectConfig × Bool)
unfolding replace_id
enter_value config resource nof_values instance_id n value =
    if ltb (slot instance_id n) (length resource.values)
    then ok (
      record {
        resources = replace_id config.resources resource.id (record resource {
          nof_values = nof_values;
          values = set resource.values (slot instance_id n) value;
        });
        nof_instances =
            if int_gt instance_id config.nof_instances then instance_id else config.nof_instances;
      },
      true,
    )
    else fault

abbrev pub beyond_array : ℕ → ℕ → Bool
beyond_array instance_id n = int_gt instance_id max_obj_instances || int_gt n max_data_values

unfoldable pub object_set_string_value_instance_multiple :
    ObjectConfig → ℕ → ℕ → ℕ → ℕ → Run (ObjectConfig × Bool)
unfolding find_id enter_value
object_set_string_value_instance_multiple config id instance_id n value =
    elim (find_id config.resources id) [
      | none ↦ ok (config, false)
      | some resource ↦ elim resource.type [
        | int ↦ ok (config, false)
        | string ↦
            if beyond_array instance_id n
            then ok (config, false)
            else enter_value config resource
                (if int_gt n resource.nof_values then n else resource.nof_values) instance_id n
                value
      ]
    ]

unfoldable pub object_set_string_value : ObjectConfig → ℕ → ℕ → Run (ObjectConfig × Bool)
unfolding object_set_string_value_instance_multiple
object_set_string_value config id value =
    object_set_string_value_instance_multiple config id 0 0 value

unfoldable pub object_set_string_value_instance :
    ObjectConfig → ℕ → ℕ → ℕ → Run (ObjectConfig × Bool)
unfolding object_set_string_value_instance_multiple
object_set_string_value_instance config id instance_id value =
    object_set_string_value_instance_multiple config id instance_id 0 value

unfoldable pub object_set_int_value_instance_multiple :
    ObjectConfig → ℕ → ℕ → ℕ → ℕ → Run (ObjectConfig × Bool)
unfolding find_id enter_value
object_set_int_value_instance_multiple config id instance_id n value =
    elim (find_id config.resources id) [
      | none ↦ ok (config, false)
      | some resource ↦ elim resource.type [
        | string ↦ ok (config, false)
        | int ↦
            if beyond_array instance_id n
            then ok (config, false)
            else enter_value config resource
                (if int_gt n resource.nof_values then (n + 1) % 2 ^ 32 else resource.nof_values)
                instance_id n value
      ]
    ]

unfoldable pub object_set_int_value : ObjectConfig → ℕ → ℕ → Run (ObjectConfig × Bool)
unfolding object_set_int_value_instance_multiple
object_set_int_value config id value = object_set_int_value_instance_multiple config id 0 0 value

unfoldable pub object_set_int_value_instance : ObjectConfig → ℕ → ℕ → ℕ → Run (ObjectConfig × Bool)
unfolding object_set_int_value_instance_multiple
object_set_int_value_instance config id instance_id value =
    object_set_int_value_instance_multiple config id instance_id 0 value

unfoldable pub object_add_resource_string :
    Cells → ObjectConfig → Option String → ℕ → ℕ → Run (ObjectConfig × Bool)
unfolding object_add_resource_read object_resource_string_size object_set_string_value load_string
object_add_resource_string m config desc id value =
    let (config', index) = object_add_resource_read config desc id string in
    if is_some index
    then (do
      text ← load_string m value
      object_set_string_value (object_resource_string_size config' id (length text)).0 id value)
    else ok (config', false)

unfoldable pub object_add_resource_string_rw :
    ObjectConfig → Option String → ℕ → ℕ → ℕ → Run (ObjectConfig × Bool)
unfolding object_add_resource_read_write object_resource_string_size object_set_string_value
object_add_resource_string_rw config desc id value str_buff_sz =
    let (config', index) = object_add_resource_read_write config desc id string in
    if is_some index
    then object_set_string_value (object_resource_string_size config' id str_buff_sz).0 id value
    else ok (config', false)

unfoldable pub object_add_resource_int :
    ObjectConfig → Option String → ℕ → ℕ → Run (ObjectConfig × Bool)
unfolding object_add_resource_read object_set_int_value
object_add_resource_int config desc id value =
    let (config', index) = object_add_resource_read config desc id int in
    if is_some index then object_set_int_value config' id value else ok (config', false)

unfoldable pub object_add_resource_int_rw :
    ObjectConfig → Option String → ℕ → ℕ → Run (ObjectConfig × Bool)
unfolding object_add_resource_read_write object_set_int_value
object_add_resource_int_rw config desc id value =
    let (config', index) = object_add_resource_read_write config desc id int in
    if is_some index then object_set_int_value config' id value else ok (config', false)
