-- ===== src/Resources/Device/Examples.antt =====
-- tests/client/object_device.c: the table of the device object for concrete addresses.
use galileom2m.Prelude.{
  All, List, arith, ℕ, ◌+◌, ◌≡◌, refl, true, Option, none, some, [], ◌∷◌, ltb, if◌then◌else◌,
}
use galileom2m.Context.{Run, ok, ◌>>=◌}
use galileom2m.Resources.{
  ResAccType, read, exec, word, chars, Cells, load_word, store_word, before_nul, Resource,
  ObjectConfig, value_at, find_id,
}
use galileom2m.Resources.Build.{
  replicate, new_object_config, object_set_int_value_instance_multiple, object_add_resource_exec,
  object_add_resource_read, object_add_resource_string, object_add_resource_string_rw,
  object_add_resource_int, object_add_resource_int_rw,
}
use galileom2m.Uri.{Uri}
use galileom2m.Objects.{Object, find_object, object_read, object_write}
use galileom2m.Resources.Handlers.{ReadAnswers, on_read, on_write, on_execute, new_object}
use galileom2m.Resources.RoundTrip.{Exposes}
use galileom2m.Resources.Bounds.{Serves}
use galileom2m.Resources.Served.{SingleNumber, object_requests-Serves}
use galileom2m.Resources.Device.Served.{table_serves, table_serves-Serves}
use galileom2m.Resources.Device.{
  DeviceState, new_object_device, device_state_update, check_time_offset,
}

abbrev state : DeviceState
state = record {
  power_sources = λ i. 10 + i;
  ps_voltage = λ i. 20 + i;
  ps_current = λ i. 30 + i;
  battery_level = 40;
  memory_free = 41;
  state_code = 42;
  error_code = 43;
  cur_time = 44;
  utc_offset = 50;
  time_zone = 51;
  manufacturer = 52;
  model_number = 53;
  serial_number = 54;
  firmware_version = 55;
  supported_binding = 56;
}

-- Numbers below address 50, the two arrays of 64 bytes behind them, and strings of one character from
-- there on.
abbrev memory : Cells
memory p = some (
    if ltb p 50 then word p else if ltb p 52 then chars (replicate 64 0) else chars (b'U' ∷ 0 ∷ []))

abbrev shape : Resource → ResAccType × ℕ
shape x = (x.access, x.nof_values)

-- Access and number of values of resource `id` of the device.
shape_of : ℕ → Run (Option (ResAccType × ℕ))
unfolding new_object_device find_id new_object_config object_add_resource_string
    object_set_int_value_instance_multiple object_add_resource_exec object_add_resource_int
    object_add_resource_int_rw object_add_resource_string_rw object_add_resource_read
shape_of id = do
  made ← new_object_device memory state true true
  ok (elim made [
    | none ↦ none
    | some config ↦ elim (find_id config.resources id) [ none ↦ none | some x ↦ some (shape x) ]
  ])

-- The three power sources are there because the index of the third is above the one value so far.
power_sources_shape : shape_of 6 ≡ ok (some (read, 3))
unfolding shape_of
power_sources_shape = refl

reboot_shape : shape_of 4 ≡ ok (some (exec, 1))
unfolding shape_of
reboot_shape = refl

binding_shape : shape_of 16 ≡ ok (some (read, 1))
unfolding shape_of
binding_shape = refl

unknown_shape : shape_of 17 ≡ ok none
unfolding shape_of
unknown_shape = refl

-- The time that an update writes.
time_after : Run ℕ
unfolding device_state_update load_word store_word
time_after = do m ← device_state_update memory state 1000 (λ i. 7) 64; load_word m 44

time_is_written : time_after ≡ ok 1000
unfolding time_after
time_is_written = refl

-- "+12:30" passes the check, as the comment there says.
offset_too_large : check_time_offset (b'+' ∷ b'1' ∷ b'2' ∷ b':' ∷ b'3' ∷ b'0' ∷ []) ≡ true
unfolding check_time_offset
offset_too_large = refl

-- The table of the device object.
abbrev table_of : Run (Option ObjectConfig) → ObjectConfig
table_of (ok (some config)) = config
table_of other = record { resources = []; nof_instances = 0 }

device : ObjectConfig
unfolding new_object_device find_id new_object_config object_add_resource_string
    object_set_int_value_instance_multiple object_add_resource_exec object_add_resource_int
    object_add_resource_int_rw object_add_resource_string_rw object_add_resource_read
device = table_of (new_object_device memory state true true)

-- A text of 63 bytes fits the arrays of 64.
device_serves : table_serves 63 memory device.resources ≡ true
unfolding device table_serves value_at before_nul
device_serves = refl

abbrev around : ReadAnswers
around = record { allocated = true; fresh = none; garbage = 0 }

abbrev objects : List (Object (Option Cells))
objects =
    record {
      obj_id = 3;
      instance_list = [];
      read_func = some (on_read around device);
      write_func = some (on_write device);
      execute_func = some (on_execute device);
      create_func = none;
      delete_func = none;
      close_func = none;
    }
    ∷ []

-- The uri /3/0/15.
abbrev zone_uri : Uri
zone_uri = record { flag = 7; object_id = 3; instance_id = 0; resource_id = 15 }

exposes : Exposes objects zone_uri around device
unfolding find_object new_object
exposes = record { object = _; listed = refl; made = refl; small_flag = omega arith }

zone_single : SingleNumber device zone_uri
unfolding device find_id
zone_single x found number = cc

abbrev text : List ℕ
text = b'U' ∷ b'T' ∷ b'C' ∷ []

object_requests-Serves_example :
    ((status : ℕ) × (m' : Cells) × (object_write objects zone_uri text (some memory)
        ≡ (status, some m'))
      × All (Serves 1 63 m') device.resources)
    × ((status : ℕ) × (content : List ℕ) × (object_read objects zone_uri (some memory)
          ≡ (status, content, some memory)))
object_requests-Serves_example =
    object_requests-Serves 1 63 device memory zone_uri
      (table_serves-Serves 63 memory device.resources device_serves) (omega arith) text exposes refl
      zone_single (omega arith)
