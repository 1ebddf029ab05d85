-- ===== src/Resources/Device.antt =====
-- tests/client/object_device.c: the device object of the test client.
pub mod Served
mod Examples
use Prim.Native.String.{String}
use galileom2m.Prelude.{
  ℕ, zero, suc, ◌+◌, ◌≡◌, refl, Bool, true, false, not, Option, none, some, List, [], ◌∷◌, leb,
  ◌==◌, ◌&&◌, if◌then◌else◌, length, get_or,
}
use galileom2m.Context.{Run, ok, fault, ◌>>=◌, minus_one}
use galileom2m.Resources.{
  ResAccType, read, read_write, exec, ResType, string, int, Cell, word, Cells, update, load_word,
  store_word, load_string, Resource, ObjectConfig, find_id,
}
use galileom2m.Resources.Build.{
  new_object_config, object_add_resource_read, object_add_resource_exec, object_add_resource_string,
  object_add_resource_string_rw, object_add_resource_int, object_add_resource_int_rw,
  object_set_int_value_instance_multiple,
}

-- The addresses of `device_state` and of the constant strings.
pub record DeviceState : Type 0 where
  pub power_sources : ℕ → ℕ
  pub ps_voltage : ℕ → ℕ
  pub ps_current : ℕ → ℕ
  pub battery_level : ℕ
  pub memory_free : ℕ
  pub state_code : ℕ
  pub error_code : ℕ
  pub cur_time : ℕ
  pub utc_offset : ℕ
  pub time_zone : ℕ
  pub manufacturer : ℕ
  pub model_number : ℕ
  pub serial_number : ℕ
  pub firmware_version : ℕ
  pub supported_binding : ℕ

unfoldable pub exec_reboot : ℕ → Cells → Run (ℕ × Cells)
exec_reboot instance_id m = ok (0, m)

unfoldable pub exec_reset : ℕ → Cells → Run (ℕ × Cells)
exec_reset instance_id m = ok (0, m)

unfoldable pub exec_reset_error : ℕ → Cells → Run (ℕ × Cells)
exec_reset_error instance_id m = ok (minus_one, m)

abbrev pub nof_power_sources : ℕ
nof_power_sources = 3

abbrev pub device_nof_resourceid : ℕ
device_nof_resourceid = 17

module _ (m : Cells) (d : DeviceState) where
  -- The loop from index `i` on, `left` rounds.
  unfoldable pub set_power_sources : ℕ → ℕ → ObjectConfig → Run ObjectConfig
  set_power_sources i zero config = ok config
  set_power_sources i (suc left) config = do
    (c1, _) ← object_set_int_value_instance_multiple config 6 0 i (d.power_sources i)
    (c2, _) ← object_set_int_value_instance_multiple c1 7 0 i (d.ps_voltage i)
    (c3, _) ← object_set_int_value_instance_multiple c2 8 0 i (d.ps_current i)
    set_power_sources (i + 1) left c3

  -- The calls up to the loop.
  unfoldable pub fill_strings : ObjectConfig → Run ObjectConfig
  fill_strings config = do
    (c0, _) ← object_add_resource_string m config (some "Manufacturer") 0 d.manufacturer
    (c1, _) ← object_add_resource_string m c0 (some "Model Number") 1 d.model_number
    (c2, _) ← object_add_resource_string m c1 (some "Serial Number") 2 d.serial_number
    (c3, _) ← object_add_resource_string m c2 (some "Firmware version") 3 d.firmware_version
    let c4 = (object_add_resource_exec c3 (some "Reboot") 4 (some exec_reboot)).0
    let c5 = (object_add_resource_exec c4 (some "Factory Reset") 5 (some exec_reset)).0
    let c6 = (object_add_resource_read c5 (some "Available Power Sources") 6 int).0
    let c7 = (object_add_resource_read c6 (some "Power Source Voltage") 7 int).0
    let c8 = (object_add_resource_read c7 (some "Power Source Current") 8 int).0
    ok c8

  -- The calls behind the loop.
  unfoldable pub fill_state : ObjectConfig → Run ObjectConfig
  fill_state config = do
    (c9, _) ← object_add_resource_int config (some "Battery Level") 9 d.battery_level
    (c10, _) ← object_add_resource_int c9 (some "Memory free") 10 d.memory_free
    (c11, _) ← object_add_resource_int c10 (some "Error Code") 11 d.error_code
    let c12 = (object_add_resource_exec c11 (some "Reset Error Code") 12 (some exec_reset_error)).0
    (c13, _) ← object_add_resource_int_rw c12 (some "Error Code") 13 d.cur_time
    (c14, _) ← object_add_resource_string_rw c13 (some "UTC Offset") 14 d.utc_offset 64
    (c15, _) ← object_add_resource_string_rw c14 (some "Timezone") 15 d.time_zone 64
    (c16, _) ←
        object_add_resource_string m c15 (some "Supported Binding and Modes") 16 d.supported_binding
    ok c16

  unfoldable pub new_object_device : Bool → Bool → Run (Option ObjectConfig)
  unfolding fill_strings set_power_sources fill_state
  new_object_device for_config for_table =
      elim (new_object_config for_config for_table device_nof_resourceid) [
        | none ↦ ok none
        | some config ↦ do
          strings ← fill_strings config
          powered ← set_power_sources 0 nof_power_sources strings
          filled ← fill_state powered
          ok (some filled)
      ]

  -- `now` is the time, `ad` the two readings of the converter, and `memory` the free memory.
  unfoldable pub device_state_update : ℕ → (ℕ → ℕ) → ℕ → Run Cells
  device_state_update now ad memory = do
    m0 ← store_word m d.cur_time now
    m1 ← store_word m0 (d.ps_voltage 0) 5000
    m2 ← store_word m1 (d.ps_current 0) 500
    m3 ← store_word m2 (d.ps_current 1) 500
    m4 ← store_word m3 (d.ps_voltage 1) (ad 0)
    m5 ← store_word m4 (d.ps_current 2) 500
    m6 ← store_word m5 (d.ps_voltage 2) (ad 1)
    m7 ← store_word m6 d.error_code 0
    m8 ← store_word m7 d.memory_free memory
    store_word m8 d.state_code 0

-- `prv_check_time_offset`, which is compiled only if TIME_OFFSET_CHAR is defined. A byte behind the
-- list is never asked for, since the length is tested first.
between : ℕ → ℕ → ℕ → Bool
between low high c = leb low c && leb c high

unfoldable pub check_time_offset : List ℕ → Bool
unfolding between
check_time_offset buffer =
    let at_index = λ (i : ℕ). get_or buffer i 0 in
    let minutes =
      λ (i : ℕ). between b'0' b'5' (at_index i) && between b'0' b'9' (at_index (i + 1)) in
    if not (length buffer == 3) && (not (length buffer == 5) && not (length buffer == 6))
    then false
    else if not (at_index 0 == b'-') && not (at_index 0 == b'+')
    then false
    else if not (
        if at_index 1 == b'0'
        then between b'0' b'9' (at_index 2)
        else if at_index 1 == b'1'
        then between b'0' b'2' (at_index 2)
        else false)
    then false
    else if length buffer == 3
    then true
    else if length buffer == 5
    then minutes 3
    else at_index 3 == b':' && minutes 4
