-- ===== src/Resources/Examples.antt =====
-- The theorems on the resources of the test client at concrete tables and requests.
use galileom2m.Prelude.{
  ℕ, ◌⊎◌, ◌+◌, ◌*◌, ◌≤◌, ◌↔◌, ◌≡◌, refl, true, false, Option, none, some, List, [], ◌∷◌, ◌++◌,
  arith, length, drop, ◌==◌, if◌then◌else◌,
}
use galileom2m.Coap.{content, changed}
use galileom2m.Context.{ok, fault}
use galileom2m.Uri.{Uri}
use galileom2m.PlainText.{int64_to_plain_text}
use galileom2m.Objects.{Object, find_object, object_read, object_write}
use galileom2m.Resources.{
  read, read_write, string, int, word, chars, Cells, update, load_word, store_word, Resource,
  ObjectConfig, value_at, find_id,
}
use galileom2m.Resources.Build.{object_set_string_value_instance_multiple, replicate, add_resource}
use galileom2m.Resources.Handlers.{ReadAnswers, on_read, on_write, on_execute, new_object}
use galileom2m.Resources.RoundTrip.{
  Targets, Exposes, kept, object_read-object_write_int, object_read-object_write_string,
}
use galileom2m.Resources.Beyond.{object_read-beyond, object_write-full}
use galileom2m.Resources.Entering.{HasRows, object_set_string_value_instance_multiple-fault}
use galileom2m.Resources.Table.{add_resource-Outcome, Outcome}
use galileom2m.Resources.Applications.{Application, applications_update}
use galileom2m.Resources.Applications.Life.{Apart}

-- An array of 100 pointers, of which the first is set.
abbrev pointers : ℕ → List ℕ
pointers p = p ∷ replicate 99 0

abbrev clock : Resource
clock = record {
  desc = some "Current Time";
  id = 13;
  access = read_write;
  type = int;
  exec_fnc = none;
  nof_values = 1;
  str_buff_sz = 0;
  values = pointers 100;
}

abbrev zone : Resource
zone = record {
  desc = some "Timezone";
  id = 15;
  access = read_write;
  type = string;
  exec_fnc = none;
  nof_values = 1;
  str_buff_sz = 3;
  values = pointers 200;
}

abbrev device : ObjectConfig
device = record { resources = clock ∷ zone ∷ []; nof_instances = 1 }

abbrev around : ReadAnswers
around = record { allocated = true; fresh = none; garbage = 0 }

-- The clock stands at address 100, and an array of `size` bytes at 200.
abbrev memory_of : ℕ → Cells
memory_of size p =
    if p == 100 then some (word 5) else if p == 200 then some (chars (replicate size 0)) else none

abbrev uri_of : ℕ → ℕ → Uri
uri_of i r = record { flag = 7; object_id = 3; instance_id = i; resource_id = r }

abbrev device_object : Object (Option Cells)
device_object = record {
  obj_id = 3;
  instance_list = [];
  read_func = some (on_read around device);
  write_func = some (on_write device);
  execute_func = some (on_execute device);
  create_func = none;
  delete_func = none;
  close_func = none;
}

exposes : (i r : ℕ) → Exposes (device_object ∷ []) (uri_of i r) around device
unfolding find_object new_object
exposes i r = record {
  object = device_object;
  listed = refl;
  made = refl;
  small_flag = omega arith;
}

Targets-clock : Targets int device (uri_of 0 13) clock 100
unfolding find_id value_at
Targets-clock = record {
  named = refl;
  found = refl;
  same_type = refl;
  both_ways = refl;
  single = refl;
  pointer = refl;
  not_null = omega arith;
}

Targets-zone : Targets string device (uri_of 0 15) zone 200
unfolding find_id value_at
Targets-zone = record {
  named = refl;
  found = refl;
  same_type = refl;
  both_ways = refl;
  single = refl;
  pointer = refl;
  not_null = omega arith;
}

clock_loads : load_word (memory_of 4) 100 ≡ ok 5
unfolding load_word
clock_loads = refl

object_read-object_write_int_example :
    let m' = update (memory_of 4) 100 (word 1234) in
    let text = int64_to_plain_text true 1234 in
    (object_write (device_object ∷ []) (uri_of 0 13) text (some (memory_of 4)) ≡ (changed, some m'))
    × (object_read (device_object ∷ []) (uri_of 0 13) (some m') ≡ (content, text, some m'))
object_read-object_write_int_example =
    object_read-object_write_int (exposes 0 13) refl Targets-clock (memory_of 4) 5 1234 clock_loads
      (omega arith)

-- "GMT", and a fourth byte that is cut off
abbrev zone_text : List ℕ
zone_text = b'G' ∷ b'M' ∷ b'T' ∷ b'+' ∷ []

object_read-object_write_string_example :
    let text = kept 3 zone_text in
    let m' =
      update (memory_of 4) 200 (chars (text ++ (0 ∷ drop (length text + 1) (replicate 4 0)))) in
    (object_write (device_object ∷ []) (uri_of 0 15) zone_text (some (memory_of 4))
      ≡ (changed, some m'))
    × (object_read (device_object ∷ []) (uri_of 0 15) (some m') ≡ (content, text, some m'))
object_read-object_write_string_example =
    object_read-object_write_string (exposes 0 15) refl Targets-zone (memory_of 4) zone_text
      (replicate 4 0) refl (omega arith) (omega arith)

zone_found : find_id (clock ∷ zone ∷ []) 15 ≡ some zone
unfolding find_id
zone_found = refl

object_read-beyond_example :
    object_read (device_object ∷ []) (uri_of 10 15) (some (memory_of 4)) ≡ (0, [], none)
object_read-beyond_example =
    object_read-beyond (exposes 10 15) refl zone_found refl (memory_of 4) refl (λ e. cc)
      (omega arith)

-- An array of three bytes for a string size of three.
object_write-full_example :
    object_write (device_object ∷ []) (uri_of 0 15) zone_text (some (memory_of 3)) ≡ (0, none)
object_write-full_example =
    object_write-full (exposes 0 15) Targets-zone (memory_of 3) zone_text (replicate 3 0) refl refl
      (omega arith) (omega arith)

add_resource-Outcome_example :
    Outcome device 7
      (some "Voltage")
      int
      read
      none
      (add_resource device 7 (some "Voltage") int read none)
add_resource-Outcome_example = add_resource-Outcome device 7 (some "Voltage") int read none

-- Twenty applications, in blocks of 100 addresses.
abbrev layout : ℕ → Application
layout i = record {
  name = i * 100 + 1;
  args = i * 100 + 2;
  version = i * 100 + 3;
  url = i * 100 + 4;
  state = i * 100 + 5;
  error = i * 100 + 6;
  pid = i * 100 + 7;
}

apart : Apart layout
apart = record { from_state = λ i j e. omega arith; from_error = λ i j e. omega arith }

-- Application 3 ran as process 42 and is dead; the others are idle.
abbrev crashed : Cells
crashed p = some (word (if p == 305 then 3 else if p == 307 then 42 else 0))

abbrev noted : Cells
noted = update (update crashed 305 (word 4)) 306 (word 6)

dead_found : applications_update (λ pid. false) layout crashed ≡ ok noted
unfolding applications_update load_word store_word
dead_found = refl

zone_rows : HasRows device 15
unfolding find_id
zone_rows = record { resource = zone; found = refl; strings = refl; rows = refl }

object_set_string_value_instance_multiple-fault_example :
    (object_set_string_value_instance_multiple device 15 9 10 300 ≡ fault)
    ↔ (((◌≡◌ {A = ℕ} 9 10) × (10 ≤ 10)) ⊎ ((◌≡◌ {A = ℕ} 9 9) × (◌≡◌ {A = ℕ} 10 10)))
object_set_string_value_instance_multiple-fault_example =
    object_set_string_value_instance_multiple-fault device 15 9 10 300 zone_rows (omega arith)
      (omega arith)
