-- ===== src/Resources/Handlers.antt =====
-- tests/client/object.c: the callbacks of an object that is built from a table of resources.
use galileom2m.Prelude.{
  ℕ, Bool, false, Option, none, some, List, [], ◌==◌, not, if◌then◌else◌, length, take,
}
use galileom2m.Coap.{
  content, changed, bad_request, not_found, method_not_allowed, internal_server_error,
  not_implemented,
}
use galileom2m.Context.{Run, ok, fault, ◌>>=◌}
use galileom2m.Uri.{Uri, is_set_instance, is_set_resource}
use galileom2m.Tlv.{written, refused, overrun, multiple_instance, opaque_to_tlv}
use galileom2m.PlainText.{plain_text_to_int64, int64_to_plain_text}
use galileom2m.Objects.{Object}
use galileom2m.Resources.{
  read_write, exec, string, int, Cells, load_word, store_word, load_string, store_string, Resource,
  ObjectConfig, int_gt, value_at, find_id,
}
use galileom2m.Resources.Dump.{instance_tlvs, get_object_tlv}

-- What the system and the stack hand out on the way: whether there is memory for the text or the
-- records of a resource, the memory for the records of an object, and the value of an `int` that is
-- not initialised.
pub record ReadAnswers : Type 0 where
  pub allocated : Bool
  pub fresh : Option (List ℕ)
  pub garbage : ℕ

-- The instance of the uri, or 0 if it has none.
abbrev pub instance_of : Uri → ℕ
instance_of uri = if is_set_instance uri then uri.instance_id else 0

-- 2.05 with the bytes, or 5.00 where the length is 0.
abbrev read_status : List ℕ → ℕ × List ℕ
read_status bytes = (if length bytes == 0 then internal_server_error else content, bytes)

unfoldable pub read_string : ReadAnswers → Cells → Resource → ℕ → Run (ℕ × List ℕ)
read_string around m resource instance_id =
    if resource.nof_values == 1
    then (do
      value ← value_at resource instance_id 0
      text ← load_string m value
      ok (if around.allocated then (content, text) else (internal_server_error, [])))
    else ok (not_implemented, [])

unfoldable pub read_values : ReadAnswers → Cells → Resource → ℕ → Run (ℕ × List ℕ)
read_values around m resource instance_id = do
  records ← instance_tlvs m resource instance_id false 0 resource.nof_values []
  elim records [
    | none ↦ ok (internal_server_error, [])
    | some buffer ↦ elim (opaque_to_tlv multiple_instance buffer resource.id 64) [
      | refused ↦ ok (internal_server_error, [])
      | overrun ↦ fault
      | written bytes ↦
          ok (if around.allocated then (content, bytes) else (internal_server_error, []))
    ]
  ]

unfoldable pub read_int : ReadAnswers → Cells → Resource → ℕ → Run (ℕ × List ℕ)
unfolding read_values
read_int around m resource instance_id =
    if resource.nof_values == 1
    then (do
      value ← value_at resource instance_id 0
      if value == 0 then ok (internal_server_error, []) else (do
        w ← load_word m value
        ok (read_status (int64_to_plain_text around.allocated w))))
    else read_values around m resource instance_id

-- The resource is looked up before the uri is asked whether it names one.
unfoldable pub resource_read : ReadAnswers → ObjectConfig → Cells → Uri → Run (ℕ × List ℕ)
unfolding read_string read_int get_object_tlv
resource_read around config m uri = elim (find_id config.resources uri.resource_id) [
  | none ↦ ok (not_found, [])
  | some resource ↦
      if not (is_set_resource uri)
      then (do
        bytes ← get_object_tlv around.fresh around.garbage m config.resources
        ok (read_status bytes))
      else elim resource.access [
        | exec ↦ ok (method_not_allowed, [])
        | _ ↦ elim resource.type [
          | string ↦ read_string around m resource (instance_of uri)
          | int ↦ read_int around m resource (instance_of uri)
        ]
      ]
]

-- At most `str_buff_sz` of the bytes are copied.
unfoldable pub write_string : Cells → Resource → ℕ → List ℕ → Run (ℕ × Cells)
write_string m resource instance_id buffer =
    if resource.nof_values == 1
    then (do
      value ← value_at resource instance_id 0
      m' ← store_string m value (
          take
            (if int_gt (length buffer) resource.str_buff_sz
              then resource.str_buff_sz
              else length buffer)
            buffer)
      ok (changed, m'))
    else ok (not_implemented, m)

unfoldable pub write_int : Cells → Resource → ℕ → List ℕ → Run (ℕ × Cells)
write_int m resource instance_id buffer =
    if resource.nof_values == 1
    then (do
      value ← value_at resource instance_id 0
      if value == 0 then ok (bad_request, m) else elim (plain_text_to_int64 buffer) [
        | none ↦ ok (bad_request, m)
        | some w ↦ do m' ← store_word m value w; ok (changed, m')
      ])
    else ok (bad_request, m)

unfoldable pub resource_write : ObjectConfig → Cells → Uri → List ℕ → Run (ℕ × Cells)
unfolding write_string write_int
resource_write config m uri buffer =
    if not (is_set_resource uri)
    then ok (not_implemented, m)
    else elim (find_id config.resources uri.resource_id) [
      | none ↦ ok (not_found, m)
      | some resource ↦ elim resource.access [
        | read_write ↦ elim resource.type [
          | string ↦ write_string m resource (instance_of uri) buffer
          | int ↦ write_int m resource (instance_of uri) buffer
        ]
        | _ ↦ ok (method_not_allowed, m)
      ]
    ]

unfoldable pub resource_execute : ObjectConfig → Cells → Uri → List ℕ → Run (ℕ × Cells)
resource_execute config m uri buffer =
    if not (length buffer == 0)
    then ok (bad_request, m)
    else if not (is_set_resource uri)
    then ok (not_implemented, m)
    else elim (find_id config.resources uri.resource_id) [
      | none ↦ ok (not_found, m)
      | some resource ↦ elim resource.access [
        | exec ↦ elim resource.exec_fnc [
          | none ↦ ok (changed, m)
          | some run ↦ do
            (failed, m') ← run (instance_of uri) m
            ok (if failed == 0 then changed else bad_request, m')
        ]
        | _ ↦ ok (method_not_allowed, m)
      ]
    ]

-- The state that the callbacks act on: the memory, or `none` once the program has crashed.
abbrev after_read : Cells → Run (ℕ × List ℕ) → ℕ × List ℕ × Option Cells
after_read m fault = (0, [], none)
after_read m (ok (status, bytes)) = (status, bytes, some m)

abbrev after_write : Run (ℕ × Cells) → ℕ × Option Cells
after_write fault = (0, none)
after_write (ok (status, m)) = (status, some m)

unfoldable pub on_read : ReadAnswers → ObjectConfig → Uri → Option Cells → ℕ × List ℕ × Option Cells
on_read around config uri none = (0, [], none)
on_read around config uri (some m) = after_read m (resource_read around config m uri)

unfoldable pub on_write : ObjectConfig → Uri → List ℕ → Option Cells → ℕ × Option Cells
on_write config uri buffer none = (0, none)
on_write config uri buffer (some m) = after_write (resource_write config m uri buffer)

unfoldable pub on_execute : ObjectConfig → Uri → List ℕ → Option Cells → ℕ × Option Cells
on_execute config uri buffer none = (0, none)
on_execute config uri buffer (some m) = after_write (resource_execute config m uri buffer)

unfoldable pub new_object : Bool → ReadAnswers → ℕ → ObjectConfig → Option (Object (Option Cells))
unfolding on_read on_write on_execute
new_object for_object around obj_id config =
    if for_object
    then some (record {
      obj_id = obj_id;
      instance_list = [];
      read_func = some (on_read around config);
      write_func = some (on_write config);
      execute_func = some (on_execute config);
      create_func = none;
      delete_func = none;
      close_func = none;
    })
    else none
