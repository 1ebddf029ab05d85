-- ===== src/Objects/Examples.antt =====
-- Requests to an object whose callbacks count and answer 2.04.
use galileom2m.Prelude.{ℕ, suc, ◌≡◌, none, some, [], ◌∷◌, arith, if◌then◌else◌}
use galileom2m.Coap.{bad_request, not_found, method_not_allowed, changed}
use galileom2m.Uri.{Uri, is_set_resource}
use galileom2m.Objects.{Object, find_object, object_write, object_create_execute}
use galileom2m.Objects.Dispatch.{reach, object_write_reaches, object_create_execute_reaches}

abbrev counting : Object ℕ
counting = record {
  obj_id = 3;
  instance_list = [];
  read_func = none;
  write_func = some (λ uri buffer s. (changed, suc s));
  execute_func = some (λ uri buffer s. (changed, suc s));
  create_func = some (λ uri buffer s. (changed, suc s));
  delete_func = some (λ id s. (changed, suc s));
  close_func = none;
}

-- The uri /3.
abbrev object_uri : Uri
object_uri = record { flag = 4; object_id = 3; instance_id = 0; resource_id = 0 }

object_write_reaches_example :
    object_write (counting ∷ []) object_uri (1 ∷ []) 0
    ≡ reach
        (counting ∷ [])
        object_uri
        0
        (omega arith)
        (λ o. o.write_func)
        (λ write. write object_uri (1 ∷ []) 0)
object_write_reaches_example =
    object_write_reaches (counting ∷ []) object_uri 0 (omega arith) (1 ∷ [])

object_create_execute_reaches_example :
    object_create_execute (counting ∷ []) object_uri (1 ∷ []) 0
    ≡ (elim (find_object (counting ∷ []) 3) [
      | none ↦ (not_found, 0)
      | some o ↦
          if is_set_resource object_uri
          then elim o.execute_func [
            | none ↦ (method_not_allowed, 0)
            | some run ↦ run object_uri (1 ∷ []) 0
          ]
          else (bad_request, 0)
    ])
object_create_execute_reaches_example =
    object_create_execute_reaches (counting ∷ []) object_uri 0 (omega arith) (1 ∷ [])
