-- ===== src/Registration.antt =====
-- core/registration.c: the registration interface on the server, `handle_registration_request` and
-- what it calls. Names hold no NUL, so `strcmp` compares all their bytes. A 16-bit index cannot wrap
-- on a payload of a message.
pub mod Clients
pub mod Enroll
pub mod Handler
pub mod Payload
mod Examples
use galileom2m.Prelude.{
  ℕ, zero, suc, ◌+◌, ◌-◌, ◌^◌, ◌%◌, bit_and, Bool, true, false, Option, none, some, List, [], ◌∷◌,
  ◌++◌, ltb, leb, ◌==◌, ◌&&◌, ◌||◌, not, if◌then◌else◌, length, take, drop, bytes_eq, is_some,
}
use galileom2m.Coap.{
  Coap, MessageType, created, deleted, bad_request, not_implemented, internal_server_error,
  coap_post, coap_put, coap_delete,
}
use galileom2m.Context.{
  Run, ok, fault, ◌>>=◌, Status, unknown, reg_pending, registered, Server, Client, ClientObject,
  Context, Transaction, Callback, endpoint_server, store, Address,
}
use galileom2m.LinkedList.{list_add, list_find, list_remove, list_new_id}
use galileom2m.Uri.{Uri, max_id, mask_id, flag_object_id, get_number, out_of_range}
use galileom2m.Uri.Numbers.{decimal}
use galileom2m.Transaction.{transaction_new, transaction_send, buffer_send}

-- "ep="
abbrev pub query_template : List ℕ
query_template = b'e' ∷ b'p' ∷ b'=' ∷ []

-- The name of the first query segment that has the template and more; `none` is NULL, also when
-- `malloc` has no memory for it.
pub get_parameters : Bool → List (List ℕ) → Option (List ℕ)
get_parameters allocated [] = none
get_parameters allocated (segment ∷ query) =
    let rest = get_parameters allocated query in
    if ltb 3 (length segment) && bytes_eq (take 3 segment) query_template
    then (if allocated then some (drop 3 segment) else none)
    else rest

-- The bytes before the first one that passes the test, and those from it on.
pub split_at : (ℕ → Bool) → List ℕ → List ℕ × List ℕ
split_at stop [] = ([], [])
split_at stop (b ∷ bytes) =
    let (front, back) = split_at stop bytes in if stop b then ([], b ∷ bytes) else (b ∷ front, back)

-- `*objId` and, for the result 2, `*instanceId`; `none` is the result 0.
pub record PayloadId : Type 0 where
  pub id : ℕ
  pub instance_id : Option ℕ

-- An instance that cannot be read is left out.
pub read_instance : List ℕ → Option ℕ
read_instance [] = none
read_instance (b ∷ bytes) =
    let value = get_number (b ∷ bytes) in
    if out_of_range value (max_id - 1) then none else some (value % 2 ^ 16)

pub get_id : List ℕ → Option PayloadId
unfolding split_at read_instance
get_id bytes =
    let (number, rest) = split_at (λ b. b == b'/' || b == b' ') bytes in
    let value = get_number number in
    if out_of_range value (max_id - 1) then none else elim rest [
      | [] ↦ some (record { id = value % 2 ^ 16; instance_id = none })
      | b ∷ bytes' ↦ some (record {
        id = value % 2 ^ 16;
        instance_id = read_instance (split_at (λ b. b == b' ') bytes').0;
      })
    ]

-- The list of instances with `instance` in it, added if it is not there yet.
pub add_instance : Option ℕ → List ℕ → List ℕ
add_instance none instances = instances
add_instance (some i) instances =
    if is_some (list_find (λ (n : ℕ). n) instances i)
    then instances
    else list_add (λ (n : ℕ). n) instances i

pub put_object : ClientObject → List ClientObject → List ClientObject
put_object new [] = []
put_object new (o ∷ os) = if o.id == new.id then new ∷ os else o ∷ put_object new os

-- What a readable entry does to the list of objects. `malloc` is taken to succeed here: its result
-- is written to before it is tested.
pub add_id : PayloadId → List ClientObject → List ClientObject
unfolding add_instance put_object
add_id p objects = elim (list_find (λ o. o.id) objects p.id) [
  | some o ↦
      put_object (record o { instance_list = add_instance p.instance_id o.instance_list }) objects
  | none ↦
      list_add (λ o. o.id) objects
        (record { id = p.id; instance_list = add_instance p.instance_id [] })
]

-- The loop of `prv_decodeRegisterPayload`; each round takes a byte at least, or ends it.
pub decode_loop : ℕ → List ℕ → List ClientObject → List ClientObject
decode_loop zero payload objects = objects
decode_loop (suc fuel) payload objects = elim (split_at (λ b. not (b == b' ')) payload).1 [
  | [] ↦ objects
  | b ∷ bytes ↦
      (let (entry, rest) = split_at (λ b. b == b',') (b ∷ bytes) in
        decode_loop fuel (drop 1 rest)
          (elim (get_id entry) [ none ↦ objects | some p ↦ add_id p objects ]))
]

pub decode_register_payload : List ℕ → List ClientObject
decode_register_payload payload = decode_loop (length payload) payload []

pub client_by_name : List Client → List ℕ → Option Client
client_by_name [] name = none
client_by_name (k ∷ clients) name =
    if bytes_eq name k.name then some k else client_by_name clients name

-- "/rd/" and the id: at most 9 characters, so `snprintf` has room in its 10 bytes.
pub location_string : ℕ → List ℕ
location_string id = b'/' ∷ b'r' ∷ b'd' ∷ b'/' ∷ decimal id

-- A comparison as an `int`.
abbrev int_of : Bool → ℕ
int_of true = 1
int_of false = 0

-- What `malloc` returns on the way of a registration: the name, the client, the address.
pub record Memory : Type 0 where
  pub for_name : Bool
  pub for_client : Option ℕ
  pub for_addr : Bool

-- The zeroed client with the next free id.
pub new_client : ℕ → List Client → Client
new_client address clients = record {
  self = address;
  internal_id = list_new_id (λ k. k.internal_id) clients;
  name = [];
  addr = [];
  object_list = [];
  observation_list = [];
}

-- The client of a registration with the list that it stands in: the one of that name, or a new one.
pub enter_client : Memory → List Client → List ℕ → Option (Client × List Client)
enter_client memory clients name = elim (client_by_name clients name) [
  | some k ↦ some (k, clients)
  | none ↦ elim memory.for_client [
    | none ↦ none
    | some address ↦
        (let k = new_client address clients in some (k, list_add (λ k. k.internal_id) clients k))
  ]
]

-- A new registration, or one again, of `name` with these objects; the new list and the status with
-- the location. If there is no memory for the address, the code frees the client, which stays in the
-- list, and answers 5.00: every later search reads it, and the run is a fault from here on.
pub enroll :
    Memory → List Client → List ℕ → List ClientObject → Address → Run (List Client × ℕ × List ℕ)
unfolding enter_client
enroll memory clients name objects from = elim (enter_client memory clients name) [
  | none ↦ ok (clients, internal_server_error, [])
  | some (k, clients') ↦
      if memory.for_addr
      then ok (
        store (λ k. k.self) (record k { name = name; object_list = objects; addr = from }) clients',
        created,
        location_string k.internal_id,
      )
      else fault
]

post_registration :
    Memory → List Client → Uri → Address → List (List ℕ) → List ℕ → Run (List Client × ℕ × List ℕ)
post_registration memory clients uri from query payload =
    if not (bit_and uri.flag (int_of (not (mask_id == 0))) == 0)
    then ok (clients, bad_request, [])
    else elim (get_parameters memory.for_name query) [
      | none ↦ ok (clients, bad_request, [])
      | some name ↦ elim (decode_register_payload payload) [
        | [] ↦ ok (clients, bad_request, [])
        | o ∷ objects ↦ enroll memory clients name (o ∷ objects) from
      ]
    ]

pub delete_registration : List Client → Uri → List Client × ℕ × List ℕ
delete_registration clients uri =
    if not (bit_and uri.flag (int_of (not (mask_id == flag_object_id))) == 0)
    then (clients, bad_request, [])
    else (let (rest, node) = list_remove (λ k. k.internal_id) clients uri.object_id in
        elim node [ none ↦ (rest, bad_request, []) | some k ↦ (rest, deleted, []) ])

-- The list of clients, the status, and the location that is set in the response.
pub handle_registration_request :
    Memory
    → List Client
    → Uri
    → Address
    → ℕ
    → List (List ℕ)
    → List ℕ
    → Run (List Client × ℕ × List ℕ)
handle_registration_request memory clients uri from code query payload =
    if code == coap_post
    then post_registration memory clients uri from query payload
    else if code == coap_put
    then ok (clients, not_implemented, [])
    else if code == coap_delete
    then ok (delete_registration clients uri)
    else ok (clients, bad_request, [])
