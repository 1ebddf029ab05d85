-- ===== src/Register/Examples.antt =====
-- A client with two servers that registers, on the sample CoAP library.
use galileom2m.Prelude.{ℕ, ◌+◌, ◌≡◌, ◌≢◌, refl, true, none, [], ◌∷◌, ◌++◌, All}
use galileom2m.Uri.Numbers.{decimal, decimal_fuel}
use galileom2m.Coap.Sample.{SamplePacket, limited_sample}
use galileom2m.Context.{ok, unknown, Server, Context, at}
use galileom2m.Context.Store.{Distinct}
use galileom2m.Objects.{
  Object, entries, object_entries, instance_entries, entry_text, write_entries,
  get_register_payload,
}
use galileom2m.Engine.{new_context}
use galileom2m.Registration.{query_template}
use galileom2m.Register.{register}
use galileom2m.Register.Farewell.{addresses}
use galileom2m.Register.Round.{granted, registration_message}
use galileom2m.Register.Sending.{all_asked, Pending, register-asks}

abbrev device : Object ℕ
device = record {
  obj_id = 3;
  instance_list = [];
  read_func = none;
  write_func = none;
  execute_func = none;
  create_func = none;
  delete_func = none;
  close_func = none;
}

abbrev server : ℕ → Server
server id = record {
  self = 100 + id;
  short_id = id;
  addr = id ∷ [];
  status = unknown;
  location = none;
  mid = 0;
}

abbrev unregistered : Context SamplePacket
unregistered = record (new_context (b'n' ∷ [])) {
  server_list = server 1 ∷ server 2 ∷ [];
  sent = [];
}

some_payload : get_register_payload (device ∷ []) 64 ≢ []
unfolding get_register_payload write_entries entries object_entries instance_entries entry_text
    decimal decimal_fuel
some_payload empty = cc empty

two_servers : Distinct (λ s. s.self) (server 1 ∷ server 2 ∷ [])
unfolding at
two_servers = (refl, (refl, tt))

-- The registration of a client with a name of one byte.
written :
    (mid : ℕ)
    → limited_sample.serialize (
        registration_message limited_sample mid
          (query_template ++ (b'n' ∷ []))
          (get_register_payload (device ∷ []) 64))
      ≢ []
written mid empty = cc empty

register-asks_example :
    (c' : Context SamplePacket) × (register limited_sample true
        (λ p. granted (1000 + p) 5)
        (device ∷ [])
        unregistered
      ≡ ok (c', 0))
    × (addresses c' ≡ all_asked (server 1 ∷ server 2 ∷ []) [])
    × All (Pending c'.server_list) (server 1 ∷ server 2 ∷ [])
unfolding new_context
register-asks_example =
    register-asks limited_sample (λ p. 1000 + p) (λ p. 5) (device ∷ []) unregistered some_payload
      written two_servers
