-- ===== src/Registration/Examples.antt =====
-- Registration and deregistration of core/registration.c.
use galileom2m.Prelude.{
  ℕ, ◌≡◌, refl, true, false, none, some, List, [], ◌∷◌, arith, ◌==◌, if◌then◌else◌,
}
use galileom2m.Coap.{created, deleted, bad_request}
use galileom2m.Context.{ok, Client, at}
use galileom2m.LinkedList.{list_find}
use galileom2m.LinkedList.Order.{Rises}
use galileom2m.Uri.{Uri, is_set_resource}
use galileom2m.Registration.{Memory, enroll, location_string, delete_registration}
use galileom2m.Registration.Clients.{key, self_of, ClientsValid, delete_registration_removes}
use galileom2m.Registration.Enroll.{Enrolled, enroll-Enrolled}

abbrev client : ℕ → ℕ → Client
client self id = record {
  self = self;
  internal_id = id;
  name = id ∷ [];
  addr = 10 ∷ [];
  object_list = [];
  observation_list = [];
}

abbrev clients : List Client
clients = client 50 0 ∷ client 60 1 ∷ []

clients-Valid : ClientsValid clients
unfolding at
clients-Valid = record { rises = (omega arith, (omega arith, tt)); addresses = (refl, (refl, tt)) }

-- The uri of DELETE /rd, which names no client.
abbrev rd : Uri
rd = record { flag = 0x20; object_id = 0; instance_id = 0; resource_id = 0 }

rd_has_no_resource : is_set_resource rd ≡ false
rd_has_no_resource = refl

delete_registration_removes_example :
    let after = delete_registration clients rd in
    Rises key after.0
    × (after.1 ≡ (elim (list_find key clients 0) [ none ↦ bad_request | some k ↦ deleted ]))
    × ((j : ℕ) → list_find key after.0 j ≡ (if 0 == j then none else list_find key clients j))
delete_registration_removes_example =
    delete_registration_removes clients rd clients-Valid.rises rd_has_no_resource

abbrev memory : Memory
memory = record { for_name = true; for_client = some 70; for_addr = true }

unused : at self_of 70 clients ≡ none
unfolding at
unused = refl

enroll-Enrolled_example :
    (clients' : List Client) × (k : Client) × (enroll memory clients (b'n' ∷ []) [] (11 ∷ [])
      ≡ ok (clients', created, location_string (key k)))
    × Enrolled clients clients' (b'n' ∷ []) [] (11 ∷ []) k
enroll-Enrolled_example =
    enroll-Enrolled memory clients (b'n' ∷ []) [] (11 ∷ []) 70 clients-Valid (omega arith) refl refl
      unused
