-- ===== src/Registration/Enroll.antt =====
-- core/registration.c: what a registration request does to the list of clients.
use galileom2m.Prelude.{
  ℕ, ◌<◌, ◌≡◌, ◌≢◌, ◌⊎◌, inl, inr, refl, true, none, some, List, [], arith, ◌==◌, if◌then◌else◌,
  length, Option-cases,
}
use galileom2m.Coap.{created}
use galileom2m.Context.{ok, Client, ClientObject, Address, at, store}
use galileom2m.Context.Store.{store-Distinct}
use galileom2m.LinkedList.{list_add, list_find, list_new_id}
use galileom2m.LinkedList.Order.{list_add-Rises, list_find-list_add}
use galileom2m.LinkedList.NewId.{list_new_id-Lowest}
use galileom2m.LinkedList.Addresses.{at-list_add, list_add-Distinct}
use galileom2m.Registration.{
  Memory, client_by_name, new_client, enter_client, enroll, location_string,
}
use galileom2m.Registration.Clients.{
  key, self_of, ClientsValid, store-RisesFrom, list_find-store, client_by_name-at, list_find-at,
}

-- Where the registered client comes from: it was registered under that name, or its id is new.
abbrev pub Origin : List Client → List ℕ → Client → Type 0
Origin clients name k =
    ((old : Client) × (client_by_name clients name ≡ some old)
      × (key k ≡ key old)
      × (k.observation_list ≡ old.observation_list))
    ⊎ ((client_by_name clients name ≡ none)
        × (list_find key clients (key k) ≡ none)
        × (k.observation_list ≡ []))

-- The list after a registration of `k`.
pub record Enrolled (clients clients' : List Client) (name : List ℕ) (objects : List ClientObject)
    (from : Address) (k : Client) : Type 0 where
  pub valid : ClientsValid clients'
  pub found : list_find key clients' (key k) ≡ some k
  pub others : (j : ℕ) → j ≢ key k → list_find key clients' j ≡ list_find key clients j
  pub same_name : k.name ≡ name
  pub same_objects : k.object_list ≡ objects
  pub same_addr : k.addr ≡ from
  pub origin : Origin clients name k

new_client_fields :
    (address : ℕ) (clients : List Client)
    → (key (new_client address clients) ≡ list_new_id key clients)
      × ((new_client address clients).self ≡ address)
      × ((new_client address clients).observation_list ≡ [])
unfolding new_client
new_client_fields address clients = (refl, refl, refl)

-- The list in which the client of a registration stands before its data are written.
pub record Entered (clients clients' : List Client) (name : List ℕ) (k : Client) : Type 0 where
  valid : ClientsValid clients'
  stands : at self_of k.self clients' ≡ some k
  found :
      (j : ℕ) → list_find key clients' j ≡ (if key k == j then some k else list_find key clients j)
  origin : Origin clients name k

module _ (memory : Memory) (clients : List Client) (name : List ℕ) (valid : ClientsValid clients)
    (few : length clients < 65536) where
  pub enter_known :
      (old : Client)
      → client_by_name clients name ≡ some old
      → (enter_client memory clients name ≡ some (old, clients)) × Entered clients clients name old
  unfolding enter_client
  enter_known old known =
      let (stands, named) = client_by_name-at clients name old valid.addresses known in
      let by_id = list_find-at 0 clients old valid.rises stands in
      (
        rw (known, enter_client),
        record {
          valid = valid;
          stands = stands;
          found = λ j. ground arith;
          origin = inl (old, known, refl, refl);
        },
      )

  pub enter_new :
      (address : ℕ)
      → client_by_name clients name ≡ none
      → memory.for_client ≡ some address
      → at self_of address clients ≡ none
      → let k = new_client address clients in
        let clients' = list_add key clients k in
        (enter_client memory clients name ≡ some (k, clients')) × Entered clients clients' name k
  unfolding enter_client
  enter_new address unknown memory_for fresh =
      let k = new_client address clients in
      let (free, lower, small) = list_new_id-Lowest key clients valid.rises few in
      let (id_of, address_of, watched) = new_client_fields address clients in
      let free' : list_find key clients (key k) ≡ none = rw id_of free in
      let fresh' : at self_of k.self clients ≡ none = rw address_of fresh in
      (
        rw (unknown, memory_for, enter_client),
        record {
          valid = record {
            rises = list_add-Rises key clients k valid.rises free';
            addresses = list_add-Distinct key self_of clients k valid.addresses fresh';
          };
          stands = ground (arith, at-list_add key self_of clients k k.self fresh');
          found = λ j. list_find-list_add key clients k j valid.rises free';
          origin = inr (unknown, free', watched);
        },
      )

pub enroll_entered :
    (memory : Memory) (clients clients' : List Client) (name : List ℕ) (k : Client)
    (objects : List ClientObject) (from : Address)
    → enter_client memory clients name ≡ some (k, clients')
    → memory.for_addr ≡ true
    → let k' = record k { name = name; object_list = objects; addr = from } in
      enroll memory clients name objects from
      ≡ ok (store self_of k' clients', created, location_string k.internal_id)
unfolding enroll
enroll_entered memory clients clients' name k objects from e h = ground arith

pub Entered-Enrolled :
    (clients clients' : List Client) (name : List ℕ) (k : Client) (objects : List ClientObject)
    (from : Address)
    → Entered clients clients' name k
    → let k' = record k { name = name; object_list = objects; addr = from } in
      Enrolled clients (store self_of k' clients') name objects from k'
Entered-Enrolled clients clients' name k objects from e =
    let k' = record k { name = name; object_list = objects; addr = from } in
    let find = λ (j : ℕ). list_find-store k k' refl 0 j clients' e.valid.rises e.stands in
    record {
      valid = record {
        rises = store-RisesFrom k k' refl 0 clients' e.valid.rises e.stands;
        addresses = store-Distinct self_of k' clients' e.valid.addresses;
      };
      found = ground (arith, find (key k));
      others = λ j ne. ground (arith, find j, e.found j);
      same_name = refl;
      same_objects = refl;
      same_addr = refl;
      origin = e.origin;
    }

-- With memory for the address and, at an address not in use, for a client, a registration on a
-- valid list of fewer than 65536 clients succeeds with 2.01 and the location of the client's id. On
-- the new list, valid again, that id finds a client with the name, the objects and the address of
-- the request; it is the id, with the observations, of the client of that name if there was one,
-- and an id that was not in use otherwise; every other id finds what it found before.
pub enroll-Enrolled :
    (memory : Memory) (clients : List Client) (name : List ℕ) (objects : List ClientObject)
    (from : Address) (address : ℕ)
    → ClientsValid clients
    → length clients < 65536
    → memory.for_addr ≡ true
    → memory.for_client ≡ some address
    → at self_of address clients ≡ none
    → (clients' : List Client) × (k : Client) × (enroll memory clients name objects from
        ≡ ok (clients', created, location_string (key k)))
      × Enrolled clients clients' name objects from k
enroll-Enrolled memory clients name objects from address valid few for_addr for_client fresh =
    elim (Option-cases (client_by_name clients name)) [
      | inl unknown ↦
          let (entered, e) =
            enter_new memory clients name valid few address unknown for_client fresh in
          (
            _,
            _,
            enroll_entered memory clients _ name _ objects from entered for_addr,
            Entered-Enrolled clients _ name _ objects from e,
          )
      | inr (old, known) ↦
          let (entered, e) = enter_known memory clients name valid few old known in
          (
            _,
            _,
            enroll_entered memory clients _ name _ objects from entered for_addr,
            Entered-Enrolled clients _ name _ objects from e,
          )
    ]
