-- ===== src/Registration/Clients.antt =====
-- core/registration.c: the list of clients on the server.
use galileom2m.Prelude.{
  ℕ, suc, ◌≤◌, ◌≡◌, true, false, none, some, List, [], ◌∷◌, arith, ◌==◌, if◌then◌else◌, bytes_eq,
}
use galileom2m.Coap.{deleted, bad_request}
use galileom2m.Context.{Client, at, store}
use galileom2m.Context.Store.{Distinct, at_nil, at_cons, store_cons, store-Distinct}
use galileom2m.Context.Preserve.{Stable}
use galileom2m.LinkedList.{list_find, list_remove}
use galileom2m.LinkedList.Order.{
  list_find_nil, list_find_cons, Rises, RisesFrom, list_remove-Removed,
}
use galileom2m.Uri.{Uri, is_set_resource}
use galileom2m.Registration.{client_by_name, delete_registration}

abbrev pub key : Client → ℕ
key k = k.internal_id

-- A deregistration whose uri has no resource flag, which no registration uri has, removes the
-- client with the id of the uri, 0 if the uri names none: the status is 2.02 if there was one and
-- 4.00 otherwise, that id is unknown afterwards, and every other client stays.
pub delete_registration_removes :
    (clients : List Client) (uri : Uri)
    → Rises key clients
    → is_set_resource uri ≡ false
    → let after = delete_registration clients uri in
      Rises key after.0
      × (after.1
          ≡ (elim (list_find key clients uri.object_id) [ none ↦ bad_request | some k ↦ deleted ]))
      × ((j : ℕ)
          → list_find key after.0 j
            ≡ (if uri.object_id == j then none else list_find key clients j))
unfolding delete_registration
delete_registration_removes clients uri r h =
    let (rises, (node, rest)) = list_remove-Removed key clients uri.object_id r in
    (ground arith, ground arith, λ j. ground (arith, rest j))

pub delete_registration-list_remove :
    (clients : List Client) (uri : Uri)
    → is_set_resource uri ≡ false
    → (delete_registration clients uri).0 ≡ (list_remove key clients uri.object_id).0
unfolding delete_registration
delete_registration-list_remove clients uri h = ground arith

-- The invariant of the list of clients: ids rise strictly, and addresses differ.
pub record ClientsValid (clients : List Client) : Type 0 where
  pub rises : Rises key clients
  pub addresses : Distinct (λ k. k.self) clients

abbrev pub self_of : Client → ℕ
self_of k = k.self

pub at-ge :
    (n p : ℕ) (k : Client) (clients : List Client)
    → RisesFrom key n clients
    → at self_of p clients ≡ some k
    → n ≤ key k
at-ge n p k [] r e = ground (arith, at_nil self_of p)
at-ge n p k (x ∷ clients) r e =
    ground (arith, at_cons self_of p x clients, at-ge (suc (key x)) p k clients r.1)

module _ (k k' : Client) (same : key k' ≡ key k) where
  pub store-RisesFrom :
      (n : ℕ) (clients : List Client)
      → RisesFrom key n clients
      → at self_of k'.self clients ≡ some k
      → RisesFrom key n (store self_of k' clients)
  store-RisesFrom n [] r found = ground (arith, at_nil self_of k'.self)
  store-RisesFrom n (x ∷ clients) r found = ground (
    arith,
    at_cons self_of k'.self x clients,
    store_cons self_of k' x clients,
    store-RisesFrom (suc (key x)) clients r.1,
  )

  pub list_find-store :
      (n j : ℕ) (clients : List Client)
      → RisesFrom key n clients
      → at self_of k'.self clients ≡ some k
      → list_find key (store self_of k' clients) j
        ≡ (if key k' == j then some k' else list_find key clients j)
  list_find-store n j [] r found = ground (arith, at_nil self_of k'.self)
  list_find-store n j (x ∷ clients) r found = ground (
    arith,
    at_cons self_of k'.self x clients,
    store_cons self_of k' x clients,
    list_find_cons key x clients j,
    list_find_cons key k' clients j,
    list_find_cons key x (store self_of k' clients) j,
    at-ge (suc (key x)) k'.self k clients r.1,
    list_find-store (suc (key x)) j clients r.1,
  )

pub client_by_name-at :
    (clients : List Client) (name : List ℕ) (k : Client)
    → Distinct self_of clients
    → client_by_name clients name ≡ some k
    → (at self_of k.self clients ≡ some k) × (bytes_eq name k.name ≡ true)
unfolding client_by_name
client_by_name-at [] name k d e = cc
client_by_name-at (x ∷ clients) name k (fresh, d) e =
    ground (arith, at_cons self_of k.self x clients, client_by_name-at clients name k d)

pub list_find-at :
    (n : ℕ) (clients : List Client) (k : Client)
    → RisesFrom key n clients
    → at self_of k.self clients ≡ some k
    → list_find key clients (key k) ≡ some k
list_find-at n [] k r e = ground (arith, at_nil self_of k.self)
list_find-at n (x ∷ clients) k r e = ground (
  arith,
  at_cons self_of k.self x clients,
  list_find_cons key x clients (key k),
  at-ge (suc (key x)) k.self k clients r.1,
  list_find-at (suc (key x)) clients k r.1,
)

-- A client that is found by its id is found by its address.
pub at-list_find :
    (clients : List Client) (id : ℕ) (k : Client)
    → Distinct self_of clients
    → list_find key clients id ≡ some k
    → at self_of k.self clients ≡ some k
at-list_find [] id k d e = absurd (ground (arith, e, list_find_nil key id))
at-list_find (x ∷ clients) id k (fresh, d) e = ground (
  arith,
  list_find_cons key x clients id,
  at_cons self_of k.self x clients,
  at-list_find clients id k d,
)

-- Writing a client that is there, with its id, keeps the list valid.
pub ClientsValid-Stable : Stable ClientsValid
ClientsValid-Stable k k' clients found same_id same_self valid = record {
  rises = store-RisesFrom k k' same_id 0 clients valid.rises (rw same_self found);
  addresses = store-Distinct self_of k' clients valid.addresses;
}
