-- ===== src/Registration/Handler.antt =====
-- core/registration.c, `handle_registration_request`: it returns, and keeps the list of clients valid.
use galileom2m.Prelude.{
  ℕ, ◌<◌, ◌≡◌, refl, true, none, some, List, [], ◌∷◌, arith, ◌==◌, length, Option-cases, inl, inr,
  not, if-elim, Option-elim, bit_and,
}
use galileom2m.Coap.{
  bad_request, internal_server_error, not_implemented, coap_post, coap_put, coap_delete,
}
use galileom2m.Context.{Run, ok, Client, ClientObject, Address, at}
use galileom2m.LinkedList.{list_remove}
use galileom2m.LinkedList.Order.{list_remove-Removed}
use galileom2m.LinkedList.Addresses.{list_remove-Distinct}
use galileom2m.Uri.{Uri}
use galileom2m.Registration.{
  Memory, client_by_name, enter_client, enroll, post_registration, delete_registration,
  handle_registration_request, get_parameters, decode_register_payload,
}
use galileom2m.Registration.Clients.{key, self_of, ClientsValid}
use galileom2m.Registration.Enroll.{
  Entered, enter_known, enter_new, enroll_entered, Entered-Enrolled,
}

-- What `malloc` returns for a client is not in use.
abbrev pub Fresh : Memory → List Client → Type 0
Fresh memory clients = (a : ℕ) → memory.for_client ≡ some a → at self_of a clients ≡ none

-- A run that returns, with a valid list of clients.
abbrev pub Keeps : Run (List Client × ℕ × List ℕ) → Type 0
Keeps run = (answer : List Client × ℕ × List ℕ) × (run ≡ ok answer) × ClientsValid answer.0

module _ (memory : Memory) (clients : List Client) (valid : ClientsValid clients)
    (few : length clients < 65536) (for_addr : memory.for_addr ≡ true)
    (fresh : Fresh memory clients) where
  module _ (name : List ℕ) (objects : List ClientObject) (from : Address) where
    placed-Keeps :
        (clients' : List Client) (k : Client)
        → enter_client memory clients name ≡ some (k, clients')
        → Entered clients clients' name k
        → Keeps (enroll memory clients name objects from)
    placed-Keeps clients' k entered e = (
      _,
      enroll_entered memory clients clients' name k objects from entered for_addr,
      (Entered-Enrolled clients clients' name k objects from e).valid,
    )

    unplaced-Keeps :
        enter_client memory clients name ≡ none → Keeps (enroll memory clients name objects from)
    unfolding enroll
    unplaced-Keeps e = ((clients, internal_server_error, []), ground arith, valid)

    enroll-Keeps : Keeps (enroll memory clients name objects from)
    unfolding enter_client
    enroll-Keeps = elim (Option-cases (client_by_name clients name)) [
      | inl unknown ↦ elim (Option-cases memory.for_client) [
        | inl no_memory ↦ unplaced-Keeps (ground arith)
        | inr (address, e) ↦
            (let (entered, r) =
                enter_new memory clients name valid few address unknown e (fresh address e) in
              placed-Keeps _ _ entered r)
      ]
      | inr (old, known) ↦
          (let (entered, r) = enter_known memory clients name valid few old known in
            placed-Keeps _ _ entered r)
    ]

  -- A request without objects is refused, and the others register.
  from_objects-Keeps :
      (name : List ℕ) (from : Address) (objects : List ClientObject)
      → Keeps (elim objects [
        | [] ↦ ok (clients, bad_request, [])
        | o ∷ os ↦ enroll memory clients name (o ∷ os) from
      ])
  from_objects-Keeps name from [] = ((clients, bad_request, []), refl, valid)
  from_objects-Keeps name from (o ∷ os) = enroll-Keeps name (o ∷ os) from

  delete_registration-Valid : (uri : Uri) → ClientsValid (delete_registration clients uri).0
  unfolding delete_registration
  delete_registration-Valid uri =
      let (rises, removed) = list_remove-Removed key clients uri.object_id valid.rises in
      let distinct = list_remove-Distinct key self_of clients uri.object_id valid.addresses in
      let valid' : ClientsValid (list_remove key clients uri.object_id).0 = record {
        rises = rises;
        addresses = distinct;
      } in
      if-elim (not (bit_and uri.flag 1 == 0)) (λ (a : List Client × ℕ × List ℕ). ClientsValid a.0)
        valid
        (Option-elim (list_remove key clients uri.object_id).1
          (λ (a : List Client × ℕ × List ℕ). ClientsValid a.0) valid' (λ k. valid'))

  pub handle_registration_request-Keeps :
      (uri : Uri) (from : Address) (code : ℕ) (query : List (List ℕ)) (payload : List ℕ)
      → Keeps (handle_registration_request memory clients uri from code query payload)
  unfolding handle_registration_request post_registration
  handle_registration_request-Keeps uri from code query payload =
      let kept : (status : ℕ) → Keeps (ok (clients, status, [])) =
        λ status. ((clients, status, []), refl, valid) in
      if-elim (code == coap_post) Keeps
        (if-elim (not (bit_and uri.flag 1 == 0)) Keeps (kept bad_request) (
          Option-elim (get_parameters memory.for_name query) Keeps (kept bad_request)
            (λ name. from_objects-Keeps name from (decode_register_payload payload))))
        (if-elim (code == coap_put) Keeps (kept not_implemented) (
          if-elim (code == coap_delete) Keeps
            (delete_registration clients uri, refl, delete_registration-Valid uri)
            (kept bad_request)))
