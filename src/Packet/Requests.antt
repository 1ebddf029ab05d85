-- ===== src/Packet/Requests.antt =====
-- core/packet.c, `handle_request`: which part of the engine a request goes to.
pub mod Total
use galileom2m.Prelude.{
  ℕ, bit_and, Bool, Option, none, some, List, [], ◌∷◌, ltb, ◌==◌, if◌then◌else◌,
}
use galileom2m.Coap.{Coap, no_error, bad_request, not_implemented}
use galileom2m.Context.{Run, ok, ◌>>=◌, Address, Client, Context}
use galileom2m.Uri.{Uri, decode_uri, mask_type, flag_dm, flag_registration, flag_bootstrap}
use galileom2m.Objects.{Object}
use galileom2m.Registration
use galileom2m.Registration.{Memory, handle_registration_request}
use galileom2m.Management.Requests.{Handled, bare, handle_dm_request}

-- What `malloc` returns on the way of a request: for the uri, for an observed entry, for its
-- watcher, and for a registration.
pub record RequestMemory : Type 0 where
  pub for_uri : Bool
  pub for_observed : Option ℕ
  pub for_watcher : Bool
  pub for_registration : Memory

module _ (coap : Coap) where
  open coap use {Packet}

  -- The location that a registration request is answered with.
  set_location : Packet → List ℕ → Packet
  set_location response [] = response
  set_location response (b ∷ location) = coap.set_location_path response (b ∷ location)

  registered :
      {S : Type 0} → Context Packet → S → Packet → List Client × ℕ × List ℕ → Handled Packet S
  unfolding set_location
  registered c s response (clients, status, location) =
      bare (record c { client_list = clients }) s status (set_location response location)

  -- The `switch` over the type of the uri.
  pub dispatch :
      {S : Type 0}
      → RequestMemory
      → List (Object S)
      → Context Packet
      → S
      → Uri
      → Address
      → Packet
      → Packet
      → Run (Handled Packet S)
  unfolding registered
  dispatch memory objects c s uri from message response =
      let type = bit_and uri.flag mask_type in
      if type == flag_dm
      then ok (
          handle_dm_request coap memory.for_observed memory.for_watcher objects c s uri from message
            response)
      else if type == flag_bootstrap
      then ok (bare c s not_implemented response)
      else if type == flag_registration
      then (do
        answer ←
            handle_registration_request memory.for_registration c.client_list uri from
              (coap.code message) (coap.uri_query message) (coap.payload message)
        ok (registered c s response answer))
      else ok (bare c s bad_request response)

  -- The status code of the response is set, and what is returned is the error, if it is one.
  with_status : {S : Type 0} → Handled Packet S → Handled Packet S
  with_status h = record h {
    status = if ltb h.status bad_request then no_error else h.status;
    response = coap.set_status h.response h.status;
  }

  pub handle_request :
      {S : Type 0}
      → RequestMemory
      → List (Object S)
      → Context Packet
      → S
      → Address
      → Packet
      → Packet
      → Run (Handled Packet S)
  unfolding with_status
  handle_request memory objects c s from message response =
      elim (decode_uri memory.for_uri (coap.uri_path message)) [
        | none ↦ ok (bare c s bad_request response)
        | some uri ↦ do
          handled ← dispatch memory objects c s uri from message response
          ok (with_status handled)
      ]
