-- ===== src/Management/Requests.antt =====
-- core/management.c, `handle_dm_request`: what a client does with the requests of its servers.
pub mod Frame
use galileom2m.Prelude.{ℕ, Bool, Option, none, some, List, [], ◌∷◌, ◌==◌, if◌then◌else◌}
use galileom2m.Coap.{Coap, content, bad_request, coap_get, coap_post, coap_put, coap_delete}
use galileom2m.Context.{Address, Context}
use galileom2m.Uri.{Uri}
use galileom2m.Objects.{Object, object_read, object_write, object_create_execute, object_delete}
use galileom2m.Observe.{handle_observe_request}

-- What the payload pointer of a response points at: the bytes that `malloc` or the application
-- allocated, bytes in the middle of those, or a string literal.
pub data Pointer : Type 0 where
  null start inside literal : Pointer

-- A buffer that a callback set, NULL if it set none.
abbrev pub pointer_to : List ℕ → Pointer
pointer_to [] = null
pointer_to (b ∷ bytes) = start

-- What the handling of a request leaves behind: the context, the application's state, the status,
-- the response and its payload pointer.
pub record Handled (Packet S : Type 0) : Type 0 where
  pub context : Context Packet
  pub state : S
  pub status : ℕ
  pub response : Packet
  pub pointer : Pointer

-- A response whose payload is not set.
abbrev pub bare : {Packet S : Type 0} → Context Packet → S → ℕ → Packet → Handled Packet S
bare c s status response = record {
  context = c;
  state = s;
  status = status;
  response = response;
  pointer = null;
}

module _ (coap : Coap) where
  open coap use {Packet}

  -- The payload is set if the status is still 2.05 after the observe option.
  answer_read : {S : Type 0} → Context Packet × ℕ × Packet → List ℕ → S → Handled Packet S
  answer_read (c, status, response) bytes s =
      if status == content
      then record (bare c s status (coap.set_payload response bytes)) { pointer = pointer_to bytes }
      else bare c s status response

  observe_if_asked :
      Option ℕ
      → Bool
      → Context Packet
      → Uri
      → Address
      → Packet
      → Packet
      → Context Packet × ℕ × Packet
  observe_if_asked address allocated c uri from message response = elim (coap.observe message) [
    | none ↦ (c, content, response)
    | some n ↦ handle_observe_request coap address allocated c uri from message response
  ]

  -- `address` and `allocated` are what `malloc` returns on the way of an observe request.
  pub handle_read :
      {S : Type 0}
      → Option ℕ
      → Bool
      → List (Object S)
      → Context Packet
      → S
      → Uri
      → Address
      → Packet
      → Packet
      → Handled Packet S
  unfolding answer_read observe_if_asked
  handle_read address allocated objects c s uri from message response =
      let (status, bytes, s') = object_read objects uri s in
      if status == content
      then answer_read (observe_if_asked address allocated c uri from message response) bytes s'
      else bare c s' status response

  abbrev settled : {S : Type 0} → Context Packet → Packet → ℕ × S → Handled Packet S
  settled c response (status, s) = bare c s status response

  pub handle_dm_request :
      {S : Type 0}
      → Option ℕ
      → Bool
      → List (Object S)
      → Context Packet
      → S
      → Uri
      → Address
      → Packet
      → Packet
      → Handled Packet S
  handle_dm_request address allocated objects c s uri from message response =
      if coap.code message == coap_get
      then handle_read address allocated objects c s uri from message response
      else if coap.code message == coap_post
      then settled c response (object_create_execute objects uri (coap.payload message) s)
      else if coap.code message == coap_put
      then settled c response (object_write objects uri (coap.payload message) s)
      else if coap.code message == coap_delete
      then settled c response (object_delete objects uri s)
      else bare c s bad_request response
