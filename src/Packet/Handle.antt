-- ===== src/Packet/Handle.antt =====
-- core/packet.c, `lwm2m_handle_packet`: what becomes of a datagram. `message` and `response` are
-- static there, and are set before they are read.
pub mod Replies
pub mod Kept
use galileom2m.Prelude.{
  ℕ, ◌%◌, ◌^◌, ◌&&◌, Bool, true, false, List, [], ◌∷◌, ltb, leb, ◌==◌, if◌then◌else◌, length, take,
}
use galileom2m.Coap.{
  Coap, MessageType, con, non, ack, rst, no_error, content, internal_server_error, coap_get,
  coap_delete,
}
use galileom2m.Context.{Run, ok, ◌>>=◌, Address, Context}
use galileom2m.Objects.{Object}
use galileom2m.Observe.Notify.{message_send}
use galileom2m.Management.Requests.{Pointer, null, Handled}
use galileom2m.Packet.{handle_answer}
use galileom2m.Packet.Requests.{RequestMemory, handle_request}
use galileom2m.Packet.Blocks.{apply_blocks}

-- `library_mid` is what `coap_get_mid` returns; `for_location` is the outcome of the `malloc` that a
-- registration reply makes.
pub record Surroundings : Type 0 where
  pub memory : RequestMemory
  pub for_location : Bool
  pub library_mid : ℕ

-- What a datagram leaves behind: the context, the state of the application, `coap_error_message`,
-- and the pointer that `free` is given, NULL if it is not called.
pub record Processed (Packet S : Type 0) : Type 0 where
  pub context : Context Packet
  pub state : S
  pub error_message : List ℕ
  pub freed : Pointer

abbrev is_confirmable : MessageType → Bool
is_confirmable con = true
is_confirmable non = false
is_confirmable ack = false
is_confirmable rst = false

module _ (coap : Coap) where
  open coap use {Packet}

  -- The response before the request is handled.
  prepare : ℕ → Packet → Packet
  prepare library_mid message =
      let response =
        (if is_confirmable (coap.type message)
          then coap.init_message ack content (coap.mid message)
          else coap.init_message non content library_mid) in
      if length (coap.token message) == 0
      then response
      else coap.set_token response (coap.token message)

  -- The result of `message_send`, where `sendto` takes what it is given.
  pub send_status : Packet → ℕ
  send_status message = elim (coap.serialize message) [
    | [] ↦ internal_server_error
    | b ∷ bytes ↦ no_error
  ]

  -- The end of the function, for an error code other than 0.
  pub reply_error : Context Packet → Packet → ℕ → List ℕ → Address → Context Packet
  reply_error c message status error from =
      let sendable = (if leb 192 status then internal_server_error else status) in
      message_send coap c
        (coap.set_payload (coap.init_message ack sendable (coap.mid message)) error) from

  -- The response goes out and its payload is freed, or the error that the request met is replied.
  pub reply : {S : Type 0} → Packet → List ℕ → Address → Handled Packet S → Processed Packet S
  unfolding send_status
  reply message error from h =
      let (response, pointer, error') = apply_blocks coap message h.response h.pointer error in
      let c = message_send coap h.context response from in
      let status = send_status response in
      if h.status == no_error
      then record {
        context = if status == no_error then c else reply_error c message status error' from;
        state = h.state;
        error_message = error';
        freed = pointer;
      }
      else record {
        context = reply_error h.context message h.status error from;
        state = h.state;
        error_message = error;
        freed = null;
      }

  abbrev untouched : {S : Type 0} → Context Packet → S → List ℕ → Processed Packet S
  untouched c s error = record { context = c; state = s; error_message = error; freed = null }

  pub handle_message :
      {S : Type 0}
      → Surroundings
      → List (Object S)
      → List ℕ
      → Context Packet
      → S
      → Address
      → Packet
      → Run (Processed Packet S)
  unfolding prepare
  handle_message around objects error c s from message =
      if leb coap_get (coap.code message) && leb (coap.code message) coap_delete
      then (do
        handled ←
            handle_request coap around.memory objects c s from message
              (prepare around.library_mid message)
        ok (reply message error from handled))
      else (do
        c' ← handle_answer coap around.for_location c from message
        ok (untouched c' s error))

  -- `(uint16_t)length` is the length that is parsed.
  pub handle_packet :
      {S : Type 0}
      → Surroundings
      → List (Object S)
      → List ℕ
      → Context Packet
      → S
      → List ℕ
      → Address
      → Run (Processed Packet S)
  handle_packet around objects error c s bytes from =
      let (status, message, error') = coap.parse error (take (length bytes % 2 ^ 16) bytes) in
      if status == no_error
      then handle_message around objects error' c s from message
      else ok (untouched (reply_error c message status error' from) s error')
