-- ===== src/Packet/Handle/Kept.antt =====
-- core/packet.c, `lwm2m_handle_packet`: whatever arrives, the list of clients stays valid.
use galileom2m.Prelude.{
  ℕ, ◌<◌, ◌≡◌, true, List, arith, ◌==◌, ◌&&◌, leb, length, take, ◌%◌, ◌^◌, if-elim,
}
use galileom2m.Coap.{Coap, no_error, coap_get, coap_delete}
use galileom2m.Context.{ok, Address, Context}
use galileom2m.Context.Preserve.{Returns, ok-Returns, bind-Returns}
use galileom2m.Objects.{Object}
use galileom2m.Observe.Notify.{message_send}
use galileom2m.Observe.Notify.Kept.{message_send-client_list}
use galileom2m.Registration.Clients.{ClientsValid, ClientsValid-Stable}
use galileom2m.Registration.Handler.{Fresh}
use galileom2m.Management.Requests.{Handled}
use galileom2m.Packet.{handle_answer}
use galileom2m.Packet.Kept.{handle_answer-Kept}
use galileom2m.Packet.Requests.Total.{handle_request-Served}
use galileom2m.Packet.Blocks.{apply_blocks}
use galileom2m.Packet.Handle.{
  Surroundings, Processed, prepare, send_status, reply_error, reply, handle_message, handle_packet,
}

module _ (coap : Coap) where
  open coap use {Packet}

  reply_error-client_list :
      (c : Context Packet) (message : Packet) (status : ℕ) (error : List ℕ) (from : Address)
      → (reply_error coap c message status error from).client_list ≡ c.client_list
  unfolding reply_error
  reply_error-client_list c message status error from = message_send-client_list coap c _ from

  reply-client_list :
      {S : Type 0} (message : Packet) (error : List ℕ) (from : Address) (h : Handled Packet S)
      → (reply coap message error from h).context.client_list ≡ h.context.client_list
  unfolding reply
  reply-client_list message error from h =
      let (response, pointer, error') = apply_blocks coap message h.response h.pointer error in
      let c = message_send coap h.context response from in
      ground (
        arith,
        message_send-client_list coap h.context response from,
        reply_error-client_list c message (send_status coap response) error' from,
        reply_error-client_list h.context message h.status error from,
      )

  module _ {S : Type 0} (around : Surroundings) (objects : List (Object S)) (c : Context Packet)
      (s : S) (from : Address) (valid : ClientsValid c.client_list)
      (few : length c.client_list < 65536)
      (for_addr : around.memory.for_registration.for_addr ≡ true)
      (fresh : Fresh around.memory.for_registration c.client_list) where
    abbrev pub KeptProcessed : Processed Packet S → Type 0
    KeptProcessed p = ClientsValid p.context.client_list

    handle_message-Kept :
        (error : List ℕ) (message : Packet)
        → Returns KeptProcessed (handle_message coap around objects error c s from message)
    unfolding handle_message
    handle_message-Kept error message =
        let served =
          handle_request-Served coap c around.memory objects s from message
            (prepare coap around.library_mid message) valid few for_addr fresh in
        let h = served.handled in
        let replied : Returns KeptProcessed (ok (reply coap message error from h)) =
          ok-Returns KeptProcessed (reply coap message error from h)
            (rw (reply-client_list message error from h) served.valid) in
        if-elim (leb coap_get (coap.code message) && leb (coap.code message) coap_delete)
          (Returns KeptProcessed) (rw served.returns replied)
          (bind-Returns KeptProcessed (λ (c : Context Packet). ClientsValid c.client_list)
            (handle_answer coap around.for_location c from message) _
            (handle_answer-Kept coap ClientsValid ClientsValid-Stable around.for_location c from
              message valid)
            (λ c' kept'. ok-Returns KeptProcessed _ kept'))

    pub handle_packet-Kept :
        (error bytes : List ℕ)
        → Returns KeptProcessed (handle_packet coap around objects error c s bytes from)
    unfolding handle_packet
    handle_packet-Kept error bytes =
        let (status, message, error') = coap.parse error (take (length bytes % 2 ^ 16) bytes) in
        if-elim (status == no_error) (Returns KeptProcessed) (handle_message-Kept error' message) (
          ok-Returns KeptProcessed _
            (rw (reply_error-client_list c message status error' from) valid))
