-- ===== src/Packet/Handle/Replies.antt =====
-- core/packet.c, `lwm2m_handle_packet`: what is sent back, and what is freed.
use galileom2m.Prelude.{
  ℕ, ◌≡◌, ◌≢◌, refl, ◌∙◌, ap, true, false, some, List, ◌∷◌, arith, leb, ◌==◌, if◌then◌else◌, take,
  ◌%◌, ◌^◌, length, Bool-cases, inl, inr, ◌⊎◌, [], ◌≤◌, ◌<◌, ◌&&◌,
}
use galileom2m.Coap.{Coap, Block, ack, no_error, internal_server_error, coap_get, coap_delete}
use galileom2m.Context.{Run, ok, Address, Context}
use galileom2m.Transaction.{buffer_send}
use galileom2m.Observe.Notify.{message_send}
use galileom2m.Management.Requests.{start, inside, literal, Handled}
use galileom2m.Packet.Blocks.{apply_blocks}
use galileom2m.Packet.Blocks.Transfer.{apply_blocks-pointer}
use galileom2m.Objects.{Object}
use galileom2m.Registration.Clients.{ClientsValid}
use galileom2m.Registration.Handler.{Fresh}
use galileom2m.Packet.Requests.Total.{handle_request-Served}
use galileom2m.Packet.Handle.{
  Surroundings, Processed, prepare, reply, reply_error, send_status, handle_message, handle_packet,
}

bytes-cases : (bytes : List ℕ) → (bytes ≡ []) ⊎ ((b : ℕ) × (rest : List ℕ) × (bytes ≡ b ∷ rest))
bytes-cases [] = inl refl
bytes-cases (b ∷ rest) = inr (b, rest, refl)

module _ (coap : Coap) where
  open coap use {Packet}

  -- A packet that can be serialized goes out.
  pub message_send-sent :
      (c : Context Packet) (p : Packet) (a : Address)
      → coap.serialize p ≢ []
      → (bytes : List ℕ) × (message_send coap c p a ≡ record c { sent = (a, bytes) ∷ c.sent })
  unfolding message_send buffer_send
  message_send-sent c p a written = elim (bytes-cases (coap.serialize p)) [
    | inl none_left ↦ elim (written none_left) [ ]
    | inr (b, rest, e) ↦ (b ∷ rest, rw (e, message_send) refl)
  ]

  -- What becomes of a packet, and the status that `lwm2m_handle_packet` goes on with.
  message_send-status :
      (c : Context Packet) (p : Packet) (a : Address)
      → ((send_status coap p ≡ internal_server_error) × (message_send coap c p a ≡ c))
        ⊎ ((bytes : List ℕ) × (send_status coap p ≡ no_error)
            × (message_send coap c p a ≡ record c { sent = (a, bytes) ∷ c.sent }))
  unfolding send_status message_send buffer_send
  message_send-status c p a = elim (bytes-cases (coap.serialize p)) [
    | inl none_left ↦ inl (rw (none_left, send_status) refl, rw (none_left, message_send) refl)
    | inr (b, rest, e) ↦ inr (b ∷ rest, rw (e, send_status) refl, rw (e, message_send) refl)
  ]

  -- A reply of an error to this message can be serialized: it has a status, a text and no option.
  abbrev pub Replies : Packet → Type 0
  Replies message =
      (status : ℕ) (text : List ℕ)
      → coap.serialize (coap.set_payload (coap.init_message ack status (coap.mid message)) text)
        ≢ []

  reply_error-sent :
      (c : Context Packet) (message : Packet) (status : ℕ) (error : List ℕ) (from : Address)
      → Replies message
      → (bytes : List ℕ) × (reply_error coap c message status error from
          ≡ record c { sent = (from, bytes) ∷ c.sent })
  unfolding reply_error
  reply_error-sent c message status error from replies =
      message_send-sent c _ from
        (replies (if leb 192 status then internal_server_error else status) error)

module _ (coap : Coap) {S : Type 0} (message : coap.Packet) (error : List ℕ) (from : Address)
    (h : Handled coap.Packet S) where
  reply-freed :
      h.status ≡ no_error
      → (reply coap message error from h).freed
        ≡ (apply_blocks coap message h.response h.pointer error).1
  unfolding reply
  reply-freed fine = rw fine refl

  -- After a request for a block, without a Block1 option, that was handled without an error, and
  -- whose response has an allocated payload, `free` is given the start of the payload exactly for
  -- a block at offset 0 of a payload that is not empty: for a later block it is given a pointer
  -- into the payload, and for a block behind the payload a string literal.
  pub reply_frees :
      (b : Block)
      → h.status ≡ no_error
      → h.pointer ≡ start
      → coap.block1 message ≡ false
      → coap.block2 message ≡ some b
      → (reply coap message error from h).freed ≡ (
          if leb (length (coap.payload h.response)) b.offset
          then literal
          else if b.offset == 0
          then start
          else inside)
  reply_frees b fine allocated no_block1 asked =
      reply-freed fine
      ∙ ap (λ p. (apply_blocks coap message h.response p error).1) allocated
      ∙ apply_blocks-pointer coap message h.response error b no_block1 asked

  -- Where an error can be replied, one datagram goes out, to the sender of the request.
  reply-sent :
      Replies coap message
      → (bytes : List ℕ) × ((reply coap message error from h).context
          ≡ record h.context { sent = (from, bytes) ∷ h.context.sent })
  unfolding reply
  reply-sent replies =
      let blocks = apply_blocks coap message h.response h.pointer error in
      elim (Bool-cases (h.status == no_error)) [
        | inl good ↦ elim (message_send-status coap h.context blocks.0 from) [
          | inl (failed, kept) ↦
              (let (bytes, out) =
                  reply_error-sent coap h.context message internal_server_error blocks.2 from
                    replies in
                (bytes, rw (good, failed, kept) out))
          | inr (bytes, fine, out) ↦ (bytes, rw (good, fine) out)
        ]
        | inr bad ↦
            (let (bytes, out) =
                reply_error-sent coap h.context message h.status error from replies in
              (bytes, rw bad out))
      ]

-- What a request leaves behind that was answered with one datagram to its sender.
pub record Answered (coap : Coap) {S : Type 0} (c : Context coap.Packet) (from : Address)
    (run : Run (Processed coap.Packet S)) : Type 0 where
  pub processed : Processed coap.Packet S
  pub bytes : List ℕ
  pub returns : run ≡ ok processed
  pub sent : processed.context.sent ≡ (from, bytes) ∷ c.sent
  pub transactions : processed.context.transaction_list ≡ c.transaction_list
  pub servers : processed.context.server_list ≡ c.server_list
  pub told : processed.context.notices ≡ c.notices
  pub valid : ClientsValid processed.context.client_list

pub handle_message-Answered :
    (coap : Coap) {S : Type 0} (around : Surroundings) (objects : List (Object S)) (error : List ℕ)
    (c : Context coap.Packet) (s : S) (from : Address) (message : coap.Packet)
    → coap_get ≤ coap.code message
    → coap.code message ≤ coap_delete
    → Replies coap message
    → ClientsValid c.client_list
    → length c.client_list < 65536
    → around.memory.for_registration.for_addr ≡ true
    → Fresh around.memory.for_registration c.client_list
    → Answered coap c from (handle_message coap around objects error c s from message)
unfolding handle_message
handle_message-Answered coap around objects error c s from message above below replies valid few
      for_addr fresh =
    let request : leb coap_get (coap.code message) && leb (coap.code message) coap_delete ≡ true =
      ground arith in
    let served =
      handle_request-Served coap c around.memory objects s from message
        (prepare coap around.library_mid message) valid few for_addr fresh in
    let h = served.handled in
    let (bytes, out) = reply-sent coap message error from h replies in
    let whole =
      out
      ∙ ap (λ (c' : Context coap.Packet). record c' { sent = (from, bytes) ∷ c'.sent })
          served.same in
    record {
      processed = reply coap message error from h;
      bytes = bytes;
      returns = rw (request, served.returns) refl;
      sent = ap (λ c'. c'.sent) whole;
      transactions = ap (λ c'. c'.transaction_list) whole;
      servers = ap (λ c'. c'.server_list) whole;
      told = ap (λ c'. c'.notices) whole;
      valid = rw whole served.valid;
    }

-- A datagram that can be parsed is handled as its message.
pub handle_packet-handle_message :
    (coap : Coap) {S : Type 0} (around : Surroundings) (objects : List (Object S)) (error : List ℕ)
    (c : Context coap.Packet) (s : S) (bytes : List ℕ) (from : Address)
    → let parsed = coap.parse error (take (length bytes % 2 ^ 16) bytes) in
      parsed.0 ≡ no_error
      → handle_packet coap around objects error c s bytes from
        ≡ handle_message coap around objects parsed.2 c s from parsed.1
unfolding handle_packet
handle_packet-handle_message coap around objects error c s bytes from fine = rw fine refl
