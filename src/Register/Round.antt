-- ===== src/Register/Round.antt =====
-- core/registration.c, `lwm2m_register`: a round of its loop over the servers.
use galileom2m.Prelude.{ℕ, ◌+◌, ◌%◌, ◌^◌, ◌≡◌, ◌≢◌, refl, ap, ◌∙◌, true, none, some, List, [], ◌∷◌}
use galileom2m.Coap.{Coap, con, coap_post}
use galileom2m.Context.{
  ok, reg_pending, Server, endpoint_server, Transaction, Context, at, store, no_callback,
}
use galileom2m.LinkedList.{list_add}
use galileom2m.Transaction.{transaction_new, put_transaction, buffer_send, request, fill_buffer}
use galileom2m.Transaction.Schedule.{
  Reaches, fill_buffer-serialize, transaction_send-begun, begun, out,
}
use galileom2m.Register.{
  RegisterAnswers, registration_path, registration_request, mark_pending, register_with,
}
use galileom2m.Register.Farewell.{addresses}

abbrev pub server_self : Server → ℕ
server_self s = s.self

-- Memory for everything, a transaction at `address`, and the clock at `start`.
abbrev pub granted : ℕ → ℕ → RegisterAnswers
granted address start = record {
  transaction = some address;
  message = true;
  buffer = true;
  located = true;
  now = some start;
}

pub nonempty : (bytes : List ℕ) → bytes ≢ [] → (b : ℕ) × (rest : List ℕ) × (bytes ≡ b ∷ rest)
nonempty [] h = absurd (h refl)
nonempty (b ∷ rest) h = (b, rest, refl)

module _ (coap : Coap) where
  open coap use {Packet}

  -- The message of a registration.
  abbrev pub registration_message : ℕ → List ℕ → List ℕ → Packet
  registration_message mid query payload =
      coap.set_payload
        (coap.set_uri_query
          (coap.set_uri_path (coap.init_message con coap_post mid) registration_path) query)
        payload

  -- What one round does.
  pub record Asked (c : Context Packet) (s : Server) (c' : Context Packet) : Type 0 where
    pub sent : addresses c' ≡ s.addr ∷ addresses c
    pub servers :
        c'.server_list
        ≡ store server_self (record s { status = reg_pending; mid = c.next_mid }) c.server_list

  module _ (address start : ℕ) (c : Context Packet) (s : Server) (query payload : List ℕ)
      (there : at server_self s.self c.server_list ≡ some s) where
    -- The request, before it is sent.
    asking : Transaction Packet
    asking =
        registration_request coap
          (record {
            self = address;
            mid = c.next_mid;
            peer = endpoint_server s.self;
            retrans_counter = 0;
            retrans_time = 0;
            message = request coap coap_post none c.next_mid;
            buffer = none;
            callback = no_callback;
          })
          query payload

    queued : Context Packet
    queued = record c {
      next_mid = (c.next_mid + 1) % 2 ^ 16;
      transaction_list = list_add (λ t. t.mid) c.transaction_list asking;
    }

    reached : Reaches coap queued asking.peer s.addr
    unfolding asking registration_request queued
    reached = (s, there, refl)

    ready :
        (b : ℕ) (bytes : List ℕ)
        → coap.serialize asking.message ≡ b ∷ bytes
        → fill_buffer coap true asking asking.buffer ≡ some (b ∷ bytes)
    unfolding asking registration_request
    ready b bytes e = fill_buffer-serialize coap asking b bytes e

    mark_pending-store :
        (mid : ℕ) (d : Context Packet)
        → d.server_list ≡ c.server_list
        → mark_pending coap s.self mid 0 d ≡ record d {
          server_list =
              store server_self (record s { status = reg_pending; mid = mid }) d.server_list;
        }
    unfolding mark_pending
    mark_pending-store mid d same = rw (ap (at server_self s.self) same ∙ there) refl

    pub register_with-Asked :
        ((mid : ℕ) → coap.serialize (registration_message mid query payload) ≢ [])
        → (c' : Context Packet) × (register_with coap (granted address start) c s.self query payload
            ≡ ok (c', true))
          × Asked c s c'
    unfolding register_with transaction_new asking queued request registration_request
        put_transaction buffer_send
    register_with-Asked written =
        let (b, bytes, e) = nonempty (coap.serialize asking.message) (written c.next_mid) in
        let filled = ready b bytes e in
        let sent =
          transaction_send-begun coap queued asking (b ∷ bytes) s.addr true true (some start)
            reached filled start refl refl in
        let d =
          put_transaction coap
            (out coap queued asking (b ∷ bytes) s.addr true true (some start) reached filled)
            (begun coap queued asking (b ∷ bytes) s.addr true true (some start) reached filled
              start) in
        let d' = record d {
          server_list =
              store server_self (record s { status = reg_pending; mid = c.next_mid }) c.server_list;
        } in
        let marked : mark_pending coap s.self c.next_mid 0 d ≡ d' =
          mark_pending-store c.next_mid d refl in
        (d', rw sent (ap (λ m. ok (m, true)) marked), record { sent = refl; servers = refl })
