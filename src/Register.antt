-- ===== src/Register.antt =====
-- core/registration.c: the registration interface on the client, `lwm2m_register` and
-- `registration_deregister`.
pub mod Kept
pub mod Farewell
pub mod Round
pub mod Sending
mod Examples
use galileom2m.Prelude.{
  ℕ, ◌+◌, ◌%◌, ◌^◌, ◌==◌, Bool, true, false, Option, none, some, List, [], ◌∷◌, ◌++◌, if◌then◌else◌,
  map,
}
use galileom2m.Coap.{Coap, non, internal_server_error, coap_post, coap_delete}
use galileom2m.Context.{
  Run, ok, fault, ◌>>=◌, Status, unknown, reg_pending, registered, Server, endpoint_server,
  registration_reply, Transaction, Context, at, store,
}
use galileom2m.LinkedList.{list_add}
use galileom2m.Objects.{Object, get_register_payload}
use galileom2m.Registration.{query_template}
use galileom2m.Transaction.{transaction_new, transaction_send}
use galileom2m.Observe.Notify.{message_send}

-- What the system answers while the registration with a server is sent, as in `transaction_new` and
-- `transaction_send`.
pub record RegisterAnswers : Type 0 where
  pub transaction : Option ℕ
  pub message : Bool
  pub buffer : Bool
  pub located : Bool
  pub now : Option ℕ

-- "/rd"
abbrev pub registration_path : List ℕ
registration_path = b'/' ∷ b'r' ∷ b'd' ∷ []

module _ (coap : Coap) where
  open coap use {Packet}

  -- The transaction with the path, the query and the payload of a registration.
  pub registration_request : Transaction Packet → List ℕ → List ℕ → Transaction Packet
  registration_request t query payload = record t {
    message =
        coap.set_payload (coap.set_uri_query (coap.set_uri_path t.message registration_path) query)
          payload;
    callback = registration_reply;
  }

  -- `targetP->status` and `targetP->mid`, if the transaction was sent.
  mark_pending : ℕ → ℕ → ℕ → Context Packet → Context Packet
  mark_pending server mid result c =
      if result == 0
      then (elim (at (λ s. s.self) server c.server_list) [
        | none ↦ c
        | some s ↦ record c {
          server_list =
              store (λ s. s.self) (record s { status = reg_pending; mid = mid }) c.server_list;
        }
      ])
      else c

  -- The body of the loop: the new context, and whether the function goes on.
  pub register_with :
      RegisterAnswers → Context Packet → ℕ → List ℕ → List ℕ → Run (Context Packet × Bool)
  unfolding mark_pending
  register_with answers c server query payload =
      let c' = record c { next_mid = (c.next_mid + 1) % 2 ^ 16 } in
      elim (transaction_new coap answers.transaction answers.message coap_post none c.next_mid
        (endpoint_server server)) [
          | none ↦ ok (c', false)
          | some t ↦
              (let t' = registration_request t query payload in
                do
                  (c'', t'', result) ←
                      transaction_send coap answers.buffer answers.located answers.now
                        (record c' {
                          transaction_list = list_add (λ t. t.mid) c.transaction_list t';
                        })
                        t'
                  ok (mark_pending server t''.mid result c'', true))
        ]

  -- The loop over the servers, which stay where they are.
  register_loop :
      (ℕ → RegisterAnswers) → Context Packet → List ℕ → List ℕ → List ℕ → Run (Context Packet × ℕ)
  register_loop answers c [] query payload = ok (c, 0)
  register_loop answers c (server ∷ servers) query payload =
      let later = λ (c' : Context Packet). register_loop answers c' servers query payload in
      do
        (c', goes_on) ← register_with (answers server) c server query payload
        if goes_on then later c' else ok (c', internal_server_error)

  -- `allocated` is the outcome of the `malloc` for the query; `answers` is read by the address of a
  -- server.
  pub register :
      {S : Type 0}
      → Bool
      → (ℕ → RegisterAnswers)
      → List (Object S)
      → Context Packet
      → Run (Context Packet × ℕ)
  unfolding register_loop
  register allocated answers objects c = elim (get_register_payload objects 64) [
    | [] ↦ ok (c, internal_server_error)
    | b ∷ payload ↦
        if allocated
        then register_loop answers c (map (λ s. s.self) c.server_list)
            (query_template ++ c.endpoint_name) (b ∷ payload)
        else ok (c, internal_server_error)
  ]

  -- The message that ends a registration; the location is read as a string, NULL included.
  unfoldable pub deregister_message : ℕ → List ℕ → Packet
  deregister_message mid location =
      coap.set_uri_path (coap.init_message non coap_delete mid) location

  pub deregister_registered :
      Context Packet → Server → Option (List ℕ) → Run (Context Packet × Server)
  deregister_registered c s none = fault
  deregister_registered c s (some location) = ok (
    message_send coap (record c { next_mid = (c.next_mid + 1) % 2 ^ 16 })
        (deregister_message c.next_mid location) s.addr,
    record s { status = unknown },
  )

  -- The server is read and written through its pointer, wherever it stands.
  deregister_by : Status → Context Packet → Server → Run (Context Packet × Server)
  deregister_by registered c s = deregister_registered c s s.location
  deregister_by unknown c s = ok (c, s)
  deregister_by reg_pending c s = ok (c, s)

  pub deregister : Context Packet → Server → Run (Context Packet × Server)
  unfolding deregister_by
  deregister c s = deregister_by s.status c s
