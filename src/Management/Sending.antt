-- ===== src/Management/Sending.antt =====
-- core/management.c: what happens when the application asks for an operation.
use galileom2m.Prelude.{
  ℕ, ◌+◌, ◌%◌, ◌^◌, ◌≡◌, refl, ◌∙◌, Bool, true, Option, none, some, List, ◌∷◌, arith,
}
use galileom2m.Coap.{Coap}
use galileom2m.Context.{ok, Client, endpoint_client, dm_result, Transaction, Context, at, store}
use galileom2m.Context.Store.{at-store}
use galileom2m.LinkedList.{list_add}
use galileom2m.LinkedList.Addresses.{at-list_add}
use galileom2m.Uri.{Uri}
use galileom2m.Registration.Clients.{key, self_of, ClientsValid, list_find-at}
use galileom2m.Transaction.{request, transaction_new, fill_buffer, buffer_send, put_transaction}
use galileom2m.Transaction.Schedule.{
  OnSchedule, fill_buffer-serialize, transaction_send-begun, begun, out,
}
use galileom2m.Management.{Answers, callback_of, put_payload, enqueue, make_operation}

-- Memory for everything, the transaction at `address`, and the clock at `start`.
abbrev pub granted : ℕ → Bool → ℕ → Answers
granted address located start = record {
  transaction = some address;
  message = true;
  data_for_callback = true;
  buffer = true;
  located = located;
  now = some start;
}

module _ (coap : Coap) (address : ℕ) (located : Bool) (start : ℕ) where
  open coap use {Packet}

  -- The request of an operation, before it is sent.
  abbrev pub operation :
      Context Packet → Client → Uri → ℕ → Option (List ℕ) → ℕ → ℕ → Transaction Packet
  operation c k uri method buffer callback user_data = record {
    self = address;
    mid = c.next_mid;
    peer = endpoint_client k.self;
    retrans_counter = 0;
    retrans_time = 0;
    message =
        put_payload coap (granted address located start) (request coap method (some uri) c.next_mid)
          buffer;
    buffer = none;
    callback = dm_result uri callback user_data;
  }

  module _ (c : Context Packet) (k : Client) (uri : Uri) (method : ℕ) (buffer : Option (List ℕ))
      (callback user_data b : ℕ) (bytes : List ℕ) (valid : ClientsValid c.client_list)
      (live : at self_of k.self c.client_list ≡ some k)
      (unused : at (λ t. t.self) address c.transaction_list ≡ none)
      (written : coap.serialize (operation c k uri method buffer callback user_data).message
        ≡ b ∷ bytes) where
    abbrev asked : Transaction Packet
    asked = operation c k uri method buffer callback user_data

    abbrev queued : Context Packet
    queued = record c {
      next_mid = (c.next_mid + 1) % 2 ^ 16;
      transaction_list = list_add (λ t. t.mid) c.transaction_list asked;
    }

    make_operation-enqueue :
        make_operation coap
          (granted address located start)
          c
          (key k)
          uri
          method
          buffer
          (some (callback, user_data))
        ≡ enqueue coap
            (granted address located start)
            (record c { next_mid = (c.next_mid + 1) % 2 ^ 16 })
            asked
    unfolding make_operation callback_of transaction_new
    make_operation-enqueue =
        rw (list_find-at 0 c.client_list k valid.rises live, make_operation) refl

    filled : fill_buffer coap true asked none ≡ some (b ∷ bytes)
    filled = fill_buffer-serialize coap asked b bytes written

    sent : Transaction Packet
    sent =
        begun coap queued asked (b ∷ bytes) k.addr true located (some start) (k, live, refl) filled
          start

    -- An operation with a callback, on a client of a valid list, succeeds where there is memory for
    -- it at an address that no transaction has, the clock is at `start`, and the message can be
    -- serialized: the transaction stands in the list with the callback of the application, on the
    -- schedule that begins at `start`, the message id is used up, and its datagram is out to the
    -- client.
    pub make_operation-sends :
        (c' : Context Packet) × (t' : Transaction Packet) × (make_operation coap
            (granted address located start)
            c
            (key k)
            uri
            method
            buffer
            (some (callback, user_data))
          ≡ ok (c', 0))
        × (at (λ t. t.self) address c'.transaction_list ≡ some t')
        × (t'.callback ≡ dm_result uri callback user_data)
        × (t'.peer ≡ endpoint_client k.self)
        × (t'.mid ≡ c.next_mid)
        × OnSchedule coap start t'
        × (c'.next_mid ≡ (c.next_mid + 1) % 2 ^ 16)
        × (c'.sent ≡ (k.addr, b ∷ bytes) ∷ c.sent)
    unfolding enqueue put_transaction buffer_send sent
    make_operation-sends = (
      put_transaction coap
          (out coap queued asked (b ∷ bytes) k.addr true located (some start) (k, live, refl)
            filled)
          sent,
      sent,
      make_operation-enqueue
          ∙ rw
              (
                transaction_send-begun coap queued asked (b ∷ bytes) k.addr true located
                    (some start) (k, live, refl) filled start refl refl,
                enqueue,
              )
              refl,
      ground (
        arith,
        at-store (λ t. t.self) address sent
            (store (λ t. t.self) (record asked { buffer = some (b ∷ bytes) })
              (list_add (λ t. t.mid) c.transaction_list asked)),
        at-store (λ t. t.self) address (record asked { buffer = some (b ∷ bytes) })
            (list_add (λ t. t.mid) c.transaction_list asked),
        at-list_add (λ t. t.mid) (λ t. t.self) c.transaction_list asked address unused,
      ),
      refl,
      refl,
      refl,
      record { counted = omega arith; not_over = omega arith; due = omega arith },
      refl,
      refl,
    )
