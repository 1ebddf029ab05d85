-- ===== src/Transaction/Gone.antt =====
-- core/transaction.c: a transaction whose client is gone.
use galileom2m.Prelude.{ℕ, ◌≡◌, refl, ap, ◌∙◌, Bool, Option, none, some, List}
use galileom2m.Coap.{Coap}
use galileom2m.Context.{fault, endpoint_client, Transaction, Context, at}
use galileom2m.Callbacks.Live.{peer_client_gone}
use galileom2m.Transaction.{put_transaction, fill_buffer, transmit, transaction_send}

module _ (coap : Coap) (allocated located : Bool) (now : Option ℕ) (c : Context coap.Packet)
    (t : Transaction coap.Packet) (bytes : List ℕ) where
  transmit-gone :
      (p : ℕ)
      → at (λ k. k.self) p c.client_list ≡ none
      → transmit coap
          (put_transaction coap c (record t { buffer = some bytes }))
          bytes
          (endpoint_client p)
        ≡ fault
  unfolding transmit put_transaction
  transmit-gone p gone =
      rw (peer_client_gone coap (put_transaction coap c (record t { buffer = some bytes })) p gone)
        refl

  -- Sending reads the client through the pointer of the transaction.
  pub transaction_send-gone :
      (p : ℕ)
      → fill_buffer coap allocated t t.buffer ≡ some bytes
      → t.peer ≡ endpoint_client p
      → at (λ k. k.self) p c.client_list ≡ none
      → transaction_send coap allocated located now c t ≡ fault
  unfolding transaction_send
  transaction_send-gone p ready peer gone =
      let c' = put_transaction coap c (record t { buffer = some bytes }) in
      let faults : transmit coap c' bytes t.peer ≡ fault =
        ap (transmit coap c' bytes) peer ∙ transmit-gone p gone in
      rw (ready, transaction_send, faults) refl
