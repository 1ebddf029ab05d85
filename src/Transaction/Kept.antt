-- ===== src/Transaction/Kept.antt =====
-- core/transaction.c: sending keeps the clients that are there.
use galileom2m.Prelude.{ℕ, Bool, Option, none, some, List, ltb, if-elim, Option-elim}
use galileom2m.Coap.{Coap, max_retransmit, internal_server_error}
use galileom2m.Context.{
  ok, minus_one, Client, Peer, endpoint_unknown, endpoint_bootstrap, endpoint_client,
  endpoint_server, Transaction, Context,
}
use galileom2m.Context.Preserve.{Returns, ok-Returns, any-Returns, bind-Returns, Stable}
use galileom2m.Callbacks.{peer_client, peer_server, call_back}
use galileom2m.Callbacks.Kept.{Kept, call_back-Kept}
use galileom2m.Transaction.{
  transaction_remove, buffer_send, put_transaction, fill_buffer, transmit, start_clock,
  has_callback, give_up, reschedule, transaction_send,
}

module _ (coap : Coap) (P : List Client → Type 0) (stable : Stable P) where
  open coap use {Packet}

  abbrev pub KeptWith : Context Packet × Transaction Packet × ℕ → Type 0
  KeptWith a = P a.0.client_list

  -- A context, if there is one.
  abbrev KeptIf : Option (Context Packet) → Type 0
  KeptIf none = Unit {0}
  KeptIf (some c) = P c.client_list

  transmit-Kept :
      (c : Context Packet) (bytes : List ℕ) (peer : Peer)
      → P c.client_list
      → Returns KeptIf (transmit coap c bytes peer)
  unfolding transmit buffer_send
  transmit-Kept c bytes (endpoint_client p) kept =
      any-Returns KeptIf (peer_client coap c (endpoint_client p)) _
        (λ k. ok-Returns KeptIf (some (buffer_send coap c k.addr bytes)) kept)
  transmit-Kept c bytes (endpoint_server p) kept =
      any-Returns KeptIf (peer_server coap c (endpoint_server p)) _
        (λ s. ok-Returns KeptIf (some (buffer_send coap c s.addr bytes)) kept)
  transmit-Kept c bytes endpoint_bootstrap kept = ok-Returns KeptIf (some c) kept
  transmit-Kept c bytes endpoint_unknown kept = ok-Returns KeptIf none tt

  give_up-Kept :
      (located : Bool) (c : Context Packet) (t : Transaction Packet)
      → P c.client_list
      → Returns (Kept coap P stable) (give_up coap located c t)
  unfolding give_up transaction_remove
  give_up-Kept located c t kept =
      if-elim (has_callback coap t.callback) (Returns (Kept coap P stable))
        (bind-Returns (Kept coap P stable) (Kept coap P stable)
          (call_back coap located c t t.callback none) _
          (call_back-Kept coap P stable c kept located t t.callback none)
          (λ c' kept'. ok-Returns (Kept coap P stable) _ kept'))
        (ok-Returns (Kept coap P stable) _ kept)

  reschedule-Kept :
      (located : Bool) (c : Context Packet) (t : Transaction Packet)
      → P c.client_list
      → Returns KeptWith (reschedule coap located c t)
  unfolding reschedule put_transaction
  reschedule-Kept located c t kept =
      if-elim (ltb t.retrans_counter max_retransmit) (Returns KeptWith) (ok-Returns KeptWith _ kept)
        (bind-Returns KeptWith (Kept coap P stable)
          (give_up coap located (put_transaction coap c t) t) _
          (give_up-Kept located (put_transaction coap c t) t kept)
          (λ c' kept'. ok-Returns KeptWith _ kept'))

  transmitted-Kept :
      (located : Bool) (c : Context Packet) (t u : Transaction Packet)
      → P c.client_list
      → (transmitted : Option (Context Packet)) → KeptIf transmitted
      → Returns KeptWith (elim transmitted [
        | none ↦ ok (c, t, minus_one)
        | some c' ↦ reschedule coap located c' u
      ])
  transmitted-Kept located c t u kept none kept' = ok-Returns KeptWith (c, t, minus_one) kept
  transmitted-Kept located c t u kept (some c') kept' = reschedule-Kept located c' u kept'

  pub transaction_send-Kept :
      (allocated located : Bool) (now : Option ℕ) (c : Context Packet) (t : Transaction Packet)
      → P c.client_list
      → Returns KeptWith (transaction_send coap allocated located now c t)
  unfolding transaction_send put_transaction
  transaction_send-Kept allocated located now c t kept =
      Option-elim (fill_buffer coap allocated t t.buffer) (Returns KeptWith)
        (ok-Returns KeptWith (c, t, internal_server_error) kept)
        (λ bytes.
          (let t' = record t { buffer = some bytes } in
            let c' = put_transaction coap c t' in
            bind-Returns KeptWith KeptIf (transmit coap c' bytes t.peer) _
              (transmit-Kept c' bytes t.peer kept)
              (transmitted-Kept located c' t' (start_clock coap now t') kept)))
