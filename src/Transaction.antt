-- ===== src/Transaction.antt =====
-- core/transaction.c: a confirmable request, its retransmissions and its end.
pub mod Path
pub mod Schedule
pub mod End
pub mod Gone
pub mod Kept
mod Examples
use galileom2m.Prelude.{
  ℕ, ◌+◌, ◌*◌, Bool, true, false, Option, none, some, List, [], ◌∷◌, ◌++◌, ltb, leb, ◌==◌,
  if◌then◌else◌, length,
}
use galileom2m.Coap.{Coap, con, internal_server_error, max_retransmit, response_timeout}
use galileom2m.Context.{
  Run, ok, fault, ◌>>=◌, minus_one, Peer, endpoint_unknown, endpoint_bootstrap, endpoint_client,
  endpoint_server, Callback, no_callback, Transaction, Context, store, unlink_at, Address,
}
use galileom2m.Uri.{Uri, is_set_instance, is_set_resource}
use galileom2m.Uri.Numbers.{decimal}
use galileom2m.Callbacks.{peer_client, peer_server, call_back}

-- The segments that `transaction_new` sets, one after another.
pub uri_segments : Uri → List (List ℕ)
uri_segments uri =
    decimal uri.object_id
    ∷ ((if is_set_instance uri
          then decimal uri.instance_id ∷ []
          else if is_set_resource uri
          then [] ∷ []
          else [])
        ++ (if is_set_resource uri then decimal uri.resource_id ∷ [] else []))

module _ (coap : Coap) where
  open coap use {Packet}

  pub set_segments : Packet → List (List ℕ) → Packet
  set_segments p [] = p
  set_segments p (segment ∷ segments) = set_segments (coap.set_uri_path_segment p segment) segments

  unfoldable pub request : ℕ → Option Uri → ℕ → Packet
  unfolding set_segments
  request method none mid = coap.init_message con method mid
  request method (some uri) mid = set_segments (coap.init_message con method mid) (uri_segments uri)

  -- The first argument is what `malloc` returns for the transaction, NULL as `none`, the second
  -- whether it has memory for the message. The texts of ids always fit their buffers.
  unfoldable pub transaction_new :
      Option ℕ → Bool → ℕ → Option Uri → ℕ → Peer → Option (Transaction Packet)
  transaction_new none allocated method uri mid peer = none
  transaction_new (some address) false method uri mid peer = none
  transaction_new (some address) true method uri mid peer = some (record {
    self = address;
    mid = mid;
    peer = peer;
    retrans_counter = 0;
    retrans_time = 0;
    message = request method uri mid;
    buffer = none;
    callback = no_callback;
  })

  unfoldable pub transaction_remove : Context Packet → Transaction Packet → Context Packet
  transaction_remove c t = record c {
    transaction_list = unlink_at (λ t. t.self) t.self c.transaction_list;
  }

  unfoldable pub buffer_send : Context Packet → Address → List ℕ → Context Packet
  buffer_send c addr bytes = record c { sent = (addr, bytes) ∷ c.sent }

  unfoldable pub put_transaction : Context Packet → Transaction Packet → Context Packet
  put_transaction c t = record c { transaction_list = store (λ t. t.self) t c.transaction_list }

  -- The serialized message, made at the first transmission; `none` where no buffer is to be had.
  pub fill_buffer : Bool → Transaction Packet → Option (List ℕ) → Option (List ℕ)
  fill_buffer allocated t (some bytes) = some bytes
  fill_buffer allocated t none = elim (coap.serialize t.message) [
    | [] ↦ none
    | b ∷ bytes ↦ if allocated then some (b ∷ bytes) else none
  ]

  -- The `switch` over the peer type: `none` is its default, a return of -1.
  transmit : Context Packet → List ℕ → Peer → Run (Option (Context Packet))
  unfolding buffer_send
  transmit c bytes (endpoint_client p) = do
    k ← peer_client coap c (endpoint_client p)
    ok (some (buffer_send c k.addr bytes))
  transmit c bytes (endpoint_server p) = do
    s ← peer_server coap c (endpoint_server p)
    ok (some (buffer_send c s.addr bytes))
  transmit c bytes endpoint_bootstrap = ok (some c)
  transmit c bytes endpoint_unknown = ok none

  -- The first transmission starts the clock; `now` is what `gettimeofday` tells, if it does.
  start_clock : Option ℕ → Transaction Packet → Transaction Packet
  start_clock now t =
      if t.retrans_counter == 0
      then elim now [
        | some seconds ↦ record t { retrans_time = seconds; retrans_counter = 1 }
        | none ↦ record t { retrans_counter = max_retransmit }
      ]
      else t

  has_callback : Callback → Bool
  has_callback no_callback = false
  has_callback _ = true

  -- The end of a transaction that was sent often enough.
  pub give_up : Bool → Context Packet → Transaction Packet → Run (Context Packet)
  unfolding has_callback transaction_remove
  give_up located c t =
      if has_callback t.callback
      then (do c' ← call_back coap located c t t.callback none; ok (transaction_remove c' t))
      else ok (transaction_remove c t)

  -- The new context, the transaction as it stands there, and what `transaction_send` returns.
  reschedule :
      Bool → Context Packet → Transaction Packet → Run (Context Packet × Transaction Packet × ℕ)
  unfolding put_transaction
  reschedule located c t =
      let t' = record t {
        retrans_time = t.retrans_time + response_timeout * t.retrans_counter;
        retrans_counter = t.retrans_counter + 1;
      } in
      if ltb t.retrans_counter max_retransmit
      then ok (put_transaction c t', t', 0)
      else (do c' ← give_up located (put_transaction c t) t; ok (c', t, minus_one))

  -- `allocated` and `located` are the outcomes of the two `malloc`s on the way.
  pub transaction_send :
      Bool
      → Bool
      → Option ℕ
      → Context Packet
      → Transaction Packet
      → Run (Context Packet × Transaction Packet × ℕ)
  unfolding transmit start_clock reschedule
  transaction_send allocated located now c t = elim (fill_buffer allocated t t.buffer) [
    | none ↦ ok (c, t, internal_server_error)
    | some bytes ↦ do
      let t' = record t { buffer = some bytes }
      transmitted ← transmit (put_transaction c t') bytes t.peer
      elim transmitted [
        | none ↦ ok (put_transaction c t', t', minus_one)
        | some c' ↦ reschedule located c' (start_clock now t')
      ]
  ]
