-- ===== src/Transaction/Schedule.antt =====
-- core/transaction.c: when a transaction is sent again, and when it ends.
use native.Mathlib.Numerals.{add-one}
use galileom2m.Prelude.{
  true, none, ℕ, zero, suc, ◌+◌, ◌-◌, ◌*◌, ◌≤◌, ◌<◌, ◌≡◌, refl, Bool, Option, some, List, ◌∷◌,
  arith, lt→ltb, ap, ◌∙◌,
}
use galileom2m.Coap.{Coap, max_retransmit, response_timeout}
use galileom2m.Context.{
  ok, ◌>>=◌, minus_one, Address, Client, Server, Peer, endpoint_unknown, endpoint_bootstrap,
  endpoint_client, endpoint_server, Transaction, Context, at,
}
use galileom2m.Callbacks.Live.{peer_client_live, peer_server_live}
use galileom2m.Transaction.{
  buffer_send, put_transaction, fill_buffer, transmit, start_clock, give_up, reschedule,
  transaction_send,
}

square_step : (k : ℕ) → (k + 1) * (k + 1 - 1) ≡ k * (k - 1) + 2 * k
square_step zero = omega arith
square_step (suc k) =
    let up : suc k + 1 - 1 ≡ suc k = omega arith in
    let down : suc k - 1 ≡ k = omega arith in rw (up, down) (omega arith)

module _ (coap : Coap) where
  open coap use {Packet}

  -- The peer of a transaction is there, at this address.
  abbrev pub Reaches : Context Packet → Peer → Address → Type 0
  Reaches c (endpoint_client p) a =
      (k : Client) × (at (λ k. k.self) p c.client_list ≡ some k) × (k.addr ≡ a)
  Reaches c (endpoint_server p) a =
      (s : Server) × (at (λ s. s.self) p c.server_list ≡ some s) × (s.addr ≡ a)
  Reaches c endpoint_bootstrap a = ⊥
  Reaches c endpoint_unknown a = ⊥

  -- A transaction that was first sent at `start`: it waits 2 seconds, then 4, then 6.
  pub record OnSchedule (start : ℕ) (t : Transaction Packet) : Type 0 where
    pub counted : 1 ≤ t.retrans_counter
    pub not_over : t.retrans_counter ≤ max_retransmit
    pub due : t.retrans_time ≡ start + t.retrans_counter * (t.retrans_counter - 1)

  transmit-Reaches :
      (c : Context Packet) (bytes : List ℕ) (peer : Peer) (a : Address)
      → Reaches c peer a
      → transmit coap c bytes peer ≡ ok (some (buffer_send coap c a bytes))
  unfolding transmit
  transmit-Reaches c bytes (endpoint_client p) a (k, e, same) =
      rw (peer_client_live coap c p k e, same)
  transmit-Reaches c bytes (endpoint_server p) a (s, e, same) =
      rw (peer_server_live coap c p s e, same)
  transmit-Reaches c bytes endpoint_bootstrap a h = absurd h
  transmit-Reaches c bytes endpoint_unknown a h = absurd h

  pub fill_buffer-serialize :
      (t : Transaction Packet) (b : ℕ) (bytes : List ℕ)
      → coap.serialize t.message ≡ b ∷ bytes
      → fill_buffer coap true t none ≡ some (b ∷ bytes)
  unfolding fill_buffer
  fill_buffer-serialize t b bytes e = rw (e, fill_buffer) refl

  pub fill_buffer-some :
      (allocated : Bool) (t : Transaction Packet) (bytes : List ℕ)
      → fill_buffer coap allocated t (some bytes) ≡ some bytes
  unfolding fill_buffer
  fill_buffer-some allocated t bytes = refl

  module _ (c : Context Packet) (t : Transaction Packet) (bytes : List ℕ) (a : Address)
      (allocated located : Bool) (now : Option ℕ) (reaches : Reaches c t.peer a)
      (ready : fill_buffer coap allocated t t.buffer ≡ some bytes) where
    -- The context when the datagram is out.
    abbrev pub out : Context Packet
    out = buffer_send coap (put_transaction coap c (record t { buffer = some bytes })) a bytes

    send_ready :
        transaction_send coap allocated located now c t
        ≡ reschedule coap located out (start_clock coap now (record t { buffer = some bytes }))
    unfolding transaction_send put_transaction
    send_ready = rw (
      ready,
      transaction_send,
      transmit-Reaches (put_transaction coap c (record t { buffer = some bytes })) bytes t.peer a
          reaches,
    )

    abbrev pub next : Transaction Packet → Transaction Packet
    next u = record u {
      retrans_time = u.retrans_time + response_timeout * u.retrans_counter;
      retrans_counter = u.retrans_counter + 1;
    }

    reschedule_more :
        (d : Context Packet) (u : Transaction Packet)
        → u.retrans_counter < max_retransmit
        → reschedule coap located d u ≡ ok (put_transaction coap d (next u), next u, 0)
    unfolding reschedule
    reschedule_more d u h = rw (lt→ltb u.retrans_counter max_retransmit h)

    sent_out : (u : Transaction Packet) → (put_transaction coap out u).sent ≡ (a, bytes) ∷ c.sent
    unfolding put_transaction buffer_send
    sent_out u = refl

    -- The transaction after its first transmission at `start`.
    abbrev pub begun : ℕ → Transaction Packet
    begun start = next (record t { buffer = some bytes; retrans_time = start; retrans_counter = 1 })

    pub transaction_send-begun :
        (start : ℕ)
        → t.retrans_counter ≡ 0
        → now ≡ some start
        → transaction_send coap allocated located now c t
          ≡ ok (put_transaction coap out (begun start), begun start, 0)
    transaction_send-begun start first clock =
        let u = record t { buffer = some bytes; retrans_time = start; retrans_counter = 1 } in
        let started : start_clock coap now (record t { buffer = some bytes }) ≡ u =
          unfold start_clock in ground arith in
        send_ready ∙ ap (reschedule coap located out) started ∙ reschedule_more out u (omega arith)

    -- If the peer is there, the buffer is filled and the clock can be read, the first transmission
    -- of a transaction starts its schedule at the time of the clock: the datagram goes out to the
    -- peer and the next transmission is due 2 seconds later.
    pub transaction_send_first :
        (start : ℕ)
        → t.retrans_counter ≡ 0
        → now ≡ some start
        → (c' : Context Packet) × (t' : Transaction Packet) × (transaction_send coap allocated
              located now c t
            ≡ ok (c', t', 0))
          × (t'.retrans_time ≡ start + 2)
          × OnSchedule start t'
          × (c'.sent ≡ (a, bytes) ∷ c.sent)
    transaction_send_first start first clock = (
      put_transaction coap out (begun start),
      begun start,
      transaction_send-begun start first clock,
      omega arith,
      record { counted = omega arith; not_over = omega arith; due = omega arith },
      sent_out (begun start),
    )

    pub transaction_send-next :
        (start : ℕ)
        → OnSchedule start t
        → t.retrans_counter < max_retransmit
        → transaction_send coap allocated located now c t ≡ (
            let u = record t { buffer = some bytes } in
            ok (put_transaction coap out (next u), next u, 0))
    transaction_send-next start s more =
        let u = record t { buffer = some bytes } in
        let running : start_clock coap now u ≡ u = unfold start_clock in ground arith in
        send_ready ∙ ap (reschedule coap located out) running ∙ reschedule_more out u more

    -- If the peer is there and the buffer is filled, a transaction on schedule that was sent less
    -- than 4 times goes out to the peer once more and stays on schedule, with one transmission more
    -- to its account.
    pub transaction_send_again :
        (start : ℕ)
        → OnSchedule start t
        → t.retrans_counter < max_retransmit
        → (c' : Context Packet) × (t' : Transaction Packet) × (transaction_send coap allocated
              located now c t
            ≡ ok (c', t', 0))
          × (t'.retrans_counter ≡ suc t.retrans_counter)
          × OnSchedule start t'
          × (c'.sent ≡ (a, bytes) ∷ c.sent)
    transaction_send_again start s more =
        let u = record t { buffer = some bytes } in
        (
          put_transaction coap out (next u),
          next u,
          transaction_send-next start s more,
          add-one _,
          record {
            counted = omega arith;
            not_over = omega arith;
            due = omega (arith, square_step t.retrans_counter);
          },
          sent_out (next u),
        )

    -- If the peer is there and the buffer is filled, then at the fourth transmission of a
    -- transaction on schedule the datagram still goes out, and then the transaction gives up: the
    -- result is -1 and the context is what `give_up` leaves.
    pub transaction_send_last :
        (start : ℕ)
        → OnSchedule start t
        → t.retrans_counter ≡ max_retransmit
        → transaction_send coap allocated located now c t ≡ (
            let u = record t { buffer = some bytes } in
            give_up coap located (put_transaction coap out u) u >>= λ c'. ok (c', u, minus_one))
    transaction_send_last start s over =
        let u = record t { buffer = some bytes } in
        let running : start_clock coap now u ≡ u = unfold start_clock in ground arith in
        send_ready ∙ ap (reschedule coap located out) running ∙ (unfold reschedule in rw over)
