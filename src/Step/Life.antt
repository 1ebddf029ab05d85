-- ===== src/Step/Life.antt =====
-- core/liblwm2m.c and core/transaction.c: a device management request that is never answered, from
-- the first pass to its end.
use galileom2m.Prelude.{
  ℕ, ◌+◌, ◌≤◌, ◌≡◌, refl, ap, ◌∙◌, Bool, true, some, none, List, [], ◌∷◌, arith, ◌*◌, ◌<◌, leb,
  Option, ◌-◌,
}
use galileom2m.Coap.{Coap, max_retransmit}
use galileom2m.Context.{
  Run, ok, ◌>>=◌, minus_one, Address, Client, endpoint_client, dm_result, Transaction, Context, at,
  store,
}
use galileom2m.Context.Store.{unlink_at-only}
use galileom2m.Uri.{Uri}
use galileom2m.Callbacks.Live.{unanswered}
use galileom2m.Transaction.{give_up, transaction_send, put_transaction, buffer_send, fill_buffer}
use galileom2m.Transaction.Schedule.{
  OnSchedule, fill_buffer-serialize, fill_buffer-some, transaction_send-begun,
  transaction_send-next, transaction_send_last,
}
use galileom2m.Transaction.End.{give_up-told}
use galileom2m.Step.{System, send_if_due, step_loop, step}

-- All memory is there, and the clock is at `now`.
abbrev pub system_at : ℕ → Bool → System
system_at now located = record {
  allocated = λ t. true;
  located = λ t. located;
  clock = λ t. some now;
}

store-only :
    {Packet : Type 0} (t u : Transaction Packet)
    → t.self ≡ u.self
    → store (λ t. t.self) u (t ∷ []) ≡ u ∷ []
unfolding store
store-only t u same = ground arith

module _ (coap : Coap) (located : Bool) where
  open coap use {Packet}

  -- Calls of `lwm2m_step` at these times, each with a minute to wait.
  unfoldable pub passes : List ℕ → Context Packet → Run (Context Packet)
  passes [] c = ok c
  passes (now ∷ later) c = do
    (c', timeout, result) ← step coap (system_at now located) (some now) c 60
    passes later c'

  pass_due :
      (now : ℕ) (later : List ℕ) (c c' : Context Packet) (t t' : Transaction Packet) (removed : ℕ)
      → t.retrans_time ≤ now
      → transaction_send coap true located (some now) (record c { transaction_list = t ∷ [] }) t
        ≡ ok (c', t', removed)
      → passes (now ∷ later) (record c { transaction_list = t ∷ [] }) ≡ passes later c'
  unfolding passes step step_loop send_if_due
  pass_due now later c c' t t' removed due sent =
      let is_due : leb t.retrans_time now ≡ true = ground arith in
      let round : send_if_due coap (system_at now located) now
            (record c { transaction_list = t ∷ [] }) t
          ≡ ok (c', t', removed) =
        rw (is_due, send_if_due) sent in
      rw (round, step_loop) refl

  -- The transaction of a device management request to `k`.
  module _ (c : Context Packet) (k : Client) (self mid : ℕ) (message : Packet) (uri : Uri)
      (callback user_data b : ℕ) (bytes : List ℕ)
      (live : at (λ k. k.self) k.self c.client_list ≡ some k)
      (written : coap.serialize message ≡ b ∷ bytes) where
    -- The request after it was sent.
    abbrev stage : ℕ → ℕ → Option (List ℕ) → Transaction Packet
    stage counter time buffer = record {
      self = self;
      mid = mid;
      peer = endpoint_client k.self;
      retrans_counter = counter;
      retrans_time = time;
      message = message;
      buffer = buffer;
      callback = dm_result uri callback user_data;
    }

    abbrev sent_to : ℕ → ℕ → Transaction Packet
    sent_to counter time = stage counter time (some (b ∷ bytes))

    abbrev holding : Transaction Packet → List (Address × List ℕ) → Context Packet
    holding u sent = record c { transaction_list = u ∷ []; sent = sent }

    -- The context after a transmission.
    transmitted :
        (counter time counter' time' : ℕ) (buffer : Option (List ℕ))
        (sent : List (Address × List ℕ))
        → put_transaction coap
            (buffer_send coap
              (put_transaction coap
                (holding (stage counter time buffer) sent)
                (sent_to counter time))
              k.addr
              (b ∷ bytes))
            (sent_to counter' time')
          ≡ holding (sent_to counter' time') ((k.addr, b ∷ bytes) ∷ sent)
    unfolding put_transaction buffer_send
    transmitted counter time counter' time' buffer sent =
        rw
          (
            store-only (stage counter time buffer) (sent_to counter time) refl,
            store-only (sent_to counter time) (sent_to counter' time') refl,
          )
          refl

    ready :
        (counter time : ℕ)
        → fill_buffer coap true (sent_to counter time) (some (b ∷ bytes)) ≡ some (b ∷ bytes)
    ready counter time = fill_buffer-some coap true (sent_to counter time) (b ∷ bytes)

    pass_again :
        (start counter time now : ℕ) (later : List ℕ) (sent : List (Address × List ℕ))
        → OnSchedule coap start (sent_to counter time)
        → counter < max_retransmit
        → time ≤ now
        → passes (now ∷ later) (holding (sent_to counter time) sent)
          ≡ passes later
              (holding (sent_to (counter + 1) (time + 2 * counter)) ((k.addr, b ∷ bytes) ∷ sent))
    pass_again start counter time now later sent on more due =
        let u = sent_to counter time in
        pass_due now later (holding u sent) _ u _ 0 due (
          transaction_send-next coap (holding u sent) u (b ∷ bytes) k.addr true located (some now)
            (k, live, refl) (ready counter time) start on more)
        ∙ ap (passes later)
            (transmitted counter time (counter + 1) (time + 2 * counter) (some (b ∷ bytes)) sent)

    pass_first :
        (time start : ℕ) (later : List ℕ) (sent : List (Address × List ℕ))
        → time ≤ start
        → passes (start ∷ later) (holding (stage 0 time none) sent)
          ≡ passes later (holding (sent_to 2 (start + 2)) ((k.addr, b ∷ bytes) ∷ sent))
    pass_first time start later sent due =
        let u = stage 0 time none in
        pass_due start later (holding u sent) _ u _ 0 due (
          transaction_send-begun coap (holding u sent) u (b ∷ bytes) k.addr true located
            (some start) (k, live, refl) (fill_buffer-serialize coap u b bytes written) start refl
            refl)
        ∙ ap (passes later) (transmitted 0 time 2 (start + 2) none sent)

    pass_last :
        (start time now : ℕ) (sent : List (Address × List ℕ))
        → OnSchedule coap start (sent_to 4 time)
        → time ≤ now
        → passes (now ∷ []) (holding (sent_to 4 time) sent)
          ≡ ok (record c {
            transaction_list = [];
            sent = (k.addr, b ∷ bytes) ∷ sent;
            notices = unanswered coap k uri callback user_data ∷ c.notices;
          })
    unfolding passes
    pass_last start time now sent on due =
        let u = sent_to 4 time in
        let d = holding u ((k.addr, b ∷ bytes) ∷ sent) in
        let given_up : give_up coap located d u
            ≡ ok (record d {
              notices = unanswered coap k uri callback user_data ∷ c.notices;
              transaction_list = [];
            }) =
          give_up-told coap located d u uri callback user_data k.self k refl refl live
          ∙ ap
              (λ ts. ok (record d {
                notices = unanswered coap k uri callback user_data ∷ c.notices;
                transaction_list = ts;
              }))
              (unlink_at-only (λ t. t.self) u) in
        pass_due now [] (holding u sent) _ u _ minus_one due (
          transaction_send_last coap (holding u sent) u (b ∷ bytes) k.addr true located (some now)
            (k, live, refl) (ready 4 time) start on refl
          ∙ ap (λ e. give_up coap located e u >>= λ c'. ok (c', u, minus_one))
              (transmitted 4 time 4 time (some (b ∷ bytes)) sent)
          ∙ ap (λ r. r >>= λ c'. ok (c', u, minus_one)) given_up)

    -- A device management request to a client that is there, unsent and the only transaction,
    -- whose message can be serialized, and which is never answered: if `lwm2m_step` is called at
    -- the time `start` and then at times at least 2, 6 and 12 seconds after `start`, with memory
    -- and a clock, the datagram goes out four times to the client, and then the application is
    -- told once that the service is unavailable and no transaction is left. Nothing else has
    -- changed.
    pub passes-unanswered :
        (start second third fourth : ℕ) (sent : List (Address × List ℕ))
        → start + 2 ≤ second
        → start + 6 ≤ third
        → start + 12 ≤ fourth
        → passes (start ∷ second ∷ third ∷ fourth ∷ []) (holding (stage 0 0 none) sent) ≡ (
            let datagram : Address × List ℕ = (k.addr, b ∷ bytes) in
            ok (record c {
              transaction_list = [];
              sent = datagram ∷ datagram ∷ datagram ∷ datagram ∷ sent;
              notices = unanswered coap k uri callback user_data ∷ c.notices;
            }))
    passes-unanswered start second third fourth sent h2 h3 h4 =
        let on : (counter time : ℕ)
            → 1 ≤ counter
            → counter ≤ max_retransmit
            → time ≡ start + counter * (counter - 1)
            → OnSchedule coap start (sent_to counter time) =
          λ counter time counted not_over due. record {
            counted = counted;
            not_over = not_over;
            due = due;
          } in
        pass_first 0 start (second ∷ third ∷ fourth ∷ []) sent (omega arith)
        ∙ pass_again start 2 (start + 2) second (third ∷ fourth ∷ []) _
            (on 2 (start + 2) (omega arith) (omega arith) (omega arith)) (omega arith) h2
        ∙ pass_again start 3 (start + 2 + 4) third (fourth ∷ []) _
            (on 3 (start + 2 + 4) (omega arith) (omega arith) (omega arith)) (omega arith)
            (omega arith)
        ∙ pass_last start (start + 2 + 4 + 6) fourth _
            (on 4 (start + 2 + 4 + 6) (omega arith) (omega arith) (omega arith)) (omega arith)
