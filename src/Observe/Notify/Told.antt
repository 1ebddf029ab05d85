-- ===== src/Observe/Notify/Told.antt =====
-- core/observe.c: from the observe request of a server to the notification that reaches the application.
use galileom2m.Prelude.{
  ℕ, ◌+◌, ◌*◌, ◌/◌, ◌%◌, ◌^◌, ◌<◌, ◌≡◌, refl, ap, ◌∙◌, bit_or, Bool, true, false, not, ◌&&◌, none,
  some, List, ◌∷◌, arith, length, same_below, same_at,
}
use galileom2m.Coap.{Coap, coap_get}
use galileom2m.Context.{
  ok, Address, Observation, Client, endpoint_client, obs_request, Transaction, Context, at, store,
}
use galileom2m.Context.Store.{at-store}
use galileom2m.LinkedList.{list_add, list_find, list_new_id}
use galileom2m.LinkedList.Order.{Rises, list_find-list_add}
use galileom2m.LinkedList.NewId.{list_new_id-Lowest}
use galileom2m.Uri.{Uri, is_set_instance, is_set_resource}
use galileom2m.Registration.Clients.{key, self_of, ClientsValid, ClientsValid-Stable, list_find-at}
use galileom2m.Transaction.{request, transaction_new, fill_buffer, buffer_send, put_transaction}
use galileom2m.Transaction.Schedule.{fill_buffer-serialize, transaction_send-begun, begun, out}
use galileom2m.Observe.Notify.{
  new_observation, observe_token, token_id, observe, notified, handle_observe_notify,
}

token_value : ℕ → ℕ
token_value n = bit_or (n / 2 ^ 8 % 256 * 2 ^ 8) (n % 256) % 2 ^ 16

token_value-id : (n : ℕ) → n < 65536 → token_value n ≡ n
unfolding token_value same_below
token_value-id n h =
    same_at (λ x. bit_or (x / 2 ^ 8 % 256 * 2 ^ 8) (x % 256) % 2 ^ 16) (λ x. x) 65536 n h refl

-- The token that names a client and an observation, with ids of 16 bits, is read as these.
token_id-observe_token :
    (client_id observation_id : ℕ)
    → client_id < 65536
    → observation_id < 65536
    → (token_id (observe_token client_id observation_id) 0 ≡ client_id)
      × (token_id (observe_token client_id observation_id) 2 ≡ observation_id)
unfolding token_id observe_token token_value
token_id-observe_token client_id observation_id h k =
    (token_value-id client_id h, token_value-id observation_id k)

-- A notification with the token of an observation that is there.
handle_observe_notify-told :
    (coap : Coap) (c : Context (coap.Packet)) (from : Address) (message : coap.Packet)
    (count client_id observation_id : ℕ) (k : Client) (o : Observation)
    → coap.token message ≡ observe_token client_id observation_id
    → coap.observe message ≡ some count
    → client_id < 65536
    → observation_id < 65536
    → list_find key c.client_list client_id ≡ some k
    → list_find (λ (o : Observation). o.id) k.observation_list observation_id ≡ some o
    → handle_observe_notify coap c from message ≡ record c {
      notices =
          record {
            callback = o.callback;
            client_id = client_id;
            uri = o.uri;
            status = count;
            content = coap.payload message;
            user_data = o.user_data;
          }
          ∷ c.notices;
    }
unfolding handle_observe_notify notified
handle_observe_notify-told coap c from message count client_id observation_id k o tokened counted
      small low found found_in =
    let (client_part, observation_part) =
      token_id-observe_token client_id observation_id small low in
    let four : length (observe_token client_id observation_id) ≡ 4 = unfold observe_token in refl in
    let client_read = ap (λ (t : List ℕ). token_id t 0) tokened ∙ client_part in
    let observation_read = ap (λ (t : List ℕ). token_id t 2) tokened ∙ observation_part in
    let size : length (coap.token message) ≡ 4 = ap length tokened ∙ four in
    ground (arith, size, counted, client_read, observation_read, found, found_in)

module _ (coap : Coap) (c : Context (coap.Packet)) (k : Client) (uri : Uri)
    (callback user_data observation address start b : ℕ) (bytes : List ℕ) (located : Bool)
    (valid : ClientsValid c.client_list) (live : at self_of k.self c.client_list ≡ some k)
    (small : key k < 65536) (rises : Rises (λ (o : Observation). o.id) k.observation_list)
    (few : length k.observation_list < 65536)
    (named : (not (is_set_instance uri) && is_set_resource uri) ≡ false) where
  open coap use {Packet}

  abbrev watched : Observation
  watched = new_observation coap observation k uri callback user_data

  -- The client with its new observation.
  abbrev watching : Client
  watching = record k { observation_list = list_add (λ o. o.id) k.observation_list watched }

  -- The request, before it is sent.
  abbrev pub observing : Transaction Packet
  observing = record {
    self = address;
    mid = c.next_mid;
    peer = endpoint_client k.self;
    retrans_counter = 0;
    retrans_time = 0;
    message =
        coap.set_token (coap.set_observe (request coap coap_get (some uri) c.next_mid) 0)
          (observe_token k.internal_id watched.id);
    buffer = none;
    callback = obs_request observation;
  }

  abbrev queued : Context Packet
  queued = record c {
    next_mid = (c.next_mid + 1) % 2 ^ 16;
    client_list = store self_of watching c.client_list;
    transaction_list = list_add (λ t. t.mid) c.transaction_list observing;
  }

  stored : at self_of k.self queued.client_list ≡ some watching
  stored = ground (arith, at-store self_of k.self watching c.client_list, live)

  module _ (written : coap.serialize observing.message ≡ b ∷ bytes) where
    filled : fill_buffer coap true observing none ≡ some (b ∷ bytes)
    filled = fill_buffer-serialize coap observing b bytes written

    abbrev sent : Transaction Packet
    sent =
        begun coap queued observing (b ∷ bytes) k.addr true located (some start)
          (watching, stored, refl) filled start

    abbrev observed : Context Packet
    observed =
        put_transaction coap
          (out coap queued observing (b ∷ bytes) k.addr true located (some start)
            (watching, stored, refl) filled)
          sent

    observe-observed :
        observe coap
          (some observation)
          (some address)
          true
          true
          located
          (some start)
          c
          (key k)
          uri
          callback
          user_data
        ≡ ok (observed, 0)
    unfolding observe transaction_new
    observe-observed =
        rw (list_find-at 0 c.client_list k valid.rises live, observe, named)
          (rw
            (transaction_send-begun coap queued observing (b ∷ bytes) k.addr true located
              (some start) (watching, stored, refl) filled start refl refl)
            refl)

    found_client : list_find key observed.client_list (key k) ≡ some watching
    unfolding put_transaction buffer_send
    found_client =
        let kept = ClientsValid-Stable k watching c.client_list live refl refl valid in
        list_find-at 0 queued.client_list watching kept.rises stored

    abbrev lowest : ℕ
    lowest = list_new_id (λ o. o.id) k.observation_list

    lowest_free : (list_find (λ o. o.id) k.observation_list lowest ≡ none) × (lowest < 65536)
    lowest_free =
        let (free, used, at_most) = list_new_id-Lowest (λ o. o.id) k.observation_list rises few in
        (free, omega arith)

    found_observation : list_find (λ o. o.id) watching.observation_list lowest ≡ some watched
    unfolding new_observation
    found_observation = ground (
      arith,
      list_find-list_add (λ o. o.id) k.observation_list watched lowest rises lowest_free.0,
    )

    -- An observe request of the server, on a client of a valid list with a 16-bit id and fewer than
    -- 65536 observations, of an uri that does not name a resource without an instance, where there is
    -- memory for everything, the clock can be read and the message can be serialized: it goes out to
    -- the client, and any message that comes back with an observe option and the token that was sent
    -- is told to the application once, by the callback and for the uri of that request, with the
    -- option's value and the message's payload, and nothing else changes.
    pub handle_observe_notify-observe :
        (message : Packet) (from : Address) (count : ℕ)
        → coap.token message ≡ observe_token (key k) (list_new_id (λ o. o.id) k.observation_list)
        → coap.observe message ≡ some count
        → (c' : Context Packet) × (observe coap
              (some observation)
              (some address)
              true
              true
              located
              (some start)
              c
              (key k)
              uri
              callback
              user_data
            ≡ ok (c', 0))
          × (c'.sent ≡ (k.addr, b ∷ bytes) ∷ c.sent)
          × (handle_observe_notify coap c' from message ≡ record c' {
            notices =
                record {
                  callback = callback;
                  client_id = key k;
                  uri = uri;
                  status = count;
                  content = coap.payload message;
                  user_data = user_data;
                }
                ∷ c'.notices;
          })
    unfolding handle_observe_notify notified put_transaction buffer_send new_observation
    handle_observe_notify-observe message from count tokened counted = (
      observed,
      observe-observed,
      refl,
      handle_observe_notify-told coap observed from message count (key k) lowest watching watched
          tokened counted small lowest_free.1 found_client found_observation,
    )
