-- ===== src/Observe/Notify.antt =====
-- core/observe.c: `lwm2m_resource_value_changed`, and the observations that a server keeps of its
-- clients.
pub mod Told
pub mod Kept
pub mod Changed
use galileom2m.Prelude.{
  ℕ, ◌+◌, ◌*◌, ◌/◌, ◌%◌, ◌^◌, bit_or, Bool, Option, none, some, List, [], ◌∷◌, ◌==◌, ◌&&◌, not,
  if◌then◌else◌, length, get_or,
}
use galileom2m.Coap.{
  Coap, ack, rst, changed, content, bad_request, not_found, internal_server_error, coap_get,
}
use galileom2m.Context.{
  Run, ok, ◌>>=◌, deref, Address, reg_pending, Observation, Client, Watcher, Observed,
  endpoint_client, obs_request, Context, at, store, unlink_at,
}
use galileom2m.LinkedList.{list_add, list_find, list_new_id}
use galileom2m.Uri.{Uri, is_set_instance, is_set_resource}
use galileom2m.Objects.{Object, object_read}
use galileom2m.Transaction.{buffer_send, transaction_new, transaction_send}
use galileom2m.Observe.{get_observed_list}

-- The observation of exactly this uri.
pub find_observation_by_uri : List Observation → Uri → Option Observation
find_observation_by_uri [] uri = none
find_observation_by_uri (o ∷ observations) uri =
    if o.uri.object_id == uri.object_id
      && (o.uri.flag == uri.flag
          && (o.uri.instance_id == uri.instance_id && o.uri.resource_id == uri.resource_id))
    then some o
    else find_observation_by_uri observations uri

-- `clientP->internalID` and `observationP->id` as the four bytes of a token.
pub observe_token : ℕ → ℕ → List ℕ
observe_token client_id observation_id =
    client_id / 2 ^ 8 % 256
    ∷ client_id % 256
    ∷ observation_id / 2 ^ 8 % 256
    ∷ observation_id % 256
    ∷ []

-- `(tokenP[i] << 8) | tokenP[i + 1]`, in 16 bits.
pub token_id : List ℕ → ℕ → ℕ
token_id token i = bit_or (get_or token i 0 * 2 ^ 8) (get_or token (i + 1) 0) % 2 ^ 16

module _ (coap : Coap) where
  open coap use {Packet}

  unfoldable pub message_send : Context Packet → Packet → Address → Context Packet
  message_send c message addr = elim (coap.serialize message) [
    | [] ↦ c
    | b ∷ bytes ↦ buffer_send coap c addr (b ∷ bytes)
  ]

  -- The loop over the watchers of one entry, with the watchers as they are left.
  notify_watchers : Context Packet → Packet → List Watcher → Run (Context Packet × List Watcher)
  notify_watchers c message [] = ok (c, [])
  notify_watchers c message (w ∷ watchers) =
      let mid = c.next_mid in
      let message' =
        coap.set_observe (coap.set_token (coap.set_mid message mid) w.token) w.counter in
      do
        s ← deref (at (λ s. s.self) w.server c.server_list)
        (c', rest) ←
            notify_watchers
              (message_send (record c { next_mid = (mid + 1) % 2 ^ 16 }) message' s.addr) message'
              watchers
        ok (c', record w { last_mid = mid; counter = (w.counter + 1) % 2 ^ 32 } ∷ rest)

  -- The loop over the entries that are concerned. The callbacks that read act on `S`.
  changed_loop :
      {S : Type 0} → List (Object S) → Context Packet → S → List Observed → Run (Context Packet × S)
  unfolding notify_watchers
  changed_loop objects c s [] = ok (c, s)
  changed_loop objects c s (o ∷ observed) =
      let (status, bytes, s') = object_read objects o.uri s in
      let message = coap.set_payload (coap.init_message ack changed 0) bytes in
      let quiet = changed_loop objects c s' observed in
      let told = notify_watchers c message o.watcher_list >>= λ r.
      changed_loop objects
        (record (r.0) {
          observed_list = store (λ o. o.self) (record o { watcher_list = r.1 }) c.observed_list;
        })
        s' observed in
      if status == content then told else quiet

  pub resource_value_changed :
      {S : Type 0}
      → (ℕ → Bool)
      → List (Object S)
      → Context Packet
      → S
      → Uri
      → Run (Context Packet × S)
  unfolding changed_loop
  resource_value_changed allocated objects c s uri =
      changed_loop objects c s (get_observed_list allocated c.observed_list uri)

  unfoldable pub new_observation : ℕ → Client → Uri → ℕ → ℕ → Observation
  new_observation address k uri callback user_data = record {
    self = address;
    id = list_new_id (λ o. o.id) k.observation_list;
    uri = uri;
    status = reg_pending;
    callback = callback;
    user_data = user_data;
  }

  -- The observe request of a server to a client. `observation`, `transaction` are what `malloc`
  -- returns, `message` whether it has memory for the message; the rest is for `transaction_send`.
  pub observe :
      (observation transaction : Option ℕ) (message allocated located : Bool) (now : Option ℕ)
      → Context Packet
      → ℕ
      → Uri
      → ℕ
      → ℕ
      → Run (Context Packet × ℕ)
  unfolding new_observation
  observe observation transaction message allocated located now c client_id uri callback user_data =
      if not (is_set_instance uri) && is_set_resource uri
      then ok (c, bad_request)
      else elim (list_find (λ k. k.internal_id) c.client_list client_id) [
        | none ↦ ok (c, not_found)
        | some k ↦ elim observation [
          | none ↦ ok (c, internal_server_error)
          | some a ↦
              (let c' = record c { next_mid = (c.next_mid + 1) % 2 ^ 16 } in
                elim (transaction_new coap transaction message coap_get (some uri) c.next_mid
                  (endpoint_client k.self)) [
                    | none ↦ ok (c', internal_server_error)
                    | some t ↦
                        (let o = new_observation a k uri callback user_data in
                          let t' = record t {
                            message =
                                coap.set_token (coap.set_observe t.message 0)
                                  (observe_token k.internal_id o.id);
                            callback = obs_request a;
                          } in
                          let k' = record k {
                            observation_list = list_add (λ o. o.id) k.observation_list o;
                          } in
                          transaction_send coap allocated located now
                            (record c' {
                              client_list = store (λ k. k.self) k' c.client_list;
                              transaction_list = list_add (λ t. t.mid) c.transaction_list t';
                            })
                            t'
                          >>= λ r. ok (r.0, r.2))
                  ])
        ]
      ]

  pub observe_cancel : Context Packet → ℕ → Uri → Context Packet × ℕ
  observe_cancel c client_id uri = elim (list_find (λ k. k.internal_id) c.client_list client_id) [
    | none ↦ (c, not_found)
    | some k ↦ elim (find_observation_by_uri k.observation_list uri) [
      | none ↦ (c, not_found)
      | some o ↦
          (let k' = record k {
            observation_list = unlink_at (λ o. o.self) o.self k.observation_list;
          } in
            (record c { client_list = store (λ k. k.self) k' c.client_list }, 0))
    ]
  ]

  -- A notification of a client: `count` is the value of its observe option.
  notified : Context Packet → Address → Packet → ℕ → ℕ → ℕ → Context Packet
  notified c from message client_id observation_id count =
      elim (list_find (λ k. k.internal_id) c.client_list client_id) [
        | none ↦ c
        | some k ↦ elim (list_find (λ o. o.id) k.observation_list observation_id) [
          | none ↦ message_send c (coap.init_message rst 0 (coap.mid message)) from
          | some o ↦ record c {
            notices =
                record {
                  callback = o.callback;
                  client_id = client_id;
                  uri = o.uri;
                  status = count;
                  content = coap.payload message;
                  user_data = o.user_data;
                }
                ∷ c.notices;
          }
        ]
      ]

  pub handle_observe_notify : Context Packet → Address → Packet → Context Packet
  unfolding notified
  handle_observe_notify c from message =
      if length (coap.token message) == 4
      then elim (coap.observe message) [
        | none ↦ c
        | some count ↦
            notified c from message (token_id (coap.token message) 0)
              (token_id (coap.token message) 2) count
      ]
      else c
