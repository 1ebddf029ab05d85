-- ===== src/Callbacks.antt =====
-- The functions that a transaction calls with a response, or with NULL when it gives up:
-- `dm_result_callback` of core/management.c, `prv_obsRequestCallback` of core/observe.c and
-- `prv_handleRegistrationReply` of core/registration.c. They run on the whole context.
mod Examples
pub mod Live
pub mod Kept
pub mod Reply
use galileom2m.Prelude.{
  ℕ, Bool, true, false, Option, none, some, List, [], ◌∷◌, ◌==◌, ◌&&◌, if◌then◌else◌, is_some, not,
  length,
}
use galileom2m.Coap.{
  Coap, MessageType, ack, content, created, bad_request, method_not_allowed, service_unavailable,
}
use galileom2m.Context.{
  Run, ok, fault, ◌>>=◌, deref, Status, unknown, reg_pending, registered, Server, Client,
  Observation, Peer, endpoint_unknown, endpoint_bootstrap, endpoint_client, endpoint_server,
  Callback, no_callback, registration_reply, dm_result, obs_request, Transaction, Context, Notice,
  at, store, unlink_at,
}
use galileom2m.Uri.{Uri}

is_ack : MessageType → Bool
is_ack MessageType.ack = true
is_ack MessageType.con = false
is_ack MessageType.non = false
is_ack MessageType.rst = false

is_empty : List ℕ → Bool
is_empty [] = true
is_empty (b ∷ bytes) = false

observe_notice : Client → Observation → ℕ → List ℕ → Notice
observe_notice client o code bytes = record {
  callback = o.callback;
  client_id = client.internal_id;
  uri = o.uri;
  status = code;
  content = bytes;
  user_data = o.user_data;
}

module _ (coap : Coap) where
  open coap use {Packet}

  pub notify : Context Packet → Notice → Context Packet
  notify c n = record c { notices = n ∷ c.notices }

  -- A `peerP` that is read as a client, or as a server.
  pub peer_client : Context Packet → Peer → Run Client
  peer_client c (endpoint_client p) = deref (at (λ k. k.self) p c.client_list)
  peer_client c (endpoint_server p) = fault
  peer_client c endpoint_unknown = fault
  peer_client c endpoint_bootstrap = fault

  pub peer_server : Context Packet → Peer → Run Server
  peer_server c (endpoint_server p) = deref (at (λ s. s.self) p c.server_list)
  peer_server c (endpoint_client p) = fault
  peer_server c endpoint_unknown = fault
  peer_server c endpoint_bootstrap = fault

  pub response_code : Option Packet → ℕ
  response_code none = service_unavailable
  response_code (some p) = coap.code p

  pub response_payload : Option Packet → List ℕ
  response_payload none = []
  response_payload (some p) = coap.payload p

  pub dm_result_callback :
      Context Packet → Peer → Uri → ℕ → ℕ → Option Packet → Run (Context Packet)
  unfolding notify peer_client response_code response_payload
  dm_result_callback c peer uri callback user_data message = do
    client ← peer_client c peer
    ok (
        notify c (record {
          callback = callback;
          client_id = client.internal_id;
          uri = uri;
          status = response_code message;
          content = response_payload message;
          user_data = user_data;
        }))

  -- What the client answered to an observe request.
  observe_code : Option Packet → ℕ
  observe_code none = service_unavailable
  observe_code (some p) =
      if coap.code p == content && not (is_some (coap.observe p))
      then method_not_allowed
      else coap.code p

  pub obs_request_callback : Context Packet → Peer → ℕ → Option Packet → Run (Context Packet)
  unfolding notify peer_client observe_code response_payload observe_notice
  obs_request_callback c peer observation message = do
    client ← peer_client c peer
    o ← deref (at (λ o. o.self) observation client.observation_list)
    let code = observe_code message
    let told = λ (bytes : List ℕ). notify c (observe_notice client o code bytes)
    if code == content
        then ok (record (told (response_payload message)) {
          client_list =
              store (λ k. k.self)
                (record client {
                  observation_list =
                      store (λ o. o.self) (record o { status = registered })
                        client.observation_list;
                })
                c.client_list;
        })
        else ok (record (told []) {
          client_list =
              store (λ k. k.self)
                (record client {
                  observation_list = unlink_at (λ o. o.self) observation client.observation_list;
                })
                c.client_list;
        })

  -- The status machine of a server, as its registration is answered. `allocated` is the outcome of
  -- the `malloc` for the location.
  reply_pending : Bool → Server → Option Packet → Server
  unfolding is_ack is_empty
  reply_pending allocated s none = record s { status = unknown; mid = 0 }
  reply_pending allocated s (some p) =
      if coap.mid p == s.mid && is_ack (coap.type p) && not (is_empty (coap.location_path p))
      then if coap.code p == created
        then record s {
          status = registered;
          location = if allocated then some (coap.location_path p) else none;
        }
        else if coap.code p == bad_request
        then record s { status = unknown; mid = 0 }
        else s
      else s

  pub server_reply : Bool → Server → Status → Option Packet → Server
  server_reply allocated s reg_pending message = reply_pending allocated s message
  server_reply allocated s unknown message = s
  server_reply allocated s registered message = s

  pub handle_registration_reply :
      Bool → Context Packet → Peer → Option Packet → Run (Context Packet)
  unfolding peer_server
  handle_registration_reply allocated c peer message = do
    s ← peer_server c peer
    ok (record c {
      server_list = store (λ s. s.self) (server_reply allocated s s.status message) c.server_list;
    })

  -- `transacP->callback(transacP, message)`, a fault if the callback is NULL.
  pub call_back :
      Bool → Context Packet → Transaction Packet → Callback → Option Packet → Run (Context Packet)
  call_back allocated c t no_callback message = fault
  call_back allocated c t (dm_result uri callback user_data) message =
      dm_result_callback c t.peer uri callback user_data message
  call_back allocated c t (obs_request observation) message =
      obs_request_callback c t.peer observation message
  call_back allocated c t registration_reply message =
      handle_registration_reply allocated c t.peer message
