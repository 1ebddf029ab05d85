-- ===== src/Callbacks/Kept.antt =====
-- The callbacks of transactions keep the clients that are there.
use galileom2m.Prelude.{ℕ, ◌≡◌, refl, Bool, Option, some, List, ◌==◌, if-elim}
use galileom2m.Coap.{Coap, content}
use galileom2m.Context.{
  ok, deref, registered, Client, Observation, Peer, endpoint_unknown, endpoint_bootstrap,
  endpoint_client, endpoint_server, Callback, no_callback, registration_reply, dm_result,
  obs_request, Transaction, Notice, Context, at, store, unlink_at,
}
use galileom2m.Context.Preserve.{
  Returns, ok-Returns, fault-Returns, bind-Returns, any-Returns, deref-Returns, Stable, at-self,
}
use galileom2m.Uri.{Uri}
use galileom2m.Callbacks.{
  notify, peer_client, peer_server, dm_result_callback, observe_code, obs_request_callback,
  handle_registration_reply, call_back,
}

module _ (coap : Coap) (P : List Client → Type 0) (stable : Stable P) where
  open coap use {Packet}

  abbrev pub Kept : Context Packet → Type 0
  Kept c = P c.client_list

  module _ (c : Context Packet) (kept : Kept c) where
    pub peer_client-Returns :
        (peer : Peer)
        → Returns (λ k. at (λ k. k.self) k.self c.client_list ≡ some k) (peer_client coap c peer)
    unfolding peer_client
    peer_client-Returns (endpoint_client p) =
        deref-Returns _ _ (λ k found. at-self p k c.client_list found)
    peer_client-Returns (endpoint_server p) = fault-Returns _
    peer_client-Returns endpoint_unknown = fault-Returns _
    peer_client-Returns endpoint_bootstrap = fault-Returns _

    dm_result_callback-Kept :
        (peer : Peer) (uri : Uri) (callback user_data : ℕ) (message : Option Packet)
        → Returns Kept (dm_result_callback coap c peer uri callback user_data message)
    unfolding dm_result_callback notify
    dm_result_callback-Kept peer uri callback user_data message =
        bind-Returns Kept _ _ _ (peer_client-Returns peer) (λ k found. ok-Returns Kept _ kept)

    -- A client is written with other observations, and the application is told.
    watched :
        (k : Client)
        → at (λ k. k.self) k.self c.client_list ≡ some k
        → (observations : List Observation) (notices : List Notice)
        → Returns Kept (
            ok (record c {
              client_list =
                  store (λ k. k.self) (record k { observation_list = observations }) c.client_list;
              notices = notices;
            }))
    watched k found observations notices =
        ok-Returns Kept _ (
          stable k (record k { observation_list = observations }) c.client_list found refl refl
            kept)

    obs_request_callback-Kept :
        (peer : Peer) (observation : ℕ) (message : Option Packet)
        → Returns Kept (obs_request_callback coap c peer observation message)
    unfolding obs_request_callback notify
    obs_request_callback-Kept peer observation message =
        bind-Returns Kept _ _ _ (peer_client-Returns peer) (λ k found.
          any-Returns Kept (deref (at (λ o. o.self) observation k.observation_list)) _ (λ o.
            if-elim (observe_code coap message == content) (Returns Kept)
              (watched k found
                (store (λ o. o.self) (record o { status = registered }) k.observation_list) _)
              (watched k found (unlink_at (λ o. o.self) observation k.observation_list) _)))

    handle_registration_reply-Kept :
        (allocated : Bool) (peer : Peer) (message : Option Packet)
        → Returns Kept (handle_registration_reply coap allocated c peer message)
    unfolding handle_registration_reply
    handle_registration_reply-Kept allocated peer message =
        any-Returns Kept (peer_server coap c peer) _ (λ s. ok-Returns Kept _ kept)

    pub call_back-Kept :
        (allocated : Bool) (t : Transaction Packet) (callback : Callback) (message : Option Packet)
        → Returns Kept (call_back coap allocated c t callback message)
    unfolding call_back
    call_back-Kept allocated t no_callback message = fault-Returns Kept
    call_back-Kept allocated t (dm_result uri callback user_data) message =
        dm_result_callback-Kept t.peer uri callback user_data message
    call_back-Kept allocated t (obs_request observation) message =
        obs_request_callback-Kept t.peer observation message
    call_back-Kept allocated t registration_reply message =
        handle_registration_reply-Kept allocated t.peer message
