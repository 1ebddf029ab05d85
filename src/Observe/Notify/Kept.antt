-- ===== src/Observe/Notify/Kept.antt =====
-- core/observe.c: the server's side keeps the clients that are there.
use galileom2m.Prelude.{
  ℕ, ◌≡◌, refl, Bool, Option, some, List, ◌&&◌, not, if-elim, Option-elim, Option-elim_by,
  Option-cases, inl, inr, arith, ◌+◌, ◌%◌, ◌^◌,
}
use galileom2m.Coap.{Coap, rst, bad_request, not_found, internal_server_error, coap_get}
use galileom2m.Context.{ok, endpoint_client, Address, Client, Context, at}
use galileom2m.Context.Preserve.{Returns, ok-Returns, bind-Returns, Stable}
use galileom2m.LinkedList.{list_find}
use galileom2m.Uri.{Uri, is_set_instance, is_set_resource}
use galileom2m.Transaction.{buffer_send, transaction_new}
use galileom2m.Transaction.Kept.{KeptWith, transaction_send-Kept}
use galileom2m.Observe.Notify.{
  message_send, observe, observe_cancel, notified, token_id, handle_observe_notify,
  find_observation_by_uri,
}

module _ (coap : Coap) where
  open coap use {Packet}

  pub message_send-client_list :
      (c : Context Packet) (message : Packet) (addr : Address)
      → (message_send coap c message addr).client_list ≡ c.client_list
  unfolding message_send buffer_send
  message_send-client_list c message addr = ground arith

  notified-client_list :
      (c : Context Packet) (from : Address) (message : Packet) (client_id observation_id count : ℕ)
      → (notified coap c from message client_id observation_id count).client_list ≡ c.client_list
  unfolding notified
  notified-client_list c from message client_id observation_id count =
      ground (arith, message_send-client_list c (coap.init_message rst 0 (coap.mid message)) from)

  pub handle_observe_notify-client_list :
      (c : Context Packet) (from : Address) (message : Packet)
      → (handle_observe_notify coap c from message).client_list ≡ c.client_list
  unfolding handle_observe_notify
  handle_observe_notify-client_list c from message = elim (Option-cases (coap.observe message)) [
    | inl unasked ↦ ground arith
    | inr (count, asked) ↦ ground (
      arith,
      notified-client_list c from message (token_id (coap.token message) 0)
          (token_id (coap.token message) 2) count,
    )
  ]

module _ (coap : Coap) (P : List Client → Type 0) (stable : Stable P)
    (named : (clients : List Client) (id : ℕ) (k : Client)
      → P clients
      → list_find (λ k. k.internal_id) clients id ≡ some k
      → at (λ k. k.self) k.self clients ≡ some k)
    (c : Context coap.Packet) (kept : P c.client_list) where
  open coap use {Packet}

  abbrev pub KeptResult : Context Packet × ℕ → Type 0
  KeptResult a = P a.0.client_list

  pub observe-Kept :
      (observation transaction : Option ℕ) (message allocated located : Bool) (now : Option ℕ)
      (client_id : ℕ) (uri : Uri) (callback user_data : ℕ)
      → Returns KeptResult (
          observe coap observation transaction message allocated located now c client_id uri
            callback user_data)
  unfolding observe
  observe-Kept observation transaction message allocated located now client_id uri callback
        user_data =
      let same : (status : ℕ) → Returns KeptResult (ok (c, status)) =
        λ status. ok-Returns KeptResult (c, status) kept in
      let c' = record c { next_mid = (c.next_mid + 1) % 2 ^ 16 } in
      if-elim (not (is_set_instance uri) && is_set_resource uri) (Returns KeptResult)
        (same bad_request)
        (Option-elim_by (list_find (λ k. k.internal_id) c.client_list client_id)
          (Returns KeptResult) (same not_found)
          (λ k found.
            Option-elim observation (Returns KeptResult) (same internal_server_error) (λ a.
              Option-elim
                (transaction_new coap transaction message coap_get (some uri) c.next_mid
                  (endpoint_client k.self))
                (Returns KeptResult) (ok-Returns KeptResult (c', internal_server_error) kept)
                (λ t.
                  bind-Returns KeptResult (KeptWith coap P stable) _ _
                    (transaction_send-Kept coap P stable allocated located now _ _ (
                      stable k _ c.client_list (named c.client_list client_id k kept found) refl
                        refl kept))
                    (λ r kept'. ok-Returns KeptResult (r.0, r.2) kept')))))

  pub observe_cancel-Kept :
      (client_id : ℕ) (uri : Uri) → KeptResult (observe_cancel coap c client_id uri)
  unfolding observe_cancel
  observe_cancel-Kept client_id uri =
      Option-elim_by (list_find (λ k. k.internal_id) c.client_list client_id) KeptResult kept
        (λ k found.
          Option-elim (find_observation_by_uri k.observation_list uri) KeptResult kept (λ o.
            stable k _ c.client_list (named c.client_list client_id k kept found) refl refl kept))
