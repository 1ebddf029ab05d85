-- ===== src/Transaction/End.antt =====
-- core/transaction.c and core/management.c: a device management request that nobody answered.
use galileom2m.Prelude.{ℕ, ◌≡◌, refl, Bool, none, some, [], ◌∷◌, arith}
use galileom2m.Coap.{Coap, service_unavailable}
use galileom2m.Context.{ok, Client, endpoint_client, dm_result, Transaction, Context, at, unlink_at}
use galileom2m.Context.Store.{Distinct, at-unlink_at}
use galileom2m.Uri.{Uri}
use galileom2m.Callbacks.Live.{unanswered, call_back-dm_result}
use galileom2m.Transaction.{give_up}

module _ (coap : Coap) where
  open coap use {Packet}

  pub give_up-told :
      (located : Bool) (c : Context Packet) (t : Transaction Packet) (uri : Uri)
      (callback user_data p : ℕ) (k : Client)
      → t.callback ≡ dm_result uri callback user_data
      → t.peer ≡ endpoint_client p
      → at (λ k. k.self) p c.client_list ≡ some k
      → give_up coap located c t
        ≡ ok (record c {
          notices = unanswered coap k uri callback user_data ∷ c.notices;
          transaction_list = unlink_at (λ t. t.self) t.self c.transaction_list;
        })
  unfolding give_up
  give_up-told located c t uri callback user_data p k cb peer live =
      ground (arith, call_back-dm_result coap located c t uri callback user_data p k peer live)

  -- When a device management request gives up while its client is still registered, the
  -- application is told once that the service is unavailable, with the client's id, the uri and the
  -- user data of the request and no content, and the transaction is gone.
  pub give_up-dm_result :
      (located : Bool) (c : Context Packet) (t : Transaction Packet) (uri : Uri)
      (callback user_data p : ℕ) (k : Client)
      → Distinct (λ t. t.self) c.transaction_list
      → t.callback ≡ dm_result uri callback user_data
      → t.peer ≡ endpoint_client p
      → at (λ k. k.self) p c.client_list ≡ some k
      → (c' : Context Packet) × (give_up coap located c t ≡ ok c')
        × (c'.notices
            ≡ record {
              callback = callback;
              client_id = k.internal_id;
              uri = uri;
              status = service_unavailable;
              content = [];
              user_data = user_data;
            }
              ∷ c.notices)
        × (at (λ t. t.self) t.self c'.transaction_list ≡ none)
  give_up-dm_result located c t uri callback user_data p k distinct cb peer live =
      let told = record c { notices = unanswered coap k uri callback user_data ∷ c.notices } in
      (
        record told { transaction_list = unlink_at (λ t. t.self) t.self c.transaction_list },
        give_up-told located c t uri callback user_data p k cb peer live,
        refl,
        ground (arith, at-unlink_at (λ t. t.self) t.self t.self c.transaction_list distinct),
      )
