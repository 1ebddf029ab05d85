-- ===== src/Callbacks/Live.antt =====
-- Peers that are still there can be read.
use galileom2m.Prelude.{ℕ, ◌≡◌, some, none, [], ◌∷◌, Bool}
use galileom2m.Coap.{Coap, service_unavailable}
use galileom2m.Context.{
  ok, fault, Client, Server, endpoint_client, endpoint_server, Context, Transaction, Notice,
  dm_result, at,
}
use galileom2m.Uri.{Uri}
use galileom2m.Callbacks.{peer_client, peer_server, call_back, dm_result_callback}

module _ (coap : Coap) where
  open coap use {Packet}

  pub peer_client_live :
      (c : Context Packet) (p : ℕ) (k : Client)
      → at (λ k. k.self) p c.client_list ≡ some k
      → peer_client coap c (endpoint_client p) ≡ ok k
  unfolding peer_client
  peer_client_live c p k e = rw e

  pub peer_client_gone :
      (c : Context Packet) (p : ℕ)
      → at (λ k. k.self) p c.client_list ≡ none
      → peer_client coap c (endpoint_client p) ≡ fault
  unfolding peer_client
  peer_client_gone c p e = rw e

  pub peer_server_live :
      (c : Context Packet) (p : ℕ) (s : Server)
      → at (λ s. s.self) p c.server_list ≡ some s
      → peer_server coap c (endpoint_server p) ≡ ok s
  unfolding peer_server
  peer_server_live c p s e = rw e

  -- A device management request without an answer is told as such.
  abbrev pub unanswered : Client → Uri → ℕ → ℕ → Notice
  unanswered k uri callback user_data = record {
    callback = callback;
    client_id = k.internal_id;
    uri = uri;
    status = service_unavailable;
    content = [];
    user_data = user_data;
  }

  pub call_back-dm_result :
      (located : Bool) (c : Context Packet) (t : Transaction Packet) (uri : Uri)
      (callback user_data p : ℕ) (k : Client)
      → t.peer ≡ endpoint_client p
      → at (λ k. k.self) p c.client_list ≡ some k
      → call_back coap located c t (dm_result uri callback user_data) none
        ≡ ok (record c { notices = unanswered k uri callback user_data ∷ c.notices })
  unfolding call_back dm_result_callback
  call_back-dm_result located c t uri callback user_data p k peer live = rw (peer, live)

  -- An answer to a device management request is told with its code and its payload.
  abbrev pub answered : Client → Uri → ℕ → ℕ → Packet → Notice
  answered k uri callback user_data message = record {
    callback = callback;
    client_id = k.internal_id;
    uri = uri;
    status = coap.code message;
    content = coap.payload message;
    user_data = user_data;
  }

  pub call_back-dm_answer :
      (located : Bool) (c : Context Packet) (t : Transaction Packet) (uri : Uri)
      (callback user_data p : ℕ) (k : Client) (message : Packet)
      → t.peer ≡ endpoint_client p
      → at (λ k. k.self) p c.client_list ≡ some k
      → call_back coap located c t (dm_result uri callback user_data) (some message)
        ≡ ok (record c { notices = answered k uri callback user_data message ∷ c.notices })
  unfolding call_back dm_result_callback
  call_back-dm_answer located c t uri callback user_data p k message peer live = rw (peer, live)
