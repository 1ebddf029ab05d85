-- ===== src/Packet/Answers.antt =====
-- core/packet.c: who can answer a request, and what an answer does.
use galileom2m.Prelude.{
  ℕ, ◌≡◌, refl, ap, ◌∙◌, Bool, true, none, some, ◌∷◌, arith, bytes_eq_refl, eq_of_bytes_eq,
  Bool-cases, ◌≢◌, ◌↔◌, inl, inr,
}
use galileom2m.Coap.{Coap}
use galileom2m.Context.{
  ok, Address, Client, endpoint_client, Peer, dm_result, Transaction, Context, at,
}
use galileom2m.Context.Store.{Distinct, at-unlink_at}
use galileom2m.Uri.{Uri}
use galileom2m.Callbacks.{call_back}
use galileom2m.Callbacks.Live.{peer_client_live, answered, call_back-dm_answer}
use galileom2m.Transaction.{transaction_remove}
use galileom2m.Packet.{check_addr, target_addr, settle, handle_response}

check_addr_iff : (left right : Address) → (check_addr left right ≡ true) ↔ (left ≡ right)
unfolding check_addr
check_addr_iff left right = (
  λ same. eq_of_bytes_eq left right (ground arith),
  λ same. rw same (ground (arith, bytes_eq_refl right)),
)

module _ (coap : Coap) where
  open coap use {Packet}

  target_addr-client :
      (c : Context Packet) (peer : Peer) (p : ℕ) (k : Client)
      → peer ≡ endpoint_client p
      → at (λ k. k.self) p c.client_list ≡ some k
      → target_addr coap c peer ≡ ok (some k.addr)
  unfolding target_addr
  target_addr-client c peer p k same live = rw (same, peer_client_live coap c p k live) refl

  module _ (located : Bool) (c : Context Packet) (t : Transaction Packet) (uri : Uri)
      (callback user_data p : ℕ) (k : Client) (from : Address) (message : Packet)
      (called : t.callback ≡ dm_result uri callback user_data) (peer : t.peer ≡ endpoint_client p)
      (live : at (λ k. k.self) p c.client_list ≡ some k) where
    called_back :
        call_back coap located c t t.callback (some message)
        ≡ ok (record c { notices = answered coap k uri callback user_data message ∷ c.notices })
    called_back =
        ap (λ cb. call_back coap located c t cb (some message)) called
        ∙ call_back-dm_answer coap located c t uri callback user_data p k message peer live

    -- When the client of a device management request is there and answers it, and no two transactions
    -- have the same address in memory, the application is told once,
    -- with the code and the payload of the answer, and the transaction is gone.
    pub handle_response_settles :
        from ≡ k.addr
        → Distinct (λ t. t.self) c.transaction_list
        → (c' : Context Packet) × (handle_response coap located c t from message ≡ ok c')
          × (c'.notices ≡ answered coap k uri callback user_data message ∷ c.notices)
          × (at (λ t. t.self) t.self c'.transaction_list ≡ none)
    unfolding handle_response settle
    handle_response_settles same distinct =
        let told = record c {
          notices = answered coap k uri callback user_data message ∷ c.notices;
        } in
        (
          transaction_remove coap told t,
          rw
              (
                target_addr-client c t.peer p k peer live,
                (check_addr_iff from k.addr).1 same,
                called_back,
              )
              refl,
          unfold transaction_remove in refl,
          unfold transaction_remove in
              ground (arith, at-unlink_at (λ t. t.self) t.self t.self c.transaction_list distinct),
        )

    -- An answer to a device management request that comes from any other address than that of its
    -- client, which is there, changes nothing.
    pub handle_response_ignores :
        from ≢ k.addr → handle_response coap located c t from message ≡ ok c
    unfolding handle_response settle
    handle_response_ignores other = elim (Bool-cases (check_addr from k.addr)) [
      | inl same ↦ elim (other ((check_addr_iff from k.addr).0 same)) [ ]
      | inr differs ↦ rw (target_addr-client c t.peer p k peer live, differs) refl
    ]
