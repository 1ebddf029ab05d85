-- ===== src/Register/Kept.antt =====
-- core/registration.c, `lwm2m_register`: it keeps the clients that are there.
use galileom2m.Prelude.{
  ℕ, Bool, none, List, [], ◌∷◌, ◌++◌, map, if◌then◌else◌, if-elim, Option-elim, ◌≡◌, arith,
}
use galileom2m.Coap.{Coap, internal_server_error, coap_post}
use galileom2m.Context.{ok, Client, Context, endpoint_server}
use galileom2m.Context.Preserve.{Returns, ok-Returns, bind-Returns, Stable}
use galileom2m.Objects.{Object, get_register_payload}
use galileom2m.Registration.{query_template}
use galileom2m.Transaction.{transaction_new}
use galileom2m.Transaction.Kept.{KeptWith, transaction_send-Kept}
use galileom2m.Register.{RegisterAnswers, mark_pending, register_with, register_loop, register}

module _ (coap : Coap) (P : List Client → Type 0) (stable : Stable P) where
  open coap use {Packet}

  abbrev KeptGoing : Context Packet × Bool → Type 0
  KeptGoing a = P a.0.client_list

  abbrev pub KeptResult : Context Packet × ℕ → Type 0
  KeptResult a = P a.0.client_list

  mark_pending-client_list :
      (server mid result : ℕ) (c : Context Packet)
      → (mark_pending coap server mid result c).client_list ≡ c.client_list
  unfolding mark_pending
  mark_pending-client_list server mid result c = ground arith

  register_with-Kept :
      (answers : RegisterAnswers) (c : Context Packet) (server : ℕ) (query payload : List ℕ)
      → P c.client_list
      → Returns KeptGoing (register_with coap answers c server query payload)
  unfolding register_with
  register_with-Kept answers c server query payload kept =
      Option-elim
        (transaction_new coap answers.transaction answers.message coap_post none c.next_mid
          (endpoint_server server))
        (Returns KeptGoing) (ok-Returns KeptGoing _ kept)
        (λ t.
          bind-Returns KeptGoing (KeptWith coap P stable) _ _
            (transaction_send-Kept coap P stable answers.buffer answers.located answers.now _ _
              kept)
            (λ r kept'.
              ok-Returns KeptGoing _ (rw (mark_pending-client_list server r.1.mid r.2 r.0) kept')))

  register_loop-Kept :
      (answers : ℕ → RegisterAnswers) (c : Context Packet) (servers query payload : List ℕ)
      → P c.client_list
      → Returns KeptResult (register_loop coap answers c servers query payload)
  unfolding register_loop
  register_loop-Kept answers c [] query payload kept = ok-Returns KeptResult (c, 0) kept
  register_loop-Kept answers c (server ∷ servers) query payload kept =
      bind-Returns KeptResult KeptGoing (register_with coap (answers server) c server query payload)
        _ (register_with-Kept (answers server) c server query payload kept)
        (λ a kept'.
          if-elim a.1 (Returns KeptResult)
            (register_loop-Kept answers a.0 servers query payload kept')
            (ok-Returns KeptResult _ kept'))

  with_payload-Kept :
      (allocated : Bool) (answers : ℕ → RegisterAnswers) (c : Context Packet) (payload : List ℕ)
      → P c.client_list
      → Returns KeptResult (elim payload [
        | [] ↦ ok (c, internal_server_error)
        | b ∷ bytes ↦
            if allocated
            then register_loop coap answers c
                (map (λ s. s.self) c.server_list)
                (query_template ++ c.endpoint_name)
                (b ∷ bytes)
            else ok (c, internal_server_error)
      ])
  with_payload-Kept allocated answers c [] kept =
      ok-Returns KeptResult (c, internal_server_error) kept
  with_payload-Kept allocated answers c (b ∷ bytes) kept =
      if-elim allocated (Returns KeptResult)
        (register_loop-Kept answers c (map (λ s. s.self) c.server_list)
          (query_template ++ c.endpoint_name) (b ∷ bytes) kept)
        (ok-Returns KeptResult (c, internal_server_error) kept)

  pub register-Kept :
      {S : Type 0} (allocated : Bool) (answers : ℕ → RegisterAnswers) (objects : List (Object S))
      (c : Context Packet)
      → P c.client_list
      → Returns KeptResult (register coap allocated answers objects c)
  unfolding register
  register-Kept allocated answers objects c kept =
      with_payload-Kept allocated answers c (get_register_payload objects 64) kept
