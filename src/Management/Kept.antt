-- ===== src/Management/Kept.antt =====
-- core/management.c: the operations of a server keep the clients that are there.
use galileom2m.Prelude.{ℕ, Option, some, List, ◌+◌, ◌%◌, ◌^◌, Option-elim}
use galileom2m.Coap.{Coap, not_found, internal_server_error}
use galileom2m.Context.{endpoint_client, Client, Transaction, Context}
use galileom2m.Context.Preserve.{Returns, ok-Returns, bind-Returns, Stable}
use galileom2m.LinkedList.{list_find, list_add}
use galileom2m.Uri.{Uri}
use galileom2m.Transaction.{transaction_new}
use galileom2m.Transaction.Kept.{KeptWith, transaction_send-Kept}
use galileom2m.Management.{Answers, callback_of, enqueue, make_operation}

module _ (coap : Coap) (P : List Client → Type 0) (stable : Stable P) (answers : Answers) where
  open coap use {Packet}

  abbrev KeptResult : Context Packet × ℕ → Type 0
  KeptResult a = P a.0.client_list

  enqueue-Kept :
      (c : Context Packet) (t : Transaction Packet)
      → P c.client_list
      → Returns KeptResult (enqueue coap answers c t)
  unfolding enqueue
  enqueue-Kept c t kept =
      bind-Returns KeptResult (KeptWith coap P stable) _ _
        (transaction_send-Kept coap P stable answers.buffer answers.located answers.now
          (record c { transaction_list = list_add (λ t. t.mid) c.transaction_list t }) t kept)
        (λ r kept'. ok-Returns KeptResult (r.0, r.2) kept')

  pub make_operation-Kept :
      (c : Context Packet) (client_id : ℕ) (uri : Uri) (method : ℕ) (buffer : Option (List ℕ))
      (callback : Option (ℕ × ℕ))
      → P c.client_list
      → Returns KeptResult (make_operation coap answers c client_id uri method buffer callback)
  unfolding make_operation
  make_operation-Kept c client_id uri method buffer callback kept =
      let c' = record c { next_mid = (c.next_mid + 1) % 2 ^ 16 } in
      Option-elim (list_find (λ k. k.internal_id) c.client_list client_id) (Returns KeptResult)
        (ok-Returns KeptResult (c, not_found) kept)
        (λ k.
          Option-elim
            (transaction_new coap answers.transaction answers.message method (some uri) c.next_mid
              (endpoint_client k.self))
            (Returns KeptResult) (ok-Returns KeptResult (c', internal_server_error) kept)
            (λ t.
              Option-elim (callback_of answers.data_for_callback uri callback) (Returns KeptResult)
                (ok-Returns KeptResult (c', internal_server_error) kept)
                (λ called. enqueue-Kept c' _ kept)))
