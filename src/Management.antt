-- ===== src/Management.antt =====
-- core/management.c: the requests of a server to a client (`prv_make_operation`, `lwm2m_dm_...`).
-- A callback that is NULL is `none`; a `buffer` that is NULL is `none`.
pub mod Sending
pub mod Requests
pub mod Kept
mod Examples
use galileom2m.Prelude.{
  ℕ, ◌+◌, ◌%◌, ◌^◌, ◌==◌, ◌||◌, not, Bool, true, false, Option, none, some, List, if◌then◌else◌,
  length,
}
use galileom2m.Coap.{
  Coap, coap_get, coap_post, coap_put, coap_delete, bad_request, not_found, internal_server_error,
}
use galileom2m.Context.{
  Run, ok, ◌>>=◌, Client, endpoint_client, dm_result, Callback, no_callback, Transaction, Context,
}
use galileom2m.LinkedList.{list_add, list_find}
use galileom2m.Uri.{Uri, is_set_instance, is_set_resource}
use galileom2m.Transaction.{transaction_new, transaction_send}

-- What the system answers on the way: `malloc` for the transaction, its message, the data of the
-- callback, the buffer, and for the location in a callback; and `gettimeofday`.
pub record Answers : Type 0 where
  pub transaction : Option ℕ
  pub message : Bool
  pub data_for_callback : Bool
  pub buffer : Bool
  pub located : Bool
  pub now : Option ℕ

-- The transaction's callback; `none` if there is no memory for its data.
callback_of : Bool → Uri → Option (ℕ × ℕ) → Option Callback
callback_of allocated uri none = some no_callback
callback_of allocated uri (some (callback, user_data)) =
    if allocated then some (dm_result uri callback user_data) else none

module _ (coap : Coap) (answers : Answers) where
  open coap use {Packet}

  pub put_payload : Packet → Option (List ℕ) → Packet
  put_payload p none = p
  put_payload p (some bytes) = coap.set_payload p bytes

  -- The transaction enters the list and is sent.
  pub enqueue : Context Packet → Transaction Packet → Run (Context Packet × ℕ)
  enqueue c t = do
    (c', t', result) ←
        transaction_send coap answers.buffer answers.located answers.now
          (record c { transaction_list = list_add (λ t. t.mid) c.transaction_list t }) t
    ok (c', result)

  pub make_operation :
      Context Packet → ℕ → Uri → ℕ → Option (List ℕ) → Option (ℕ × ℕ) → Run (Context Packet × ℕ)
  unfolding callback_of enqueue
  make_operation c client_id uri method buffer callback =
      elim (list_find (λ k. k.internal_id) c.client_list client_id) [
        | none ↦ ok (c, not_found)
        | some k ↦
            (let c' = record c { next_mid = (c.next_mid + 1) % 2 ^ 16 } in
              elim (transaction_new coap answers.transaction answers.message method (some uri)
                c.next_mid (endpoint_client k.self)) [
                  | none ↦ ok (c', internal_server_error)
                  | some t ↦ elim (callback_of answers.data_for_callback uri callback) [
                    | none ↦ ok (c', internal_server_error)
                    | some called ↦
                        enqueue c'
                          (record t { message = put_payload t.message buffer; callback = called })
                  ]
                ])
      ]

  pub dm_read : Context Packet → ℕ → Uri → Option (ℕ × ℕ) → Run (Context Packet × ℕ)
  dm_read c client_id uri callback = make_operation c client_id uri coap_get none callback

  -- The length of the buffer is what is tested; a NULL buffer has length 0 here.
  pub dm_write : Context Packet → ℕ → Uri → List ℕ → Option (ℕ × ℕ) → Run (Context Packet × ℕ)
  dm_write c client_id uri bytes callback =
      if not (is_set_instance uri) || length bytes == 0
      then ok (c, bad_request)
      else make_operation c client_id uri coap_put (some bytes) callback

  pub dm_execute :
      Context Packet → ℕ → Uri → Option (List ℕ) → Option (ℕ × ℕ) → Run (Context Packet × ℕ)
  dm_execute c client_id uri buffer callback =
      if not (is_set_resource uri)
      then ok (c, bad_request)
      else make_operation c client_id uri coap_post buffer callback

  pub dm_create : Context Packet → ℕ → Uri → List ℕ → Option (ℕ × ℕ) → Run (Context Packet × ℕ)
  dm_create c client_id uri bytes callback =
      if is_set_resource uri || length bytes == 0
      then ok (c, bad_request)
      else make_operation c client_id uri coap_post (some bytes) callback

  pub dm_delete : Context Packet → ℕ → Uri → Option (ℕ × ℕ) → Run (Context Packet × ℕ)
  dm_delete c client_id uri callback =
      if not (is_set_instance uri) || is_set_resource uri
      then ok (c, bad_request)
      else make_operation c client_id uri coap_delete none callback
