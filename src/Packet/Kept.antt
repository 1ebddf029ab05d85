-- ===== src/Packet/Kept.antt =====
-- core/packet.c: what is done about a datagram keeps the list of clients valid.
use galileom2m.Prelude.{
  Bool, Option, none, some, List, if-elim, if◌then◌else◌, Option-elim, is_some,
}
use galileom2m.Coap.{Coap}
use galileom2m.Context.{ok, Address, Client, Transaction, Context}
use galileom2m.Context.Preserve.{Returns, ok-Returns, bind-Returns, any-Returns, Stable}
use galileom2m.LinkedList.{list_find}
use galileom2m.Callbacks.{call_back}
use galileom2m.Callbacks.Kept.{call_back-Kept}
use galileom2m.Transaction.{transaction_remove}
use galileom2m.Observe.{cancel_loop, cancel_observe}
use galileom2m.Observe.Notify.{handle_observe_notify}
use galileom2m.Observe.Notify.Kept.{handle_observe_notify-client_list}
use galileom2m.Packet.{
  check_addr, target_addr, settle, handle_response, is_reset, handle_reset, handle_answer,
}

module _ (coap : Coap) (P : List Client → Type 0) (stable : Stable P) where
  open coap use {Packet}

  abbrev KeptHere : Context Packet → Type 0
  KeptHere c = P c.client_list

  settle-Kept :
      (located : Bool) (c : Context Packet) (t : Transaction Packet) (from : Address)
      (message : Packet) (addr : Option Address)
      → P c.client_list
      → Returns KeptHere (settle coap located c t from message addr)
  unfolding settle transaction_remove
  settle-Kept located c t from message none kept = ok-Returns KeptHere c kept
  settle-Kept located c t from message (some addr) kept =
      if-elim (check_addr from addr) (Returns KeptHere)
        (bind-Returns KeptHere KeptHere (call_back coap located c t t.callback (some message)) _
          (call_back-Kept coap P stable c kept located t t.callback (some message))
          (λ c' kept'. ok-Returns KeptHere (transaction_remove coap c' t) kept'))
        (ok-Returns KeptHere c kept)

  handle_response-Kept :
      (located : Bool) (c : Context Packet) (t : Transaction Packet) (from : Address)
      (message : Packet)
      → P c.client_list
      → Returns KeptHere (handle_response coap located c t from message)
  unfolding handle_response
  handle_response-Kept located c t from message kept =
      any-Returns KeptHere (target_addr coap c t.peer) _
        (λ addr. settle-Kept located c t from message addr kept)

  handle_reset-Kept :
      (c : Context Packet) (from : Address) (message : Packet)
      → P c.client_list
      → Returns KeptHere (handle_reset coap c from message)
  unfolding handle_reset cancel_observe
  handle_reset-Kept c from message kept =
      any-Returns KeptHere (cancel_loop c.server_list (coap.mid message) from c.observed_list) _
        (λ observed. ok-Returns KeptHere (record c { observed_list = observed }) kept)

  notified-Kept :
      (c : Context Packet) (from : Address) (message : Packet)
      → P c.client_list
      → Returns KeptHere (
          ok (
            if is_some (coap.observe message)
            then handle_observe_notify coap c from message
            else c))
  notified-Kept c from message kept = ok-Returns KeptHere _ (
      if-elim (is_some (coap.observe message)) KeptHere
        (rw (handle_observe_notify-client_list coap c from message) kept) kept)

  pub handle_answer-Kept :
      (located : Bool) (c : Context Packet) (from : Address) (message : Packet)
      → P c.client_list
      → Returns KeptHere (handle_answer coap located c from message)
  unfolding handle_answer
  handle_answer-Kept located c from message kept =
      bind-Returns KeptHere KeptHere
        (if is_reset (coap.type message) then handle_reset coap c from message else ok c) _
        (if-elim (is_reset (coap.type message)) (Returns KeptHere)
          (handle_reset-Kept c from message kept) (ok-Returns KeptHere c kept))
        (λ c' kept'.
          Option-elim (list_find (λ t. t.mid) c'.transaction_list (coap.mid message))
            (Returns KeptHere) (notified-Kept c' from message kept')
            (λ t. handle_response-Kept located c' t from message kept'))
