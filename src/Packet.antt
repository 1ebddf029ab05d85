-- ===== src/Packet.antt =====
-- core/packet.c: what becomes of a message that is not a request (`handle_response`,
-- `handle_reset` and the last part of `lwm2m_handle_packet`).
pub mod Answers
pub mod Requests
pub mod Blocks
pub mod Handle
pub mod Kept
mod Examples
use galileom2m.Prelude.{
  ℕ, ◌==◌, ◌&&◌, Bool, true, false, Option, none, some, List, if◌then◌else◌, length, bytes_eq,
  is_some,
}
use galileom2m.Coap.{Coap, MessageType, con, non, ack, rst}
use galileom2m.Context.{
  Run, ok, ◌>>=◌, Address, Peer, endpoint_unknown, endpoint_bootstrap, endpoint_client,
  endpoint_server, Transaction, Context,
}
use galileom2m.LinkedList.{list_find}
use galileom2m.Callbacks.{peer_client, peer_server, call_back}
use galileom2m.Transaction.{transaction_remove}
use galileom2m.Observe.{cancel_observe}
use galileom2m.Observe.Notify.{handle_observe_notify}

pub check_addr : Address → Address → Bool
check_addr left right = length left == length right && bytes_eq left right

is_reset : MessageType → Bool
is_reset rst = true
is_reset con = false
is_reset non = false
is_reset ack = false

module _ (coap : Coap) where
  open coap use {Packet}

  -- The address of the peer; `none` for the peers that have none, the default of the switch.
  target_addr : Context Packet → Peer → Run (Option Address)
  target_addr c (endpoint_client p) = do
    k ← peer_client coap c (endpoint_client p)
    ok (some k.addr)
  target_addr c (endpoint_server p) = do
    s ← peer_server coap c (endpoint_server p)
    ok (some s.addr)
  target_addr c endpoint_unknown = ok none
  target_addr c endpoint_bootstrap = ok none

  -- The transaction ends if its peer answers: `located` is the outcome of a `malloc` in the callback.
  settle :
      Bool
      → Context Packet
      → Transaction Packet
      → Address
      → Packet
      → Option Address
      → Run (Context Packet)
  settle located c t from message none = ok c
  settle located c t from message (some addr) =
      let settled = call_back coap located c t t.callback (some message) >>= λ c'.
      ok (transaction_remove coap c' t) in
      if check_addr from addr then settled else ok c

  pub handle_response :
      Bool → Context Packet → Transaction Packet → Address → Packet → Run (Context Packet)
  unfolding target_addr settle
  handle_response located c t from message = do
    addr ← target_addr c t.peer
    settle located c t from message addr

  pub handle_reset : Context Packet → Address → Packet → Run (Context Packet)
  handle_reset c from message = cancel_observe c (coap.mid message) from

  -- The branch for responses. The condition on the code of a notification is an assignment, so it
  -- asks for the observe option only; the code is not read after that.
  pub handle_answer : Bool → Context Packet → Address → Packet → Run (Context Packet)
  unfolding is_reset handle_reset
  handle_answer located c from message = do
    c' ← (if is_reset (coap.type message) then handle_reset c from message else ok c)
    elim (list_find (λ t. t.mid) c'.transaction_list (coap.mid message)) [
      | some t ↦ handle_response located c' t from message
      | none ↦ ok (
          if is_some (coap.observe message) then handle_observe_notify coap c' from message else c')
    ]
