-- ===== src/Observe.antt =====
-- core/observe.c: observations of resources, on the client that is observed and on the server that
-- observes. A watcher's counter is a uint32_t and message ids are uint16_t.
pub mod Notify
pub mod Servers
pub mod Watchers
pub mod Requests
mod Examples
use galileom2m.Prelude.{
  ℕ, ◌+◌, ◌*◌, ◌/◌, ◌%◌, ◌^◌, bit_and, bit_or, Bool, true, false, Option, none, some, List, [], ◌∷◌,
  ◌++◌, ◌==◌, ◌&&◌, ◌||◌, not, if◌then◌else◌, length, take, bytes_eq,
}
use galileom2m.Coap.{
  Coap, ack, rst, changed, content, bad_request, unauthorized, not_found, internal_server_error,
  coap_get,
}
use galileom2m.Context.{
  Run, ok, fault, ◌>>=◌, deref, Address, Status, unknown, reg_pending, registered, Server,
  Observation, Client, Watcher, Observed, Peer, endpoint_client, Callback, obs_request, Transaction,
  Context, Notice, at, store, unlink_at,
}
use galileom2m.LinkedList.{list_add, list_find, list_new_id}
use galileom2m.Uri.{Uri, is_set_instance, is_set_resource, flag_instance_id, flag_resource_id}
use galileom2m.Objects.{Object, object_read}
use galileom2m.Transaction.{buffer_send, transaction_new, transaction_send}

same_target : Uri → Uri → Bool
same_target target uri =
    target.object_id == uri.object_id
    && (target.flag == uri.flag
        && ((not (is_set_instance uri) || target.instance_id == uri.instance_id)
            && (not (is_set_resource uri) || target.resource_id == uri.resource_id)))

pub find_observed : List Observed → Uri → Option Observed
unfolding same_target
find_observed [] uri = none
find_observed (o ∷ observed) uri =
    if same_target o.uri uri then some o else find_observed observed uri

-- An observed uri that a change of `uri` touches.
concerns : Uri → Uri → Bool
concerns target uri =
    target.object_id == uri.object_id
    && ((not (is_set_instance uri)
          || not (is_set_instance target)
          || uri.instance_id == target.instance_id)
        && (not (is_set_resource uri)
            || not (is_set_resource target)
            || uri.resource_id == target.resource_id))

-- The list is built from its end. An item for which `malloc` has no memory is left out.
observed_loop : (ℕ → Bool) → List Observed → Uri → List Observed → List Observed
observed_loop allocated [] uri result = result
observed_loop allocated (o ∷ observed) uri result =
    observed_loop allocated observed uri
      (if concerns o.uri uri && allocated o.self then o ∷ result else result)

pub get_observed_list : (ℕ → Bool) → List Observed → Uri → List Observed
unfolding observed_loop concerns
get_observed_list allocated observed uri = observed_loop allocated observed uri []

-- `memcmp(targetP->addr, fromAddr, fromAddrLen) == 0`; an address that is shorter differs.
pub same_bytes : Address → Address → Bool
same_bytes addr from = bytes_eq (take (length from) addr) from

-- The search goes on while the length differs and the bytes differ.
pub find_server : List Server → Address → Option Server
unfolding same_bytes
find_server [] from = none
find_server (s ∷ servers) from =
    if not (length s.addr == length from) && not (same_bytes s.addr from)
    then find_server servers from
    else some s

pub find_watcher : List Watcher → ℕ → Option Watcher
find_watcher [] server = none
find_watcher (w ∷ watchers) server =
    if w.server == server then some w else find_watcher watchers server

-- The watcher of a server gets a new counter.
count_watcher : ℕ → List Watcher → List Watcher
count_watcher server [] = []
count_watcher server (w ∷ watchers) =
    if w.server == server
    then record w { counter = (w.counter + 1) % 2 ^ 32 } ∷ watchers
    else w ∷ count_watcher server watchers

is_registered : Status → Bool
is_registered registered = true
is_registered unknown = false
is_registered reg_pending = false

-- The server that asks, if it is registered.
registered_server : List Server → Address → Option Server
unfolding is_registered
registered_server servers from = elim (find_server servers from) [
  | none ↦ none
  | some s ↦ if is_registered s.status then some s else none
]

-- The counter that the response carries, and the watchers after it.
watch : Bool → List ℕ → ℕ → List Watcher → Option (ℕ × List Watcher)
unfolding count_watcher
watch allocated token server watchers = elim (find_watcher watchers server) [
  | some w ↦ some (w.counter, count_watcher server watchers)
  | none ↦
      if allocated
      then some (0, record { server = server; token = token; counter = 1; last_mid = 0 } ∷ watchers)
      else none
]

new_observed : ℕ → Uri → Observed
new_observed address uri = record { self = address; uri = uri; watcher_list = [] }

-- The observed entry for an uri, and the list that it stands in; `address` is what `malloc` returns
-- for a new entry.
observe_entry : Option ℕ → List Observed → Uri → Option (Observed × List Observed)
observe_entry address observed uri = elim (find_observed observed uri) [
  | some o ↦ some (o, observed)
  | none ↦ elim address [
    | none ↦ none
    | some a ↦ (let o = new_observed a uri in some (o, o ∷ observed))
  ]
]

module _ (coap : Coap) where
  open coap use {Packet}

  -- The new list, the status, and the response.
  pub handle_observe_request :
      Option ℕ
      → Bool
      → Context Packet
      → Uri
      → Address
      → Packet
      → Packet
      → Context Packet × ℕ × Packet
  unfolding registered_server
  handle_observe_request address allocated c uri from message response =
      if not (is_set_instance uri) && is_set_resource uri
      then (c, bad_request, response)
      else if length (coap.token message) == 0
      then (c, bad_request, response)
      else elim (registered_server c.server_list from) [
        | none ↦ (c, unauthorized, response)
        | some s ↦ elim (observe_entry address c.observed_list uri) [
          | none ↦ (c, internal_server_error, response)
          | some (o, observed) ↦ elim (watch allocated (coap.token message) s.self o.watcher_list) [
            | none ↦ (record c { observed_list = observed }, internal_server_error, response)
            | some (counter, watchers) ↦ (
              record c {
                observed_list = store (λ o. o.self) (record o { watcher_list = watchers }) observed;
              },
              content,
              coap.set_observe response counter,
            )
          ]
        ]
      ]

-- The watcher that a reset message of `from` with this id is about. Its server is read if the id
-- fits.
is_meant : List Server → ℕ → Address → Watcher → Run Bool
unfolding same_bytes
is_meant servers mid from w =
    if w.last_mid == mid
    then (do
      s ← deref (at (λ s. s.self) w.server servers)
      ok (length s.addr == length from && same_bytes s.addr from))
    else ok false

-- The watchers without the first one that is meant, if there is one.
remove_watcher : List Server → ℕ → Address → List Watcher → Run (Option (List Watcher))
remove_watcher servers mid from [] = ok none
remove_watcher servers mid from (w ∷ watchers) =
    let later = remove_watcher servers mid from watchers in
    do
      meant ← is_meant servers mid from w
      if meant then ok (some watchers) else (do
        rest ← later
        elim rest [ none ↦ ok none | some watchers' ↦ ok (some (w ∷ watchers')) ])

-- An entry in the list, without its watcher; an entry that has no watcher left is unlinked.
drop_watcher : Observed → List Watcher → List Observed
drop_watcher o [] = []
drop_watcher o (w ∷ watchers) = record o { watcher_list = w ∷ watchers } ∷ []

-- The loop of `cancel_observe`: the first watcher of an entry is read without a test.
pub cancel_loop : List Server → ℕ → Address → List Observed → Run (List Observed)
cancel_loop servers mid from [] = ok []
cancel_loop servers mid from (o ∷ observed) =
    let later = cancel_loop servers mid from observed in
    elim o.watcher_list [
      | [] ↦ fault
      | w ∷ watchers ↦ do
        removed ← remove_watcher servers mid from (w ∷ watchers)
        elim removed [
          | some watchers' ↦ ok (drop_watcher o watchers' ++ observed)
          | none ↦ do rest ← later; ok (o ∷ rest)
        ]
    ]

unfoldable pub cancel_observe :
    {Packet : Type 0} → Context Packet → ℕ → Address → Run (Context Packet)
cancel_observe c mid from = do
  observed ← cancel_loop c.server_list mid from c.observed_list
  ok (record c { observed_list = observed })
