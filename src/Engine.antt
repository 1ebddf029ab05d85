-- ===== src/Engine.antt =====
-- core/liblwm2m.c: setting up a context, its servers, and closing it.
pub mod Closing
mod Examples
use galileom2m.Prelude.{
  ℕ, ◌&&◌, ◌||◌, Bool, true, false, Option, none, some, List, [], ◌∷◌, if◌then◌else◌,
}
use galileom2m.Coap.{Coap, internal_server_error, not_found}
use galileom2m.Context.{Run, ok, ◌>>=◌, Address, unknown, Server, Context}
use galileom2m.LinkedList.{list_add}
use galileom2m.Objects.{Object}
use galileom2m.Register.{deregister}

-- The context after `memset`, with its name.
unfoldable pub new_context : {Packet : Type 0} → List ℕ → Context Packet
new_context name = record {
  endpoint_name = name;
  bootstrap_server = none;
  server_list = [];
  observed_list = [];
  client_list = [];
  next_mid = 0;
  transaction_list = [];
  sent = [];
  notices = [];
}

-- The list of objects is copied if there are any.
copies : {S : Type 0} → Bool → List (Object S) → Bool
copies allocated [] = true
copies allocated (o ∷ objects) = allocated

-- Without memory for the context, the name or the list of objects, there is no context. The list
-- of objects is an argument of the functions that read it.
pub init :
    {Packet S : Type 0}
    → Bool
    → Bool
    → Bool
    → List ℕ
    → List (Object S)
    → Option (Context Packet × List (Object S))
unfolding new_context copies
init for_context for_name for_objects name objects =
    if for_context && (for_name && copies for_objects objects)
    then some (new_context name, objects)
    else none

-- The loop that calls the objects' close callbacks.
pub close_objects : {S : Type 0} → List (Object S) → S → S
close_objects [] s = s
close_objects (o ∷ objects) s =
    close_objects objects (elim o.close_func [ none ↦ s | some f ↦ f s ])

module _ (coap : Coap) where
  open coap use {Packet}

  -- The loop over the servers: each is taken off the list, and then deregistered.
  close_servers : Context Packet → List Server → Run (Context Packet)
  close_servers c [] = ok c
  close_servers c (s ∷ servers) = do
    (c', s') ← deregister coap (record c { server_list = servers }) s
    close_servers c' servers

  -- What is left when the context is freed: the datagrams that went out, and the application's state.
  pub close : {S : Type 0} → List (Object S) → Context Packet → S → Run (Context Packet × S)
  unfolding close_servers
  close objects c s = do
    let s' = close_objects objects s
    c' ← close_servers (record c { bootstrap_server = none }) c.server_list
    ok (record c' { client_list = []; transaction_list = [] }, s')

unfoldable pub set_bootstrap_server : {Packet : Type 0} → Context Packet → ℕ → Context Packet
set_bootstrap_server c server = record c { bootstrap_server = some server }

-- An address that `getaddrinfo` found, and whether a socket could be made for it and connected.
pub record Candidate : Type 0 where
  pub address : Address
  pub opens : Bool
  pub connects : Bool

-- The loop that tests the addresses until one is connected.
pub any_connects : List Candidate → Bool
any_connects [] = false
any_connects (a ∷ candidates) = (a.opens && a.connects) || any_connects candidates

new_server : ℕ → ℕ → Address → Server
new_server self short_id address = record {
  self = self;
  short_id = short_id;
  addr = address;
  status = unknown;
  location = none;
  mid = 0;
}

-- The list is empty where `getaddrinfo` found nothing. `self` is what `malloc` returns for the
-- server, `for_addr` whether there is memory for its address.
unfoldable pub add_server :
    {Packet : Type 0} → Option ℕ → Bool → List Candidate → Context Packet → ℕ → Context Packet × ℕ
unfolding any_connects new_server
add_server self for_addr [] c short_id = (c, not_found)
add_server none for_addr (a ∷ candidates) c short_id = (c, internal_server_error)
add_server (some self) for_addr (a ∷ candidates) c short_id =
    if any_connects (a ∷ candidates) && for_addr
    then (
      record c {
        server_list = list_add (λ s. s.short_id) c.server_list (new_server self short_id a.address);
      },
      0,
    )
    else (c, internal_server_error)
