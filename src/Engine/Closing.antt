-- ===== src/Engine/Closing.antt =====
-- core/liblwm2m.c, `lwm2m_close`: who is told.
use galileom2m.Prelude.{◌≡◌, refl, ap, ◌∙◌, false, none, some, List, [], ◌∷◌, All}
use galileom2m.Coap.{Coap}
use galileom2m.Context.{ok, fault, Address, reg_pending, registered, Server, Context}
use galileom2m.Callbacks.{server_reply}
use galileom2m.Callbacks.Reply.{Accepts, server_reply-unlocated}
use galileom2m.Objects.{Object}
use galileom2m.Register.Farewell.{addresses, told, Located, deregister-told, deregister-unlocated}
use galileom2m.Engine.{close_objects, close_servers, close}

-- The addresses of datagrams to all servers that the client is registered with, one after another,
-- the newest first, before the others.
unfoldable pub all_told : List Server → List Address → List Address
all_told [] out = out
all_told (s ∷ servers) out = all_told servers (told s.status s.addr out)

module _ (coap : Coap) where
  open coap use {Packet}

  close_servers-told :
      (servers : List Server) (c : Context Packet)
      → All (Located coap) servers
      → (c' : Context Packet) × (close_servers coap c servers ≡ ok c')
        × (addresses c' ≡ all_told servers (addresses c))
  unfolding close_servers all_told
  close_servers-told [] c located = (c, refl, refl)
  close_servers-told (s ∷ servers) c (one, located) =
      let (c', s', goes, sent) = deregister-told coap (record c { server_list = servers }) s one in
      let (c'', rest, all) = close_servers-told servers c' located in
      (c'', rw (goes, close_servers) rest, all ∙ ap (all_told servers) sent)

  -- Where every server that the client is registered with has a location, and the farewell to that
  -- location can be serialized, closing a context goes through: every such server is sent one datagram, in the order
  -- of the list, nobody else is sent one, and each object's close callback has run.
  pub close-told :
      {S : Type 0} (objects : List (Object S)) (c : Context Packet) (s : S)
      → All (Located coap) c.server_list
      → (c' : Context Packet) × (close coap objects c s ≡ ok (c', close_objects objects s))
        × (addresses c' ≡ all_told c.server_list (addresses c))
  unfolding close
  close-told objects c s located =
      let (c', goes, sent) =
        close_servers-told c.server_list (record c { bootstrap_server = none }) located in
      (record c' { client_list = []; transaction_list = [] }, rw goes refl, sent)

-- If the answer that accepts a pending registration with the first server comes while there is no
-- memory for its location, closing the context reads a NULL pointer, whatever the other servers are.
pub close-unlocated :
    (coap : Coap) {S : Type 0} (objects : List (Object S)) (c : Context coap.Packet) (state : S)
    (s : Server) (servers : List Server) (p : coap.Packet)
    → s.status ≡ reg_pending
    → Accepts coap s (some p)
    → close coap objects
        (record c { server_list = server_reply coap false s s.status (some p) ∷ servers })
        state
      ≡ fault
unfolding close close_servers
close-unlocated coap objects c state s servers p pending accepts =
    let unlocated = record s { status = registered; location = none } in
    let faults =
      deregister-unlocated coap (record c { bootstrap_server = none; server_list = servers })
        unlocated refl refl in
    rw (server_reply-unlocated coap s p pending accepts, faults) refl
