-- ===== src/Register/Farewell.antt =====
-- core/registration.c, `registration_deregister`: who is told that the client leaves.
use galileom2m.Prelude.{
  ℕ, ◌+◌, ◌%◌, ◌^◌, ◌≡◌, ◌≢◌, refl, ap, Option, none, some, List, [], ◌∷◌, map,
}
use galileom2m.Coap.{Coap}
use galileom2m.Context.{
  ok, fault, Address, Status, unknown, reg_pending, registered, Server, Context,
}
use galileom2m.Packet.Handle.Replies.{message_send-sent}
use galileom2m.Register.{deregister, deregister_by, deregister_registered, deregister_message}

-- The addresses of the datagrams that went out.
abbrev pub addresses : {Packet : Type 0} → Context Packet → List Address
addresses c = map (λ d. d.0) c.sent

-- The address of a server that the client is registered with, before the others.
abbrev pub told : Status → Address → List Address → List Address
told registered addr out = addr ∷ out
told unknown addr out = out
told reg_pending addr out = out

module _ (coap : Coap) where
  open coap use {Packet}

  -- A server with which the client is registered has a location, and the farewell to that location
  -- can be serialized.
  abbrev pub Located : Server → Type 0
  Located s =
      s.status ≡ registered
      → (location : List ℕ) × (s.location ≡ some location)
        × ((mid : ℕ) → coap.serialize (deregister_message coap mid location) ≢ [])

  deregister_registered-told :
      (c : Context Packet) (s : Server) (found : Option (List ℕ)) (location : List ℕ)
      → found ≡ some location
      → coap.serialize (deregister_message coap c.next_mid location) ≢ []
      → (c' : Context Packet) × (s' : Server) × (deregister_registered coap c s found ≡ ok (c', s'))
        × (addresses c' ≡ s.addr ∷ addresses c)
  unfolding deregister_registered
  deregister_registered-told c s none location e written = cc
  deregister_registered-told c s (some there) location e written =
      let same : there ≡ location = cc in
      let (bytes, out) =
        message_send-sent coap (record c { next_mid = (c.next_mid + 1) % 2 ^ 16 })
          (deregister_message coap c.next_mid there) s.addr (rw same written) in
      (_, _, refl, ap addresses out)

  deregister_by-told :
      (status : Status) (c : Context Packet) (s : Server)
      → (status ≡ registered
          → (location : List ℕ) × (s.location ≡ some location)
            × ((mid : ℕ) → coap.serialize (deregister_message coap mid location) ≢ []))
      → (c' : Context Packet) × (s' : Server) × (deregister_by coap status c s ≡ ok (c', s'))
        × (addresses c' ≡ told status s.addr (addresses c))
  unfolding deregister_by
  deregister_by-told unknown c s located = (c, s, refl, refl)
  deregister_by-told reg_pending c s located = (c, s, refl, refl)
  deregister_by-told registered c s located =
      let (location, e, written) = located refl in
      deregister_registered-told c s s.location location e (written c.next_mid)

  pub deregister-told :
      (c : Context Packet) (s : Server)
      → Located s
      → (c' : Context Packet) × (s' : Server) × (deregister coap c s ≡ ok (c', s'))
        × (addresses c' ≡ told s.status s.addr (addresses c))
  unfolding deregister
  deregister-told c s located = deregister_by-told s.status c s located

-- A location that is NULL is read.
pub deregister-unlocated :
    (coap : Coap) (c : Context coap.Packet) (s : Server)
    → s.status ≡ registered
    → s.location ≡ none
    → deregister coap c s ≡ fault
unfolding deregister deregister_by deregister_registered
deregister-unlocated coap c s status location = rw (status, location) refl
