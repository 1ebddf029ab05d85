-- ===== src/Callbacks/Reply.antt =====
-- core/registration.c, `prv_handleRegistrationReply`: the status of a server as its registration is
-- answered.
use galileom2m.Prelude.{
  ◌≡◌, ◌≢◌, ◌⊎◌, inl, inr, refl, Bool, true, false, if◌then◌else◌, Option, none, some, [], arith,
}
use galileom2m.Coap.{Coap, MessageType, created, bad_request}
use galileom2m.Context.{Status, unknown, reg_pending, registered, Server}
use galileom2m.Callbacks.{is_ack, is_empty, reply_pending, server_reply}

module _ (coap : Coap) where
  open coap use {Packet}

  -- The answer that makes a pending registration a registration.
  abbrev pub Accepts : Server → Option Packet → Type 0
  Accepts s none = ⊥
  Accepts s (some p) =
      (coap.mid p ≡ s.mid)
      × (coap.type p ≡ MessageType.ack)
      × (coap.location_path p ≢ [])
      × (coap.code p ≡ created)

  -- The answer, or its absence, that ends a pending registration.
  abbrev pub Rejects : Server → Option Packet → Type 0
  Rejects s none = Unit {0}
  Rejects s (some p) =
      (coap.mid p ≡ s.mid)
      × (coap.type p ≡ MessageType.ack)
      × (coap.location_path p ≢ [])
      × (coap.code p ≡ bad_request)

  is_ack-eq : (t : MessageType) → is_ack t ≡ true → t ≡ MessageType.ack
  unfolding is_ack
  is_ack-eq t h = ground arith

  -- The server as a registration leaves it whose answer is accepted. `allocated` is the outcome of
  -- the `malloc` for the location.
  abbrev accepted : Bool → Server → Option Packet → Server
  accepted allocated s none = s
  accepted allocated s (some p) = record s {
    status = registered;
    location = if allocated then some (coap.location_path p) else none;
  }

  -- What an answer does to a server.
  abbrev pub Moves : Bool → Server → Server → Option Packet → Type 0
  Moves allocated s s' message =
      ((s.status ≡ reg_pending) × Accepts s message × (s' ≡ accepted allocated s message))
      ⊎ ((s.status ≡ reg_pending)
          × Rejects s message
          × (s' ≡ record s { status = unknown; mid = 0 }))
      ⊎ ((s.status ≡ reg_pending → ¬ (Accepts s message) × ¬ (Rejects s message)) × (s' ≡ s))

  reply_pending-Moves :
      (allocated : Bool) (s : Server) (message : Option Packet)
      → s.status ≡ reg_pending
      → Moves allocated s (reply_pending coap allocated s message) message
  unfolding reply_pending is_ack is_empty
  reply_pending-Moves allocated s none h = inr (inl (h, tt, refl))
  reply_pending-Moves allocated s (some p) h = ground arith

  server_reply-Moves_at :
      (allocated : Bool) (s : Server) (message : Option Packet) (now : Status)
      → s.status ≡ now
      → Moves allocated s (server_reply coap allocated s now message) message
  unfolding server_reply
  server_reply-Moves_at allocated s message unknown e = inr (inr ((λ pending. cc), refl))
  server_reply-Moves_at allocated s message registered e = inr (inr ((λ pending. cc), refl))
  server_reply-Moves_at allocated s message reg_pending e =
      reply_pending-Moves allocated s message e

  -- An answer to a registration changes a server exactly if the registration is pending: an
  -- acknowledgement of the registration's message with a location and code 2.01 makes it registered
  -- with that location (without one if there is no memory for it); such an acknowledgement with code
  -- 4.00, or no answer at all, makes it unknown again and resets the message id; in every other case
  -- the server stays as it was.
  pub server_reply-Moves :
      (allocated : Bool) (s : Server) (message : Option Packet)
      → Moves allocated s (server_reply coap allocated s s.status message) message
  server_reply-Moves allocated s message = server_reply-Moves_at allocated s message s.status refl

-- A registration that is accepted while there is no memory for its location.
pub server_reply-unlocated :
    (coap : Coap) (s : Server) (p : coap.Packet)
    → s.status ≡ reg_pending
    → Accepts coap s (some p)
    → server_reply coap false s s.status (some p)
      ≡ record s { status = registered; location = none }
unfolding server_reply reply_pending is_ack is_empty
server_reply-unlocated coap s p pending (mid, type, location, code) =
    rw pending (ground (arith, mid, type, location, code))
