-- ===== src/Callbacks/Examples.antt =====
-- An answer to a registration, on the sample CoAP library.
use galileom2m.Prelude.{true, none, some, [], ◌∷◌}
use galileom2m.Coap.{MessageType, created}
use galileom2m.Coap.Sample.{SamplePacket, sample}
use galileom2m.Context.{reg_pending, Server}
use galileom2m.Callbacks.{server_reply}
use galileom2m.Callbacks.Reply.{Moves, server_reply-Moves}

abbrev pending : Server
pending = record {
  self = 80;
  short_id = 1;
  addr = 10 ∷ [];
  status = reg_pending;
  location = none;
  mid = 9;
}

abbrev answer : SamplePacket
answer = sample.set_location_path (sample.init_message MessageType.ack created 9) (b'r' ∷ b'd' ∷ [])

server_reply-Moves_example :
    Moves sample true pending
      (server_reply sample true pending reg_pending (some answer))
      (some answer)
server_reply-Moves_example = server_reply-Moves sample true pending (some answer)
