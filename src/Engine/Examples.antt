-- ===== src/Engine/Examples.antt =====
-- Closing a context with two servers, on the sample CoAP library.
use galileom2m.Prelude.{ℕ, ◌+◌, false, ◌≡◌, ◌≢◌, refl, some, List, [], ◌∷◌, All}
use galileom2m.Coap.{ack, created}
use galileom2m.Coap.Sample.{SamplePacket, sample, limited_sample, sample_init}
use galileom2m.Context.{ok, fault, Status, unknown, reg_pending, registered, Server, Context}
use galileom2m.Callbacks.{server_reply}
use galileom2m.Objects.{Object}
use galileom2m.Register.{deregister_message}
use galileom2m.Register.Farewell.{addresses, Located}
use galileom2m.Engine.{new_context, close_objects, close}
use galileom2m.Engine.Closing.{all_told, close-told, close-unlocated}

abbrev here : List ℕ
here = b'/' ∷ b'5' ∷ []

abbrev server : ℕ → Status → Server
server id status = record {
  self = 100 + id;
  short_id = id;
  addr = id ∷ [];
  status = status;
  location = some here;
  mid = 9;
}

abbrev no_objects : List (Object ℕ)
no_objects = []

abbrev registered_twice : Context SamplePacket
registered_twice = record (new_context (b'n' ∷ [])) {
  server_list = server 1 registered ∷ server 2 unknown ∷ server 3 registered ∷ [];
  sent = [];
}

-- The farewell to the location "/5", whatever its message id.
farewell : (mid : ℕ) → limited_sample.serialize (deregister_message limited_sample mid here) ≢ []
unfolding deregister_message
farewell mid empty = cc empty

located : All (Located limited_sample) registered_twice.server_list
located = (
  λ registered. (here, refl, farewell),
  (λ unregistered. absurd (cc unregistered), (λ registered. (here, refl, farewell), tt)),
)

close-told_example :
    (c' : Context SamplePacket) × (close limited_sample no_objects registered_twice 0
      ≡ ok (c', close_objects no_objects 0))
    × (addresses c' ≡ all_told registered_twice.server_list [])
close-told_example = close-told limited_sample no_objects registered_twice 0 located

three_then_one : all_told registered_twice.server_list [] ≡ (3 ∷ []) ∷ (1 ∷ []) ∷ []
unfolding all_told
three_then_one = refl

abbrev accepted : SamplePacket
accepted = record (sample_init ack created 9) { location_path = b'/' ∷ b'5' ∷ [] }

close-unlocated_example :
    close sample no_objects
      (record registered_twice {
        server_list =
            server_reply sample false (server 1 reg_pending) reg_pending (some accepted) ∷ [];
      })
      0
    ≡ fault
close-unlocated_example =
    close-unlocated sample no_objects registered_twice 0 (server 1 reg_pending) [] accepted refl
      (refl, refl, (λ e. cc e), refl)
