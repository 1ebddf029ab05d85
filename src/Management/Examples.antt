-- ===== src/Management/Examples.antt =====
-- A read of a resource of one client, on the sample CoAP library.
use galileom2m.Prelude.{◌≡◌, refl, true, none, some, [], ◌∷◌, arith}
use galileom2m.Coap.Sample.{SamplePacket, sample}
use galileom2m.Context.{ok, Client, endpoint_client, dm_result, Transaction, Context, at}
use galileom2m.Uri.{Uri}
use galileom2m.Registration.Clients.{ClientsValid}
use galileom2m.Transaction.Schedule.{OnSchedule}
use galileom2m.Management.{make_operation}
use galileom2m.Management.Sending.{granted, operation, make_operation-sends}

abbrev board : Client
board = record {
  self = 50;
  internal_id = 2;
  name = b'b' ∷ [];
  addr = 10 ∷ 0 ∷ [];
  object_list = [];
  observation_list = [];
}

abbrev server : Context SamplePacket
server = record {
  endpoint_name = [];
  bootstrap_server = none;
  server_list = [];
  observed_list = [];
  client_list = board ∷ [];
  next_mid = 9;
  transaction_list = [];
  sent = [];
  notices = [];
}

-- The uri /3.
abbrev device : Uri
device = record { flag = 4; object_id = 3; instance_id = 0; resource_id = 0 }

board-Valid : ClientsValid (board ∷ [])
unfolding at
board-Valid = record { rises = (omega arith, tt); addresses = (refl, tt) }

board_found : at (λ k. k.self) 50 (board ∷ []) ≡ some board
unfolding at
board_found = refl

none_queued : at (λ (t : Transaction SamplePacket). t.self) 70 [] ≡ none
unfolding at
none_queued = refl

read_written :
    sample.serialize (operation sample 70 true 1000 server board device 1 none 600 601).message
    ≡ 1 ∷ []
read_written = refl

make_operation-sends_example :
    (c' : Context SamplePacket) × (t' : Transaction SamplePacket) × (make_operation sample
        (granted 70 true 1000)
        server
        2
        device
        1
        none
        (some (600, 601))
      ≡ ok (c', 0))
    × (at (λ t. t.self) 70 c'.transaction_list ≡ some t')
    × (t'.callback ≡ dm_result device 600 601)
    × (t'.peer ≡ endpoint_client 50)
    × (t'.mid ≡ 9)
    × OnSchedule sample 1000 t'
    × (c'.next_mid ≡ 10)
    × (c'.sent ≡ (10 ∷ 0 ∷ [], 1 ∷ []) ∷ [])
make_operation-sends_example =
    make_operation-sends sample 70 true 1000 server board device 1 none 600 601 1 [] board-Valid
      board_found none_queued read_written
