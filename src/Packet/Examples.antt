-- ===== src/Packet/Examples.antt =====
-- An answer to a read of a client, a registration and a read by blocks, on the sample CoAP library.
use galileom2m.Prelude.{
  ℕ, ◌≡◌, refl, true, false, none, some, List, [], ◌∷◌, arith, leb, ◌==◌, if◌then◌else◌,
}
use galileom2m.Coap.{Block, con, ack, content, no_error, coap_post}
use galileom2m.Coap.Sample.{SamplePacket, sample, sample_init, sample_payload_laws}
use galileom2m.Context.{ok, Client, endpoint_client, dm_result, Transaction, Context, at}
use galileom2m.Context.Store.{Distinct}
use galileom2m.Uri.{Uri}
use galileom2m.Callbacks.Live.{answered}
use galileom2m.Packet.{handle_response}
use galileom2m.Objects.{Object}
use galileom2m.Management.Requests.{Handled, start, inside, literal}
use galileom2m.Packet.Blocks.Transfer.{collected, collected-payload}
use galileom2m.Packet.Handle.{Surroundings, reply}
use galileom2m.Packet.Handle.Replies.{Replies, reply_frees}
use galileom2m.Packet.Answers.{handle_response_settles}

abbrev board : Client
board = record {
  self = 50;
  internal_id = 2;
  name = b'b' ∷ [];
  addr = 10 ∷ 0 ∷ [];
  object_list = [];
  observation_list = [];
}

-- The uri /3.
abbrev device : Uri
device = record { flag = 4; object_id = 3; instance_id = 0; resource_id = 0 }

abbrev read : Transaction SamplePacket
read = record {
  self = 70;
  mid = 9;
  peer = endpoint_client 50;
  retrans_counter = 2;
  retrans_time = 1002;
  message = sample.init_message con 1 9;
  buffer = some (1 ∷ []);
  callback = dm_result device 600 601;
}

abbrev reading : Context SamplePacket
reading = record {
  endpoint_name = [];
  bootstrap_server = none;
  server_list = [];
  observed_list = [];
  client_list = board ∷ [];
  next_mid = 10;
  transaction_list = read ∷ [];
  sent = [];
  notices = [];
}

abbrev answer : SamplePacket
answer = sample.set_payload (sample.init_message ack content 9) (b'o' ∷ b'k' ∷ [])

board_found : at (λ k. k.self) 50 (board ∷ []) ≡ some board
unfolding at
board_found = refl

alone : Distinct (λ t. t.self) (read ∷ [])
unfolding at
alone = (refl, tt)

handle_response_settles_example :
    (c' : Context SamplePacket) × (handle_response sample true reading read (10 ∷ 0 ∷ []) answer
      ≡ ok c')
    × (c'.notices ≡ answered sample board device 600 601 answer ∷ [])
    × (at (λ t. t.self) 70 c'.transaction_list ≡ none)
handle_response_settles_example =
    handle_response_settles sample true reading read device 600 601 50 board (10 ∷ 0 ∷ []) answer
      refl refl board_found refl alone

-- A request to register as "n" with the object 3, and what the system answers on its way.
abbrev registration_message : SamplePacket
registration_message = record (sample_init con coap_post 11) {
  uri_path = (b'r' ∷ b'd' ∷ []) ∷ [];
  uri_query = (b'e' ∷ b'p' ∷ b'=' ∷ b'n' ∷ []) ∷ [];
  payload = b'3' ∷ [];
}

abbrev no_objects : List (Object ℕ)
no_objects = []

abbrev around : Surroundings
around = record {
  memory = record {
    for_uri = true;
    for_observed = none;
    for_watcher = true;
    for_registration = record { for_name = true; for_client = some 90; for_addr = true };
  };
  for_location = true;
  library_mid = 33;
}

-- A response of five bytes.
abbrev five : SamplePacket
five = sample.set_payload (sample_init ack content 9) (1 ∷ 2 ∷ 3 ∷ 4 ∷ 5 ∷ [])

collected-payload_example :
    collected sample sample_payload_laws five 2 (omega arith) 3 ≡ 1 ∷ 2 ∷ 3 ∷ 4 ∷ 5 ∷ []
collected-payload_example =
    collected-payload sample sample_payload_laws five 2 (omega arith) 3 (omega arith) (omega arith)

-- The second block of two bytes.
abbrev second : Block
second = record { num = 1; size = 2; offset = 2 }

abbrev asking : SamplePacket
asking = record (sample_init con 1 9) { block2 = some (second, false) }

abbrev read_five : Handled SamplePacket ℕ
read_five = record {
  context = reading;
  state = 0;
  status = no_error;
  response = five;
  pointer = start;
}

reply_frees_example :
    (reply sample asking [] (11 ∷ []) read_five).freed
    ≡ (if leb 5 2 then literal else if 2 == 0 then start else inside)
reply_frees_example = reply_frees sample asking [] (11 ∷ []) read_five second refl refl refl refl
