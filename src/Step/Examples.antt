-- ===== src/Step/Examples.antt =====
-- Passes of `lwm2m_step`, on the sample CoAP library.
use galileom2m.Prelude.{ℕ, ◌≡◌, refl, true, false, none, some, List, [], ◌∷◌, arith}
use galileom2m.Coap.{con}
use galileom2m.Coap.Sample.{SamplePacket, sample}
use galileom2m.Context.{
  ok, fault, Client, endpoint_client, no_callback, dm_result, Transaction, Context, at,
}
use galileom2m.LinkedList.{list_find}
use galileom2m.LinkedList.Last.{list_find_last}
use galileom2m.Uri.{Uri, is_set_resource}
use galileom2m.Registration.{delete_registration}
use galileom2m.Registration.Clients.{key, ClientsValid}
use galileom2m.Transaction.Schedule.{fill_buffer-some}
use galileom2m.Callbacks.Live.{unanswered}
use galileom2m.Step.{System, step}
use galileom2m.Step.Life.{passes, passes-unanswered}
use galileom2m.Step.Dangling.{step-deregistered}

abbrev system : System
system = record { allocated = λ t. true; located = λ t. true; clock = λ t. some 5 }

abbrev waiting : Transaction SamplePacket
waiting = record {
  self = 70;
  mid = 9;
  peer = endpoint_client 50;
  retrans_counter = 2;
  retrans_time = 9;
  message = sample.init_message con 1 9;
  buffer = none;
  callback = no_callback;
}

abbrev one_waiting : Context SamplePacket
one_waiting = record {
  endpoint_name = [];
  bootstrap_server = none;
  server_list = [];
  observed_list = [];
  client_list = [];
  next_mid = 10;
  transaction_list = waiting ∷ [];
  sent = [];
  notices = [];
}

abbrev board : Client
board = record {
  self = 50;
  internal_id = 2;
  name = b'b' ∷ [];
  addr = 10 ∷ 0 ∷ [];
  object_list = [];
  observation_list = [];
}

abbrev with_board : Context SamplePacket
with_board = record one_waiting { client_list = board ∷ []; transaction_list = [] }

-- The uri /3.
abbrev device : Uri
device = record { flag = 4; object_id = 3; instance_id = 0; resource_id = 0 }

board_found : at (λ k. k.self) 50 (board ∷ []) ≡ some board
unfolding at
board_found = refl

abbrev read_device : Transaction SamplePacket
read_device = record {
  self = 70;
  mid = 9;
  peer = endpoint_client 50;
  retrans_counter = 0;
  retrans_time = 0;
  message = sample.init_message con 1 9;
  buffer = none;
  callback = dm_result device 600 601;
}

abbrev datagram : List ℕ × List ℕ
datagram = (10 ∷ 0 ∷ [], 1 ∷ [])

passes-unanswered_example :
    passes sample true
      (100 ∷ 102 ∷ 107 ∷ 112 ∷ [])
      (record with_board { transaction_list = read_device ∷ []; sent = [] })
    ≡ ok (record with_board {
      transaction_list = [];
      sent = datagram ∷ datagram ∷ datagram ∷ datagram ∷ [];
      notices = unanswered sample board device 600 601 ∷ [];
    })
passes-unanswered_example =
    passes-unanswered sample true with_board board 70 9 (sample.init_message con 1 9) device 600 601
      1 [] board_found refl 100 102 107 112 [] (omega arith) (omega arith) (omega arith)

-- Before its second transmission, at 102, and after it, with one to come at 106.
abbrev pending : Transaction SamplePacket
pending = record read_device { retrans_counter = 2; retrans_time = 102; buffer = some (1 ∷ []) }

abbrev resent : Transaction SamplePacket
resent = record pending { retrans_counter = 3; retrans_time = 106 }

abbrev one_pending : Context SamplePacket
one_pending = record with_board { transaction_list = pending ∷ [] }

abbrev one_resent : Context SamplePacket
one_resent = record with_board { transaction_list = resent ∷ []; sent = datagram ∷ [] }

-- DELETE /rd/2.
abbrev board_uri : Uri
board_uri = record { flag = 0x24; object_id = 2; instance_id = 0; resource_id = 0 }

board-Valid : ClientsValid (board ∷ [])
unfolding at
board-Valid = record { rises = (omega arith, tt); addresses = (refl, tt) }

board_listed : list_find key (board ∷ []) 2 ≡ some board
board_listed = list_find_last key [] board tt

no_resource : is_set_resource board_uri ≡ false
no_resource = refl

step-deregistered_example :
    step sample system
      (some 103)
      (record with_board {
        client_list = (delete_registration (board ∷ []) board_uri).0;
        transaction_list = pending ∷ [];
      })
      60
    ≡ fault
step-deregistered_example =
    step-deregistered sample system with_board board_uri board pending [] (1 ∷ []) 103 60
      board-Valid no_resource board_listed refl (omega arith)
      (fill_buffer-some sample true pending (1 ∷ []))
