-- ===== src/Observe/Examples.antt =====
-- Servers and watchers of core/observe.c.
use galileom2m.Prelude.{true, some, ◌≡◌, refl, none, [], ◌∷◌, bytes_eq, All, arith}
use galileom2m.Coap.{con, ack, content}
use galileom2m.Coap.Sample.{SamplePacket, sample, sample_init}
use galileom2m.Context.Store.{Distinct}
use galileom2m.Observe.Requests.{handle_observe_request-Watched}
use galileom2m.Context.{ok, registered, Server, Watcher, Client, Observation, Context, at}
use galileom2m.Uri.{Uri}
use galileom2m.Observe.{handle_observe_request, same_bytes, find_server, cancel_observe}
use galileom2m.LinkedList.{list_new_id}
use galileom2m.Registration.Clients.{ClientsValid}
use galileom2m.Observe.Notify.{observe_token, observe, handle_observe_notify}
use galileom2m.Observe.Notify.Told.{handle_observe_notify-observe}
use galileom2m.Observe.Servers.{first_of_length, NoneBegins, find_server-first_of_length}
use galileom2m.Observe.Watchers.{Watched, cancel_observe_total}

abbrev board_server : Server
board_server = record {
  self = 80;
  short_id = 1;
  addr = 10 ∷ 1 ∷ [];
  status = registered;
  location = none;
  mid = 9;
}

board_differs : NoneBegins (board_server ∷ []) (10 ∷ 2 ∷ [])
unfolding same_bytes bytes_eq
board_differs = (refl, tt)

find_server-first_of_length_example :
    find_server (board_server ∷ []) (10 ∷ 2 ∷ [])
    ≡ first_of_length (board_server ∷ []) (10 ∷ 2 ∷ [])
find_server-first_of_length_example =
    find_server-first_of_length (board_server ∷ []) (10 ∷ 2 ∷ []) board_differs

abbrev watching : Watcher
watching = record { server = 80; token = 1 ∷ []; counter = 2; last_mid = 6 }

abbrev watched_uri : Uri
watched_uri = record { flag = 4; object_id = 3; instance_id = 0; resource_id = 0 }

abbrev observed_once : Context SamplePacket
observed_once = record {
  endpoint_name = [];
  bootstrap_server = none;
  server_list = board_server ∷ [];
  observed_list = record { self = 90; uri = watched_uri; watcher_list = watching ∷ [] } ∷ [];
  client_list = [];
  next_mid = 10;
  transaction_list = [];
  sent = [];
  notices = [];
}

once-Watched : All (Watched (board_server ∷ [])) observed_once.observed_list
unfolding at
once-Watched = (((λ e. cc), ((board_server, refl), tt)), tt)

cancel_observe_total_example :
    (c' : Context SamplePacket) × (cancel_observe observed_once 6 (10 ∷ 1 ∷ []) ≡ ok c')
    × (c'.server_list ≡ board_server ∷ [])
    × All (Watched (board_server ∷ [])) c'.observed_list
cancel_observe_total_example = cancel_observe_total observed_once 6 (10 ∷ 1 ∷ []) once-Watched

servers-Distinct : Distinct (λ s. s.self) (board_server ∷ [])
unfolding at
servers-Distinct = (refl, tt)

abbrev asked : SamplePacket
asked = sample.set_token (sample.init_message con 1 12) (4 ∷ [])

handle_observe_request-Watched_example :
    All
      (Watched (board_server ∷ []))
      (handle_observe_request sample
        (some 91)
        true
        observed_once
        watched_uri
        (10 ∷ 1 ∷ [])
        asked
        (sample.init_message ack content 12)).0.observed_list
handle_observe_request-Watched_example =
    handle_observe_request-Watched sample (some 91) observed_once watched_uri (10 ∷ 1 ∷ []) asked
      (sample.init_message ack content 12) servers-Distinct once-Watched

-- A client that has registered, without observations so far.
abbrev board : Client
board = record {
  self = 50;
  internal_id = 2;
  name = b'b' ∷ [];
  addr = 10 ∷ 0 ∷ [];
  object_list = [];
  observation_list = [];
}

abbrev server : Context SamplePacket
server = record {
  endpoint_name = [];
  bootstrap_server = none;
  server_list = [];
  observed_list = [];
  client_list = board ∷ [];
  next_mid = 9;
  transaction_list = [];
  sent = [];
  notices = [];
}

abbrev temperature : Uri
temperature = record { flag = 7; object_id = 3303; instance_id = 0; resource_id = 1 }

abbrev notification : SamplePacket
notification = record (sample_init ack content 77) {
  token = observe_token 2 0;
  observe = some 5;
  payload = b'2' ∷ b'1' ∷ [];
}

board-Valid : ClientsValid (board ∷ [])
unfolding at
board-Valid = record { rises = (omega arith, tt); addresses = (refl, tt) }

board_found : at (λ k. k.self) 50 (board ∷ []) ≡ some board
unfolding at
board_found = refl

notification_token :
    notification.token ≡ observe_token 2 (list_new_id (λ (o : Observation). o.id) [])
unfolding list_new_id
notification_token = refl

handle_observe_notify-observe_example :
    (c' : Context SamplePacket) × (observe sample
        (some 60)
        (some 70)
        true
        true
        true
        (some 1000)
        server
        2
        temperature
        600
        601
      ≡ ok (c', 0))
    × (c'.sent ≡ (10 ∷ 0 ∷ [], 1 ∷ []) ∷ [])
    × (handle_observe_notify sample c' (10 ∷ 0 ∷ []) notification ≡ record c' {
      notices =
          record {
            callback = 600;
            client_id = 2;
            uri = temperature;
            status = 5;
            content = b'2' ∷ b'1' ∷ [];
            user_data = 601;
          }
          ∷ c'.notices;
    })
handle_observe_notify-observe_example =
    handle_observe_notify-observe sample server board temperature 600 601 60 70 1000 1 [] true
      board-Valid board_found (omega arith) tt (omega arith) refl refl notification (10 ∷ 0 ∷ []) 5
      notification_token refl
