-- ===== src/Console/Examples.antt =====
-- A typed line of the test server, on the sample CoAP library.
use galileom2m.Prelude.{◌≡◌, refl, true, false, none, some, [], ◌∷◌, ◌++◌, arith}
use galileom2m.Coap.Sample.{sample}
use galileom2m.Context.{ok}
use galileom2m.Uri.{Uri}
use galileom2m.Uri.Numbers.{decimal}
use galileom2m.Uri.Text.{path_text}
use galileom2m.Management.{Answers}
use galileom2m.CommandLine.{is_white, handle_command}
use galileom2m.Console.{ObserveAnswers, Session, server_commands}
use galileom2m.Console.Paths.{read_word, after_read, handle_command-path_text}

abbrev answers : Answers
answers = record {
  transaction = some 70;
  message = true;
  data_for_callback = true;
  buffer = true;
  located = true;
  now = some 1000;
}

abbrev observe_answers : ObserveAnswers
observe_answers = record {
  observation = none;
  transaction = none;
  message = false;
  allocated = false;
  located = false;
  now = none;
}

abbrev stack : Uri
stack = record { flag = 0; object_id = 9; instance_id = 9; resource_id = 9 }

abbrev session : Session sample answers observe_answers stack 600
session = record {
  context = record {
    endpoint_name = [];
    bootstrap_server = none;
    server_list = [];
    observed_list = [];
    client_list = [];
    next_mid = 9;
    transaction_list = [];
    sent = [];
    notices = [];
  };
  replies = [];
  quit = false;
}

-- "read 2 3/0/15"
handle_command-path_text_example :
    handle_command
      (server_commands sample answers observe_answers stack 600)
      (read_word ++ ((32 ∷ []) ++ (decimal 2 ++ ((32 ∷ []) ++ path_text 3 0 15))))
      (ok session)
    ≡ (
      after_read sample answers observe_answers stack 600 session 2
          (record { flag = 3; object_id = 3; instance_id = 0; resource_id = 15 }),
      [],
    )
unfolding is_white decimal
handle_command-path_text_example =
    handle_command-path_text sample answers observe_answers stack 600 2 3 0 15 (32 ∷ []) (32 ∷ [])
      session (omega arith) (omega arith) (omega arith) (omega arith)
      (record { white = (refl, tt); ends = refl; starts = refl })
      (record { white = (refl, tt); ends = refl; starts = refl })
