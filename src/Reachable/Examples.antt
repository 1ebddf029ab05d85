-- ===== src/Reachable/Examples.antt =====
-- A client that registers with a new server, on the sample CoAP library.
use galileom2m.Prelude.{ℕ, ◌<◌, ◌∙◌, refl, true, none, some, List, [], ◌∷◌, arith, length}
use galileom2m.Coap.{coap_post}
use galileom2m.Coap.Sample.{SamplePacket, sample, sample_message}
use galileom2m.Context.{Context, Address, at}
use galileom2m.Objects.{Object}
use galileom2m.Registration.Clients.{ClientsValid}
use galileom2m.Registration.Handler.{Fresh}
use galileom2m.Packet.Handle.{Surroundings, handle_message}
use galileom2m.Packet.Handle.Replies.{
  Answered, Replies, handle_message-Answered, handle_packet-handle_message,
}
use galileom2m.Engine.{new_context}
use galileom2m.Reachable.{Reachable, start, next, datagram, Reachable-ClientsValid}

abbrev no_objects : List (Object ℕ)
no_objects = []

abbrev around : Surroundings
around = record {
  memory = record {
    for_uri = true;
    for_observed = none;
    for_watcher = true;
    for_registration = record { for_name = true; for_client = some 90; for_addr = true };
  };
  for_location = true;
  library_mid = 33;
}

abbrev fresh_context : Context SamplePacket
fresh_context = new_context (b's' ∷ [])

-- POST /rd?ep=n with the object 3.
abbrev bytes : List ℕ
bytes = coap_post ∷ 11 ∷ b'3' ∷ []

abbrev sender : Address
sender = 10 ∷ []

replies : Replies sample (sample_message bytes)
replies status text empty = cc empty

unused : Fresh around.memory.for_registration fresh_context.client_list
unfolding at new_context
unused a same = refl

nobody : ClientsValid fresh_context.client_list
unfolding new_context
nobody = record { rises = tt; addresses = tt }

few : length fresh_context.client_list < 65536
unfolding new_context
few = omega arith

answered :
    Answered sample fresh_context sender
      (handle_message sample around no_objects [] fresh_context 0 sender (sample_message bytes))
answered =
    handle_message-Answered sample around no_objects [] fresh_context 0 sender
      (sample_message bytes) (omega arith) (omega arith) replies nobody few refl unused

registered : Reachable sample no_objects answered.processed.context
registered = next (start (b's' ∷ []) refl) (
    datagram around [] 0 bytes sender answered.processed few refl unused
      (handle_packet-handle_message sample around no_objects [] fresh_context 0 bytes sender refl
        ∙ answered.returns)
      refl)

Reachable-ClientsValid_example : ClientsValid answered.processed.context.client_list
Reachable-ClientsValid_example = Reachable-ClientsValid sample no_objects registered
