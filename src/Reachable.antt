-- ===== src/Reachable.antt =====
-- The calls that an application makes of the engine, one after another, as a step relation on the
-- context: what every context that they can lead to has in common.
mod Examples
use galileom2m.Prelude.{
  ℕ, ◌<◌, ◌≡◌, Bool, true, refl, Option, none, some, List, [], ◌∷◌, arith, length,
}
use mathlib.Core.Path.{subst}
use galileom2m.Coap.{Coap}
use galileom2m.Context.{Run, ok, Address, Client, Context, at}
use galileom2m.Context.Preserve.{Returns}
use galileom2m.LinkedList.{list_find}
use galileom2m.Uri.{Uri}
use galileom2m.Step.{System, step}
use galileom2m.Step.Kept.{step-Kept}
use galileom2m.Objects.{Object}
use galileom2m.Registration.Clients.{key, self_of, ClientsValid, ClientsValid-Stable, at-list_find}
use galileom2m.Registration.Handler.{Fresh}
use galileom2m.Observe.Notify.{observe, observe_cancel, resource_value_changed}
use galileom2m.Observe.Notify.Kept.{observe-Kept, observe_cancel-Kept}
use galileom2m.Observe.Notify.Changed.{resource_value_changed-Kept}
use galileom2m.Management.{Answers, make_operation}
use galileom2m.Management.Kept.{make_operation-Kept}
use galileom2m.Packet.Handle.{Surroundings, Processed, handle_packet}
use galileom2m.Packet.Handle.Kept.{handle_packet-Kept}
use galileom2m.Register.{RegisterAnswers, register}
use galileom2m.Register.Kept.{register-Kept}
use galileom2m.Engine.{Candidate, new_context, add_server, set_bootstrap_server}

module _ (coap : Coap) {S : Type 0} (objects : List (Object S)) where
  open coap use {Packet}

  -- A call that returns, and what it leaves behind. The operations of a server on a client are those
  -- of `make_operation`. A datagram comes where there are fewer than 65536 clients, with memory for
  -- the address of a client that registers, and what `malloc` returns for a client is not in use.
  pub data Call : Context Packet → Context Packet → Type 0 where
    datagram :
        {c c' : Context Packet} (around : Surroundings) (error : List ℕ) (s : S) (bytes : List ℕ)
        (from : Address) (p : Processed Packet S)
        → length c.client_list < 65536
        → around.memory.for_registration.for_addr ≡ true
        → Fresh around.memory.for_registration c.client_list
        → handle_packet coap around objects error c s bytes from ≡ ok p
        → p.context ≡ c'
        → Call c c'
    pass :
        {c c' : Context Packet} (system : System) (now : Option ℕ) (timeout timeout' result : ℕ)
        → step coap system now c timeout ≡ ok (c', timeout', result)
        → Call c c'
    operation :
        {c c' : Context Packet} (answers : Answers) (client_id : ℕ) (uri : Uri) (method : ℕ)
        (buffer : Option (List ℕ)) (callback : Option (ℕ × ℕ)) (result : ℕ)
        → make_operation coap answers c client_id uri method buffer callback ≡ ok (c', result)
        → Call c c'
    observing :
        {c c' : Context Packet} (observation transaction : Option ℕ)
        (message allocated located : Bool) (now : Option ℕ) (client_id : ℕ) (uri : Uri)
        (callback user_data result : ℕ)
        → observe coap observation transaction message allocated located now c client_id uri
            callback user_data
          ≡ ok (c', result)
        → Call c c'
    cancellation :
        {c c' : Context Packet} (client_id : ℕ) (uri : Uri)
        → (observe_cancel coap c client_id uri).0 ≡ c'
        → Call c c'
    registration :
        {c c' : Context Packet} (allocated : Bool) (answers : ℕ → RegisterAnswers) (result : ℕ)
        → register coap allocated answers objects c ≡ ok (c', result)
        → Call c c'
    change :
        {c c' : Context Packet} (allocated : ℕ → Bool) (s s' : S) (uri : Uri)
        → resource_value_changed coap allocated objects c s uri ≡ ok (c', s')
        → Call c c'
    server_added :
        {c c' : Context Packet} (self : Option ℕ) (for_addr : Bool) (candidates : List Candidate)
        (short_id : ℕ)
        → (add_server self for_addr candidates c short_id).0 ≡ c'
        → Call c c'
    bootstrap_server_set :
        {c c' : Context Packet} (server : ℕ) → set_bootstrap_server c server ≡ c' → Call c c'

  -- A context that calls lead to, from a new one.
  pub data Reachable : Context Packet → Type 0 where
    start : {c : Context Packet} (name : List ℕ) → new_context name ≡ c → Reachable c
    next : {c c' : Context Packet} → Reachable c → Call c c' → Reachable c'

  named :
      (clients : List Client) (id : ℕ) (k : Client)
      → ClientsValid clients
      → list_find key clients id ≡ some k
      → at self_of k.self clients ≡ some k
  named clients id k valid found = at-list_find clients id k valid.addresses found

  add_server-client_list :
      (self : Option ℕ) (for_addr : Bool) (candidates : List Candidate) (c : Context Packet)
      (short_id : ℕ)
      → (add_server self for_addr candidates c short_id).0.client_list ≡ c.client_list
  unfolding add_server
  add_server-client_list self for_addr [] c short_id = refl
  add_server-client_list none for_addr (a ∷ candidates) c short_id = refl
  add_server-client_list (some self) for_addr (a ∷ candidates) c short_id = ground arith

  Call-Valid :
      {c c' : Context Packet} → Call c c' → ClientsValid c.client_list → ClientsValid c'.client_list
  unfolding set_bootstrap_server
  Call-Valid {c} (datagram around error s bytes from p few for_addr fresh done same) valid =
      let kept =
        handle_packet-Kept coap around objects c s from valid few for_addr fresh error bytes in
      subst (λ c'. ClientsValid c'.client_list) same (kept.returned p done)
  Call-Valid {c} {c'} (pass system now timeout timeout' result done) valid =
      (step-Kept coap ClientsValid ClientsValid-Stable system now c timeout valid).returned
        (c', timeout', result) done
  Call-Valid {c} {c'} (operation answers client_id uri method buffer callback result done) valid =
      (make_operation-Kept coap ClientsValid ClientsValid-Stable answers c client_id uri method
          buffer callback valid).returned
        (c', result) done
  Call-Valid {c} {c'}
        (observing o transaction message allocated located now client_id uri callback user_data
          result done)
        valid =
      (observe-Kept coap ClientsValid ClientsValid-Stable named c valid o transaction message
          allocated located now client_id uri callback user_data).returned
        (c', result) done
  Call-Valid {c} (cancellation client_id uri same) valid =
      subst (λ c'. ClientsValid c'.client_list) same
        (observe_cancel-Kept coap ClientsValid ClientsValid-Stable named c valid client_id uri)
  Call-Valid {c} {c'} (registration allocated answers result done) valid =
      (register-Kept coap ClientsValid ClientsValid-Stable allocated answers objects c
          valid).returned
        (c', result) done
  Call-Valid {c} {c'} (change allocated s s' uri done) valid =
      (resource_value_changed-Kept coap ClientsValid objects allocated c s uri valid).returned
        (c', s') done
  Call-Valid {c} (server_added self for_addr candidates short_id same) valid =
      subst (λ c'. ClientsValid c'.client_list) same
        (rw (add_server-client_list self for_addr candidates c short_id) valid)
  Call-Valid (bootstrap_server_set server same) valid =
      subst (λ c'. ClientsValid c'.client_list) same valid

  -- Whatever datagrams come and whatever calls the application makes of a new context, as long as
  -- they return, and under the conditions that `Call` puts on a datagram, the ids of the clients
  -- rise strictly, and no two clients share memory.
  pub Reachable-ClientsValid : {c : Context Packet} → Reachable c → ClientsValid c.client_list
  unfolding new_context
  Reachable-ClientsValid (start name same) =
      subst (λ c'. ClientsValid c'.client_list) same (record { rises = tt; addresses = tt })
  Reachable-ClientsValid (next before call) = Call-Valid call (Reachable-ClientsValid before)
