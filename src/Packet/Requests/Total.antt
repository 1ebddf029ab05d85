-- ===== src/Packet/Requests/Total.antt =====
-- core/packet.c, `handle_request`: every request is handled, and what it leaves alone.
use galileom2m.Prelude.{
  ℕ, ◌<◌, ◌≡◌, refl, sym, ap, ◌∙◌, true, List, ◌==◌, length, bit_and, if-elim, Option-elim,
}
use galileom2m.Coap.{Coap, bad_request, not_implemented}
use galileom2m.Context.{Run, ok, ◌>>=◌, Address, Client, Context}
use galileom2m.Uri.{Uri, decode_uri, mask_type, flag_dm, flag_registration, flag_bootstrap}
use galileom2m.Objects.{Object}
use galileom2m.Registration.Clients.{ClientsValid}
use galileom2m.Registration.Handler.{Fresh, Keeps, handle_registration_request-Keeps}
use galileom2m.Management.Requests.{Handled, bare}
use galileom2m.Management.Requests.Frame.{Observing, handle_dm_request-Observing}
use galileom2m.Packet.Requests.{RequestMemory, registered, dispatch, with_status, handle_request}

module _ (coap : Coap) {S : Type 0} (c : Context coap.Packet) where
  open coap use {Packet}

  -- A run that returns, with nothing of the context changed but the list of observed resources and
  -- the list of clients, which is valid.
  pub record Served (run : Run (Handled Packet S)) : Type 0 where
    pub handled : Handled Packet S
    pub returns : run ≡ ok handled
    pub same : handled.context ≡ record c {
      observed_list = handled.context.observed_list;
      client_list = handled.context.client_list;
    }
    pub valid : ClientsValid handled.context.client_list

  module _ (valid : ClientsValid c.client_list) where
    Observing-Served : (h : Handled Packet S) → Observing coap c h → Served (ok h)
    Observing-Served h o =
        let clients : h.context.client_list ≡ c.client_list = ap (λ c. c.client_list) o.same in
        record {
          handled = h;
          returns = refl;
          same =
              o.same
              ∙ ap
                  (λ clients. record c {
                    observed_list = h.context.observed_list;
                    client_list = clients;
                  })
                  (sym clients);
          valid = rw clients valid;
        }

    bare-Served : (s : S) (status : ℕ) (response : Packet) → Served (ok (bare c s status response))
    bare-Served s status response = record {
      handled = bare c s status response;
      returns = refl;
      same = refl;
      valid = valid;
    }

    with_status-Served :
        (run : Run (Handled Packet S)) → Served run → Served (run >>= λ h. ok (with_status coap h))
    unfolding with_status
    with_status-Served run served = record {
      handled = with_status coap served.handled;
      returns = rw served.returns refl;
      same = served.same;
      valid = served.valid;
    }

  registered-Served :
      (s : S) (response : Packet) (run : Run (List Client × ℕ × List ℕ))
      → Keeps run
      → Served (run >>= λ answer. ok (registered coap c s response answer))
  unfolding registered
  registered-Served s response run (answer, returns, valid) = record {
    handled = registered coap c s response answer;
    returns = rw returns refl;
    same = refl;
    valid = valid;
  }

  module _ (memory : RequestMemory) (objects : List (Object S)) (s : S) (from : Address)
      (message response : Packet) (valid : ClientsValid c.client_list)
      (few : length c.client_list < 65536) (for_addr : memory.for_registration.for_addr ≡ true)
      (fresh : Fresh memory.for_registration c.client_list) where
    dispatch-Served :
        (uri : Uri) → Served (dispatch coap memory objects c s uri from message response)
    unfolding dispatch
    dispatch-Served uri =
        let type = bit_and uri.flag mask_type in
        if-elim (type == flag_dm) Served
          (Observing-Served valid _ (
            handle_dm_request-Observing coap c memory.for_observed memory.for_watcher objects s uri
              from message response))
          (if-elim (type == flag_bootstrap) Served (bare-Served valid s not_implemented response) (
            if-elim (type == flag_registration) Served
              (registered-Served s response _ (
                handle_registration_request-Keeps memory.for_registration c.client_list valid few
                  for_addr fresh uri from (coap.code message) (coap.uri_query message)
                  (coap.payload message)))
              (bare-Served valid s bad_request response)))

    pub handle_request-Served :
        Served (handle_request coap memory objects c s from message response)
    unfolding handle_request
    handle_request-Served =
        Option-elim (decode_uri memory.for_uri (coap.uri_path message)) Served
          (bare-Served valid s bad_request response)
          (λ uri. with_status-Served valid _ (dispatch-Served uri))
