-- ===== src/Management/Requests/Frame.antt =====
-- core/management.c, `handle_dm_request`: what a request leaves alone.
use galileom2m.Prelude.{ℕ, ◌≡◌, refl, Bool, Option, List, ◌==◌, if-elim, Option-elim}
use galileom2m.Coap.{Coap, content, bad_request, coap_get, coap_post, coap_put, coap_delete}
use galileom2m.Context.{Address, Context}
use galileom2m.Uri.{Uri}
use galileom2m.Objects.{Object, object_read, object_create_execute, object_write, object_delete}
use galileom2m.Observe.Requests.{Framed, handle_observe_request-Framed}
use galileom2m.Management.Requests.{
  Handled, bare, answer_read, observe_if_asked, handle_read, handle_dm_request,
}

module _ (coap : Coap) {S : Type 0} (c : Context coap.Packet) where
  open coap use {Packet}

  -- A handled request that changed nothing of the context but the list of observed resources.
  pub record Observing (h : Handled Packet S) : Type 0 where
    pub same : h.context ≡ record c { observed_list = h.context.observed_list }

  bare-Observing : (s : S) (status : ℕ) (response : Packet) → Observing (bare c s status response)
  bare-Observing s status response = record { same = refl }

  answer_read-Observing :
      (a : Context Packet × ℕ × Packet) (bytes : List ℕ) (s : S)
      → Framed c a
      → Observing (answer_read coap a bytes s)
  unfolding answer_read
  answer_read-Observing (c', status, response) bytes s framed =
      if-elim (status == content) Observing (record { same = framed.same })
        (record { same = framed.same })

  module _ (address : Option ℕ) (allocated : Bool) (objects : List (Object S)) (s : S) (uri : Uri)
      (from : Address) (message response : Packet) where
    observe_if_asked-Framed :
        Framed c (observe_if_asked coap address allocated c uri from message response)
    unfolding observe_if_asked
    observe_if_asked-Framed =
        let unasked : Framed c (c, content, response) = record { same = refl } in
        Option-elim (coap.observe message) (Framed c) unasked
          (λ n. handle_observe_request-Framed coap address allocated c uri from message response)

    handle_read-Observing :
        Observing (handle_read coap address allocated objects c s uri from message response)
    unfolding handle_read
    handle_read-Observing =
        let (status, bytes, s') = object_read objects uri s in
        if-elim (status == content) Observing
          (answer_read-Observing
            (observe_if_asked coap address allocated c uri from message response) bytes s'
            observe_if_asked-Framed)
          (bare-Observing s' status response)

    settled-Observing : (a : ℕ × S) → Observing (bare c a.1 a.0 response)
    settled-Observing a = bare-Observing a.1 a.0 response

    pub handle_dm_request-Observing :
        Observing (handle_dm_request coap address allocated objects c s uri from message response)
    unfolding handle_dm_request
    handle_dm_request-Observing =
        let payload = coap.payload message in
        if-elim (coap.code message == coap_get) Observing handle_read-Observing (
          if-elim (coap.code message == coap_post) Observing
            (settled-Observing (object_create_execute objects uri payload s))
            (if-elim (coap.code message == coap_put) Observing
              (settled-Observing (object_write objects uri payload s))
              (if-elim (coap.code message == coap_delete) Observing
                (settled-Observing (object_delete objects uri s))
                (bare-Observing s bad_request response))))
