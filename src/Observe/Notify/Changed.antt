-- ===== src/Observe/Notify/Changed.antt =====
-- core/observe.c, `lwm2m_resource_value_changed`: it leaves the clients alone.
use galileom2m.Prelude.{ℕ, ◌==◌, Bool, List, [], ◌∷◌, if-elim}
use galileom2m.Coap.{Coap, content}
use galileom2m.Context.{deref, Client, Watcher, Observed, Context, at}
use galileom2m.Context.Preserve.{Returns, ok-Returns, bind-Returns, any-Returns}
use galileom2m.Uri.{Uri}
use galileom2m.Objects.{Object, object_read}
use galileom2m.Observe.{get_observed_list}
use galileom2m.Observe.Notify.{notify_watchers, changed_loop, resource_value_changed}
use galileom2m.Observe.Notify.Kept.{message_send-client_list}

module _ (coap : Coap) (P : List Client → Type 0) where
  open coap use {Packet}

  abbrev KeptWatchers : Context Packet × List Watcher → Type 0
  KeptWatchers a = P a.0.client_list

  notify_watchers-Kept :
      (watchers : List Watcher) (c : Context Packet) (message : Packet)
      → P c.client_list
      → Returns KeptWatchers (notify_watchers coap c message watchers)
  unfolding notify_watchers
  notify_watchers-Kept [] c message kept = ok-Returns KeptWatchers (c, []) kept
  notify_watchers-Kept (w ∷ watchers) c message kept =
      any-Returns KeptWatchers (deref (at (λ s. s.self) w.server c.server_list)) _ (λ s.
        bind-Returns KeptWatchers KeptWatchers (notify_watchers coap _ _ watchers) _
          (notify_watchers-Kept watchers _ _ (rw (message_send-client_list coap _ _ s.addr) kept))
          (λ a kept'. ok-Returns KeptWatchers _ kept'))

  module _ {S : Type 0} (objects : List (Object S)) where
    abbrev pub KeptState : Context Packet × S → Type 0
    KeptState a = P a.0.client_list

    changed_loop-Kept :
        (observed : List Observed) (c : Context Packet) (s : S)
        → P c.client_list
        → Returns KeptState (changed_loop coap objects c s observed)
    unfolding changed_loop
    changed_loop-Kept [] c s kept = ok-Returns KeptState (c, s) kept
    changed_loop-Kept (o ∷ observed) c s kept =
        let (status, bytes, s') = object_read objects o.uri s in
        if-elim (status == content) (Returns KeptState)
          (bind-Returns KeptState KeptWatchers (notify_watchers coap c _ o.watcher_list) _
            (notify_watchers-Kept o.watcher_list c _ kept)
            (λ a kept'. changed_loop-Kept observed _ s' kept'))
          (changed_loop-Kept observed c s' kept)

    pub resource_value_changed-Kept :
        (allocated : ℕ → Bool) (c : Context Packet) (s : S) (uri : Uri)
        → P c.client_list
        → Returns KeptState (resource_value_changed coap allocated objects c s uri)
    unfolding resource_value_changed
    resource_value_changed-Kept allocated c s uri kept =
        changed_loop-Kept (get_observed_list allocated c.observed_list uri) c s kept
