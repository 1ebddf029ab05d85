-- ===== src/Observe/Requests.antt =====
-- core/observe.c: an observe request keeps what `cancel_observe` relies on.
use galileom2m.Prelude.{
  ℕ, ◌≡◌, ◌≢◌, refl, ◌⊎◌, inl, inr, true, Option, none, some, List, [], ◌∷◌, arith, ◌==◌, ◌&&◌,
  length, All, Option-cases, Bool-cases, not, Bool, if-elim, Option-elim,
}
use mathlib.Core.Path.{subst}
use galileom2m.Context.{Address, Server, Watcher, Observed, Context, at, store}
use galileom2m.Context.Store.{Distinct}
use galileom2m.Uri.{Uri, is_set_instance, is_set_resource}
use galileom2m.Coap.{Coap, bad_request, unauthorized, internal_server_error, content}
use galileom2m.Observe.{
  same_target, find_observed, find_server, registered_server, find_watcher, count_watcher, watch,
  new_observed, observe_entry, handle_observe_request,
}
use galileom2m.Observe.Watchers.{Live, Watched}

find_server-at-ge :
    (servers : List Server) (from : Address) (s : Server) (q : ℕ)
    → find_server servers from ≡ some s
    → at (λ s. s.self) q servers ≡ none
    → s.self ≢ q
unfolding find_server at
find_server-at-ge [] from s q e h = ground arith
find_server-at-ge (x ∷ servers) from s q e h = ground (arith, find_server-at-ge servers from s q)

find_server-at :
    (servers : List Server) (from : Address) (s : Server)
    → Distinct (λ s. s.self) servers
    → find_server servers from ≡ some s
    → at (λ s. s.self) s.self servers ≡ some s
unfolding find_server at
find_server-at [] from s d e = ground arith
find_server-at (x ∷ servers) from s (fresh, d) e =
    ground (arith, find_server-at servers from s d, find_server-at-ge servers from s x.self)

count_watcher-Live :
    (servers : List Server) (server : ℕ) (watchers : List Watcher)
    → All (Live servers) watchers
    → All (Live servers) (count_watcher server watchers)
unfolding count_watcher
count_watcher-Live servers server [] h = tt
count_watcher-Live servers server (w ∷ watchers) ((s, e), hs) =
    elim (Bool-cases (w.server == server)) [
      | inl same ↦ rw same ((s, e), hs)
      | inr other ↦ rw other ((s, e), count_watcher-Live servers server watchers hs)
    ]

count_watcher-some :
    (server : ℕ) (watchers : List Watcher) → watchers ≢ [] → count_watcher server watchers ≢ []
unfolding count_watcher
count_watcher-some server [] h = h
count_watcher-some server (w ∷ watchers) h = ground arith

store-Watched :
    (servers : List Server) (new : Observed) (observed : List Observed)
    → Watched servers new
    → All (Watched servers) observed
    → All (Watched servers) (store (λ o. o.self) new observed)
unfolding store
store-Watched servers new [] w h = tt
store-Watched servers new (o ∷ observed) w (first, h) = elim (Bool-cases (o.self == new.self)) [
  | inl same ↦ rw same (w, h)
  | inr other ↦ rw other (first, store-Watched servers new observed w h)
]

find_observed-Watched :
    (servers : List Server) (observed : List Observed) (uri : Uri) (o : Observed)
    → All (Watched servers) observed
    → find_observed observed uri ≡ some o
    → Watched servers o
unfolding find_observed
find_observed-Watched servers [] uri o h e = absurd (grind arith)
find_observed-Watched servers (x ∷ observed) uri o (first, h) e =
    elim (Bool-cases (same_target x.uri uri)) [
      | inl same ↦ subst (Watched servers) {x = x} {y = o} (ground arith) first
      | inr other ↦ find_observed-Watched servers observed uri o h (ground arith)
    ]

find_watcher-some :
    (watchers : List Watcher) (server : ℕ) (w : Watcher)
    → find_watcher watchers server ≡ some w
    → watchers ≢ []
unfolding find_watcher
find_watcher-some [] server w e = ground arith
find_watcher-some (x ∷ watchers) server w e = ground arith

-- The watchers of an entry after a request.
watch-Live :
    (servers : List Server) (token : List ℕ) (s : Server) (watchers : List Watcher)
    → at (λ s. s.self) s.self servers ≡ some s
    → All (Live servers) watchers
    → (counter : ℕ) × (rest : List Watcher) × (watch true token s.self watchers
        ≡ some (counter, rest))
      × (rest ≢ [])
      × All (Live servers) rest
unfolding watch
watch-Live servers token s watchers live h = elim (Option-cases (find_watcher watchers s.self)) [
  | inl n ↦ (
    0,
    record { server = s.self; token = token; counter = 1; last_mid = 0 } ∷ watchers,
    rw (n, watch) refl,
    (λ e. cc),
    ((s, live), h),
  )
  | inr (w, e) ↦ (
    w.counter,
    count_watcher s.self watchers,
    rw (e, watch) refl,
    count_watcher-some s.self watchers (find_watcher-some watchers s.self w e),
    count_watcher-Live servers s.self watchers h,
  )
]

==-refl : (a : ℕ) → (a == a) ≡ true
==-refl a = ground arith

-- The list of entries after a request, whose entry was there or is new.
observe_entry-Watched :
    (servers : List Server) (address : Option ℕ) (observed : List Observed) (uri : Uri)
    → All (Watched servers) observed
    → (observe_entry address observed uri ≡ none)
      ⊎ ((o : Observed) × (entries : List Observed) × (observe_entry address observed uri
            ≡ some (o, entries))
          × All (Live servers) o.watcher_list
          × ((watchers : List Watcher)
              → watchers ≢ []
              → All (Live servers) watchers
              → All
                  (Watched servers)
                  (store (λ o. o.self) (record o { watcher_list = watchers }) entries)))
unfolding observe_entry new_observed store
observe_entry-Watched servers address observed uri h =
    elim (Option-cases (find_observed observed uri)) [
      | inr (o, e) ↦
          let found = find_observed-Watched servers observed uri o h e in
          inr (
            o,
            observed,
            rw (e, observe_entry) refl,
            found.1,
            λ ws some_ws live.
                store-Watched servers (record o { watcher_list = ws }) observed (some_ws, live) h,
          )
      | inl n ↦ elim (Option-cases address) [
        | inl none_left ↦ inl (rw (n, none_left, observe_entry) refl)
        | inr (a, e) ↦ inr (
          new_observed a uri,
          new_observed a uri ∷ observed,
          rw (n, e, observe_entry) refl,
          tt,
          λ ws some_ws live. rw (==-refl a) ((some_ws, live), h),
        )
      ]
    ]

registered_server-some :
    (servers : List Server) (from : Address) (s : Server)
    → registered_server servers from ≡ some s
    → find_server servers from ≡ some s
unfolding registered_server
registered_server-some servers from s e = ground arith

module _ (coap : Coap) where
  open coap use {Packet}

  -- Where there is memory for a watcher, an observe request, whatever its answer, keeps what
  -- `cancel_observe` relies on: every entry has a watcher, and the servers of the watchers are
  -- there, provided that the servers have different addresses in memory.
  pub handle_observe_request-Watched :
      (address : Option ℕ) (c : Context Packet) (uri : Uri) (from : Address)
      (message response : Packet)
      → Distinct (λ s. s.self) c.server_list
      → All (Watched c.server_list) c.observed_list
      → All
          (Watched c.server_list)
          (handle_observe_request coap address true c uri from message response).0.observed_list
  unfolding handle_observe_request
  handle_observe_request-Watched address c uri from message response distinct h =
      elim (Bool-cases (not (is_set_instance uri) && is_set_resource uri)) [
        | inl bad ↦ rw bad h
        | inr shape ↦ elim (Bool-cases (length (coap.token message) == 0)) [
          | inl empty ↦ rw (shape, empty) h
          | inr token ↦ elim (Option-cases (registered_server c.server_list from)) [
            | inl n ↦ rw (shape, token, n) h
            | inr (s, e) ↦
                elim (observe_entry-Watched c.server_list address c.observed_list uri h) [
                  | inl full ↦ rw (shape, token, e, full) h
                  | inr (o, entries, e', live, keeps) ↦
                      let (counter, rest, e'', some_rest, live') =
                        watch-Live c.server_list (coap.token message) s o.watcher_list
                          (find_server-at c.server_list from s distinct
                            (registered_server-some c.server_list from s e))
                          live in
                      rw (shape, token, e, e', e'') (keeps rest some_rest live')
                ]
          ]
        ]
      ]

-- Nothing of the context differs from `c` but the list of observed resources.
pub record Framed {Packet : Type 0} (c : Context Packet) (a : Context Packet × ℕ × Packet)
    : Type 0 where
  pub same : a.0 ≡ record c { observed_list = a.0.observed_list }

pub handle_observe_request-Framed :
    (coap : Coap) (address : Option ℕ) (allocated : Bool) (c : Context coap.Packet) (uri : Uri)
    (from : Address) (message response : coap.Packet)
    → Framed c (handle_observe_request coap address allocated c uri from message response)
unfolding handle_observe_request
handle_observe_request-Framed coap address allocated c uri from message response =
    let leaf : (observed : List Observed) (status : ℕ) (response : coap.Packet)
        → Framed c (record c { observed_list = observed }, status, response) =
      λ observed status response. record { same = refl } in
    let same_list = leaf c.observed_list in
    if-elim (not (is_set_instance uri) && is_set_resource uri) (Framed c)
      (same_list bad_request response)
      (if-elim (length (coap.token message) == 0) (Framed c) (same_list bad_request response) (
        Option-elim (registered_server c.server_list from) (Framed c)
          (same_list unauthorized response)
          (λ s.
            Option-elim (observe_entry address c.observed_list uri) (Framed c)
              (same_list internal_server_error response)
              (λ entry.
                Option-elim (watch allocated (coap.token message) s.self entry.0.watcher_list)
                  (Framed c) (leaf entry.1 internal_server_error response)
                  (λ watched.
                    leaf (store (λ o. o.self) (record entry.0 { watcher_list = watched.1 }) entry.1)
                      content (coap.set_observe response watched.0))))))
