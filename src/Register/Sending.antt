-- ===== src/Register/Sending.antt =====
-- core/registration.c, `lwm2m_register`: every server is asked.
use galileom2m.Prelude.{
  ℕ, ◌≡◌, ◌≢◌, refl, ap, ◌∙◌, true, none, some, List, [], ◌∷◌, ◌++◌, All, map, arith, ◌==◌,
  if◌then◌else◌,
}
use galileom2m.Coap.{Coap}
use galileom2m.Context.{ok, Address, reg_pending, Server, Context, at}
use galileom2m.Context.Store.{Distinct, at_cons, at-store}
use galileom2m.Objects.{Object, get_register_payload}
use galileom2m.Registration.{query_template}
use galileom2m.Transaction.Schedule.{out}
use galileom2m.Register.{register_loop, register}
use galileom2m.Register.Farewell.{addresses}
use galileom2m.Register.Round.{
  server_self, granted, nonempty, registration_message, Asked, register_with-Asked,
}

-- The addresses of requests to servers, one after another, the newest first, before the others.
unfoldable pub all_asked : List Server → List Address → List Address
all_asked [] out = out
all_asked (s ∷ servers) out = all_asked servers (s.addr ∷ out)

-- The server is there, pending.
abbrev pub Pending : List Server → Server → Type 0
Pending servers s =
    (s' : Server) × (at server_self s.self servers ≡ some s') × (s'.status ≡ reg_pending)

there_behind :
    (s : Server) (servers some_servers : List Server)
    → at server_self s.self some_servers ≡ none
    → All (λ x. at server_self x.self servers ≡ some x) some_servers
    → All (λ x. at server_self x.self (s ∷ servers) ≡ some x) some_servers
there_behind s servers [] fresh there = tt
there_behind s servers (x ∷ xs) fresh (found, there) = (
  ground (arith, at_cons server_self x.self s servers, at_cons server_self s.self x xs),
  there_behind s servers xs (ground (arith, at_cons server_self s.self x xs)) there,
)

-- Every server of a list can be read.
all_there :
    (servers : List Server)
    → Distinct server_self servers
    → All (λ s. at server_self s.self servers ≡ some s) servers
all_there [] distinct = tt
all_there (s ∷ servers) (fresh, distinct) = (
  ground (arith, at_cons server_self s.self s servers),
  there_behind s servers servers fresh (all_there servers distinct),
)

module _ (coap : Coap) where
  open coap use {Packet}

  -- What the loop does, from a context on.
  record AllAsked (c : Context Packet) (servers : List Server) (c' : Context Packet) : Type 0 where
    sent : addresses c' ≡ all_asked servers (addresses c)
    pending : All (Pending c'.server_list) servers
    others :
        (q : ℕ)
        → at server_self q servers ≡ none
        → at server_self q c'.server_list ≡ at server_self q c.server_list

  -- What a round leaves at an address.
  Asked-at :
      (c : Context Packet) (s : Server) (c' : Context Packet) (q : ℕ)
      → Asked coap c s c'
      → at server_self s.self c.server_list ≡ some s
      → at server_self q c'.server_list ≡ (
          if s.self == q
          then some (record s { status = reg_pending; mid = c.next_mid })
          else at server_self q c.server_list)
  Asked-at c s c' q asked there =
      let new = record s { status = reg_pending; mid = c.next_mid } in
      ap (at server_self q) asked.servers
      ∙ ground (arith, at-store server_self q new c.server_list, there)

  still_there :
      (c : Context Packet) (s : Server) (c' : Context Packet) (servers : List Server)
      → Asked coap c s c'
      → at server_self s.self c.server_list ≡ some s
      → at server_self s.self servers ≡ none
      → All (λ s. at server_self s.self c.server_list ≡ some s) servers
      → All (λ s. at server_self s.self c'.server_list ≡ some s) servers
  still_there c s c' [] asked one fresh there = tt
  still_there c s c' (x ∷ servers) asked one fresh (found, there) = (
    ground (arith, Asked-at c s c' x.self asked one, at_cons server_self s.self x servers),
    still_there c s c' servers asked one (ground (arith, at_cons server_self s.self x servers))
        there,
  )

  register_loop-AllAsked :
      (address start : ℕ → ℕ) (servers : List Server) (c : Context Packet) (query payload : List ℕ)
      → ((mid : ℕ) → coap.serialize (registration_message coap mid query payload) ≢ [])
      → Distinct server_self servers
      → All (λ s. at server_self s.self c.server_list ≡ some s) servers
      → (c' : Context Packet) × (register_loop coap
            (λ p. granted (address p) (start p))
            c
            (map server_self servers)
            query
            payload
          ≡ ok (c', 0))
        × AllAsked c servers c'
  unfolding register_loop all_asked
  register_loop-AllAsked address start [] c query payload written distinct there =
      (c, refl, record { sent = refl; pending = tt; others = λ q h. refl })
  register_loop-AllAsked address start (s ∷ servers) c query payload written (fresh, distinct)
        (one, there) =
      let (c1, asks, asked) =
        register_with-Asked coap (address s.self) (start s.self) c s query payload one written in
      let (c', goes, all) =
        register_loop-AllAsked address start servers c1 query payload written distinct
          (still_there c s c1 servers asked one fresh there) in
      let found : at server_self s.self c'.server_list
          ≡ some (record s { status = reg_pending; mid = c.next_mid }) =
        ground (arith, all.others s.self fresh, Asked-at c s c1 s.self asked one) in
      (
        c',
        rw asks goes,
        record {
          sent = all.sent ∙ ap (all_asked servers) asked.sent;
          pending =
              ((record s { status = reg_pending; mid = c.next_mid }, found, refl), all.pending);
          others = λ q h.
              ground
                (arith, all.others q, Asked-at c s c1 q asked one, at_cons server_self q s servers);
        },
      )

  register_with_payload :
      {S : Type 0} (address start : ℕ → ℕ) (objects : List (Object S)) (c : Context Packet) (b : ℕ)
      (bytes : List ℕ)
      → get_register_payload objects 64 ≡ b ∷ bytes
      → ((mid : ℕ)
          → coap.serialize
              (registration_message coap mid (query_template ++ c.endpoint_name) (b ∷ bytes))
            ≢ [])
      → Distinct server_self c.server_list
      → (c' : Context Packet) × (register coap true (λ p. granted (address p) (start p)) objects c
          ≡ ok (c', 0))
        × AllAsked c c.server_list c'
  unfolding register
  register_with_payload address start objects c b bytes e written distinct =
      let (c', goes, all) =
        register_loop-AllAsked address start c.server_list c (query_template ++ c.endpoint_name)
          (b ∷ bytes) written distinct (all_there c.server_list distinct) in
      (c', rw (e, register) goes, all)

  -- Where there is memory, a clock, the registration with this name and payload can be serialized,
  -- and no two servers share memory, a registration of a client whose payload is not empty succeeds: every server is sent
  -- one request, in the order of the list, nobody else is sent one, and every server is pending
  -- afterwards.
  pub register-asks :
      {S : Type 0} (address start : ℕ → ℕ) (objects : List (Object S)) (c : Context Packet)
      → get_register_payload objects 64 ≢ []
      → ((mid : ℕ)
          → coap.serialize (
              registration_message coap mid
                (query_template ++ c.endpoint_name)
                (get_register_payload objects 64))
            ≢ [])
      → Distinct server_self c.server_list
      → (c' : Context Packet) × (register coap true (λ p. granted (address p) (start p)) objects c
          ≡ ok (c', 0))
        × (addresses c' ≡ all_asked c.server_list (addresses c))
        × All (Pending c'.server_list) c.server_list
  register-asks address start objects c some_payload written distinct =
      let (b, bytes, e) = nonempty (get_register_payload objects 64) some_payload in
      let (c', goes, all) =
        register_with_payload address start objects c b bytes e (λ mid. rw e at (written mid))
          distinct in
      (c', goes, all.sent, all.pending)
