-- ===== src/Observe/Servers.antt =====
-- core/observe.c, `prv_findServer`: which server a request is taken to come from.
use galileom2m.Prelude.{
  ◌≡◌, false, Option, none, some, List, [], ◌∷◌, arith, ◌==◌, if◌then◌else◌, length,
}
use galileom2m.Context.{Server, Address}
use galileom2m.Observe.{find_server, same_bytes}

-- The first server whose address has the length of `from`.
pub first_of_length : List Server → Address → Option Server
first_of_length [] from = none
first_of_length (s ∷ servers) from =
    if length s.addr == length from then some s else first_of_length servers from

abbrev pub NoneBegins : List Server → Address → Type 0
NoneBegins [] from = Unit {0}
NoneBegins (s ∷ servers) from = (same_bytes s.addr from ≡ false) × NoneBegins servers from

-- Where no server's address begins with the address of the sender, so that the sender is none of
-- the servers, the search still finds the first server whose address is as long as the sender's:
-- the bytes of the address make no difference.
pub find_server-first_of_length :
    (servers : List Server) (from : Address)
    → NoneBegins servers from
    → find_server servers from ≡ first_of_length servers from
unfolding find_server first_of_length
find_server-first_of_length [] from h = ground arith
find_server-first_of_length (s ∷ servers) from (differs, rest) =
    ground (arith, find_server-first_of_length servers from rest)
