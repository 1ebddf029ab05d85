-- ===== src/Transaction/Path.antt =====
-- core/transaction.c against core/uri.c: the path of a request is decoded to the uri it was made of.
use galileom2m.Prelude.{
  ℕ, ◌+◌, ◌<◌, ◌≡◌, inl, inr, sym, ◌∙◌, bit_and, true, some, List, [], ◌∷◌, ◌++◌, ◌==◌,
  if◌then◌else◌, Bool-cases,
}
use mathlib.Core.List.{append_assoc, append-nil}
use galileom2m.Coap.{Coap, PathLaws, con}
use galileom2m.Uri.{Uri, is_set_instance, is_set_resource, decode_uri}
use galileom2m.Uri.Decimal.{
  decode_uri_object, decode_uri_resource, decode_uri_instance, decode_uri_full,
}
use galileom2m.Transaction.{uri_segments, set_segments, request}

-- The uri that a request for `u` stands for: the ids whose flags are set.
pub addressed : Uri → Uri
addressed u = record {
  flag = 4 + (if is_set_instance u then 2 else 0) + (if is_set_resource u then 1 else 0);
  object_id = u.object_id;
  instance_id = if is_set_instance u then u.instance_id else 0;
  resource_id = if is_set_resource u then u.resource_id else 0;
}

decode_uri-uri_segments :
    (u : Uri)
    → u.object_id < 65536
    → u.instance_id < 65535
    → u.resource_id < 65536
    → decode_uri true (uri_segments u) ≡ some (addressed u)
unfolding uri_segments addressed
decode_uri-uri_segments u ho hi hr = elim (Bool-cases (bit_and u.flag 2 == 0)) [
  | inl no_inst ↦ elim (Bool-cases (bit_and u.flag 1 == 0)) [
    | inl no_res ↦ rw (no_inst, no_res) (decode_uri_object u.object_id _ _ ho hi hr)
    | inr res ↦ rw (no_inst, res) (decode_uri_resource u.object_id _ u.resource_id ho hi hr)
  ]
  | inr inst ↦ elim (Bool-cases (bit_and u.flag 1 == 0)) [
    | inl no_res ↦ rw (inst, no_res) (decode_uri_instance u.object_id u.instance_id _ ho hi hr)
    | inr res ↦ rw (inst, res) (decode_uri_full u.object_id u.instance_id u.resource_id ho hi hr)
  ]
]

module _ (coap : Coap) (laws : PathLaws coap) where
  uri_path-set_segments :
      (p : coap.Packet) (segments : List (List ℕ))
      → coap.uri_path (set_segments coap p segments) ≡ coap.uri_path p ++ segments
  unfolding set_segments
  uri_path-set_segments p [] = sym (append-nil _)
  uri_path-set_segments p (s ∷ segments) =
      uri_path-set_segments (coap.set_uri_path_segment p s) segments
      ∙ rw (laws.add_segment p s) (append_assoc (coap.uri_path p) (s ∷ []) segments)

  -- The path of the request that `transaction_new` makes for an uri with 16-bit ids and an instance
  -- below 65535 is decoded to that uri: the ids whose flags are set, with those flags, and no
  -- others. The path laws of the CoAP library are assumed.
  pub decode_uri-request :
      (method mid : ℕ) (u : Uri)
      → u.object_id < 65536
      → u.instance_id < 65535
      → u.resource_id < 65536
      → decode_uri true (coap.uri_path (request coap method (some u) mid)) ≡ some (addressed u)
  unfolding request
  decode_uri-request method mid u ho hi hr =
      rw
        (
          uri_path-set_segments (coap.init_message con method mid) (uri_segments u),
          laws.new_path con method mid,
        )
        (decode_uri-uri_segments u ho hi hr)
