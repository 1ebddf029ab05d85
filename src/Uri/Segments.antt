-- ===== src/Uri/Segments.antt =====
-- core/uri.c: what `lwm2m_decode_uri` accepts, and the segments of an uri read back. The segments
-- are those that `transaction_new` of core/transaction.c puts into a request.
use galileom2m.Prelude.{
  ℕ, ◌%◌, ◌^◌, ◌≤◌, ◌<◌, ◌≡◌, ◌⊎◌, inl, inr, refl, Bool, true, false, some, List, [], ◌∷◌, arith,
}
use galileom2m.Uri.{
  Uri, zero_uri, is_set_instance, is_set_resource, get_number, decode_resource, decode_instance,
  decode_object, decode_uri,
}

-- The requests that a decoded uri can stand for: a registration interface with or without an
-- object ID, the bootstrap interface, or an object with or without an instance and a resource.
-- The ids fit their fields, and an id whose flag is not set is 0.
pub record WellFormed (u : Uri) : Type 0 where
  pub object_fits : u.object_id ≤ 0xffff
  pub instance_fits : u.instance_id < 0xffff
  pub resource_fits : u.resource_id ≤ 0xffff
  pub flags :
      (u.flag ≡ 0x20)
      ⊎ (u.flag ≡ 0x24)
      ⊎ (u.flag ≡ 0x40)
      ⊎ (u.flag ≡ 0x04)
      ⊎ (u.flag ≡ 0x05)
      ⊎ (u.flag ≡ 0x06)
      ⊎ (u.flag ≡ 0x07)
  pub no_instance : (is_set_instance u ≡ true) ⊎ (u.instance_id ≡ 0)
  pub no_resource : (is_set_resource u ≡ true) ⊎ (u.resource_id ≡ 0)

module _ (flag o i : ℕ) (ho : o ≤ 0xffff) (hi : i < 0xffff) where
  abbrev so_far : Uri
  so_far = record { flag = flag; object_id = o; instance_id = i; resource_id = 0 }

  decode_resource-WellFormed :
      (segment : List ℕ) (next : List (List ℕ)) (u : Uri)
      → ((flag ≡ 0x04) × (i ≡ 0)) ⊎ (flag ≡ 0x06)
      → decode_resource so_far segment next ≡ some u
      → WellFormed u
  unfolding decode_resource
  decode_resource-WellFormed segment (s ∷ next) u f e = cc
  decode_resource-WellFormed [] [] u (inl f) e = ground arith
  decode_resource-WellFormed [] [] u (inr f) e = ground arith
  decode_resource-WellFormed (c ∷ segment) [] u (inl f) e = ground arith
  decode_resource-WellFormed (c ∷ segment) [] u (inr f) e = ground arith

module _ (o : ℕ) (ho : o ≤ 0xffff) where
  abbrev object_only : Uri
  object_only = record zero_uri { object_id = o; flag = 0x04 }

  decode_instance-WellFormed :
      (path : List (List ℕ)) (u : Uri) → decode_instance object_only path ≡ some u → WellFormed u
  unfolding decode_instance
  decode_instance-WellFormed [] u e = ground arith
  decode_instance-WellFormed ([] ∷ []) u e = ground arith
  decode_instance-WellFormed ([] ∷ segment ∷ next) u e =
      decode_resource-WellFormed 0x04 o 0 ho (omega arith) segment next u (inl (refl, refl)) e
  decode_instance-WellFormed ((c ∷ cs) ∷ []) u e = ground arith
  decode_instance-WellFormed ((c ∷ cs) ∷ segment ∷ next) u e =
      let i = get_number (c ∷ cs) % 2 ^ 16 in
      ground (
        arith,
        λ (small : i < 0xffff).
            decode_resource-WellFormed 0x06 o i ho small segment next u (inr refl),
      )

decode_object-WellFormed :
    (segment : List ℕ) (next : List (List ℕ)) (u : Uri)
    → decode_object zero_uri segment next ≡ some u
    → WellFormed u
unfolding decode_object
decode_object-WellFormed segment next u e =
    let o = get_number segment % 2 ^ 16 in
    ground (arith, λ (small : o ≤ 0xffff). decode_instance-WellFormed o small next u)

registered-WellFormed :
    (segment : List ℕ) (next : List (List ℕ)) (u : Uri)
    → decode_object (record zero_uri { flag = 0x20 }) segment next ≡ some u
    → WellFormed u
unfolding decode_object
registered-WellFormed segment [] u e = ground arith
registered-WellFormed segment (s ∷ next) u e = ground arith

-- Every uri that is accepted is well formed.
pub decode_uri-WellFormed :
    (allocated : Bool) (path : List (List ℕ)) (u : Uri)
    → decode_uri allocated path ≡ some u
    → WellFormed u
unfolding decode_uri
decode_uri-WellFormed allocated [] u e = cc
decode_uri-WellFormed false (segment ∷ next) u e = cc
decode_uri-WellFormed true (segment ∷ []) u e =
    ground (arith, decode_object-WellFormed segment [] u)
decode_uri-WellFormed true (segment ∷ s ∷ next) u e =
    ground (arith, decode_object-WellFormed segment (s ∷ next) u, registered-WellFormed s next u)
