-- ===== src/Objects/Dispatch.antt =====
-- core/objects.c: which callback a request reaches. The comparisons inside the brackets of
-- `flag & (... == 0)` and `flag & (... != 0)` come first, so the masks are 0 and 1.
use galileom2m.Prelude.{ℕ, ◌<◌, ◌≡◌, Option, none, some, List, arith, if◌then◌else◌, bit_and_zero}
use galileom2m.Coap.{bad_request, not_found, method_not_allowed}
use galileom2m.Uri.{Uri, is_set_resource}
use galileom2m.Objects.{Object, find_object, object_write, object_create_execute, object_delete}

module _ {S : Type 0} (objects : List (Object S)) (uri : Uri) (s : S) (fits : uri.flag < 256) where
  -- The callback of an object that exists, or the status for what is missing.
  abbrev pub reach : {A : Type 0} → (Object S → Option A) → (A → ℕ × S) → ℕ × S
  reach field call = elim (find_object objects uri.object_id) [
    | none ↦ (not_found, s)
    | some o ↦ elim (field o) [ none ↦ (method_not_allowed, s) | some f ↦ call f ]
  ]

  -- Where the flags fit a byte, a write reaches the write callback of its object whatever segments
  -- its uri has: 4.04 without
  -- the object and 4.05 without the callback are the only statuses that the dispatch gives itself.
  pub object_write_reaches :
      (buffer : List ℕ)
      → object_write objects uri buffer s ≡ reach (λ o. o.write_func) (λ write. write uri buffer s)
  unfolding object_write
  object_write_reaches buffer = rw (bit_and_zero uri.flag fits)

  -- Where the flags fit a byte, a delete is refused with 4.00 exactly if its uri has a resource, and otherwise reaches the
  -- delete callback of its object with the instance of the uri, set or not.
  pub object_delete_reaches : object_delete objects uri s ≡ (
      if is_set_resource uri
      then (bad_request, s)
      else reach (λ o. o.delete_func) (λ remove. remove uri.instance_id s))
  unfolding object_delete
  object_delete_reaches = rw (bit_and_zero uri.flag fits)

  -- Where the flags fit a byte, a post to an object that exists reaches the execute callback exactly if its uri has a resource,
  -- with or without an instance, and is refused with 4.00 otherwise: the create callback is never
  -- reached.
  pub object_create_execute_reaches :
      (buffer : List ℕ)
      → object_create_execute objects uri buffer s ≡ (elim (find_object objects uri.object_id) [
        | none ↦ (not_found, s)
        | some o ↦
            if is_set_resource uri
            then elim o.execute_func [
              | none ↦ (method_not_allowed, s)
              | some run ↦ run uri buffer s
            ]
            else (bad_request, s)
      ])
  unfolding object_create_execute
  object_create_execute_reaches buffer = ground (arith, bit_and_zero uri.flag fits)
