-- ===== src/Resources/Served.antt =====
-- tests/client/object.c: whatever a server writes to or reads of the resources of the client, the
-- callbacks stay inside of the arrays.
use galileom2m.Prelude.{
  if-elim, Option-elim_by, ℕ, ◌<◌, ◌≤◌, ◌≡◌, ◌∙◌, refl, true, Option, some, List, length, All,
}
use galileom2m.Coap.{content}
use galileom2m.Context.{Run, ok}
use galileom2m.Uri.{Uri, is_set_resource}
use galileom2m.Objects.{Object, object_read, object_write}
use galileom2m.Resources.{
  ResAccType, read, read_write, exec, ResType, string, int, Cells, Resource, ObjectConfig, find_id,
}
use galileom2m.Resources.Handlers.{
  ReadAnswers, instance_of, resource_read, resource_write, on_read, on_write,
}
use galileom2m.Resources.Bounds.{Serves, All-Serves, find_id-All}
use galileom2m.Resources.RoundTrip.{Exposes, object_read-on_read, object_write-on_write}
use galileom2m.Resources.Values.{
  Written, refused-Written, write_string-Written, write_int-Written, read_string-through,
  read_int-through,
}

-- What holds of the writable case and of the refusal holds of the branch on the access.
writable-elim {ℓ} :
    {A : Type ℓ} (a : ResAccType) (P : A → Type 0) {x y : A}
    → (a ≡ read_write → P x)
    → P y
    → P (elim a [ read_write ↦ x | _ ↦ y ])
writable-elim read P p q = q
writable-elim read_write P p q = p refl
writable-elim exec P p q = q

readable-elim {ℓ} :
    {A : Type ℓ} (a : ResAccType) (P : A → Type 0) {x y : A}
    → P x
    → P y
    → P (elim a [ exec ↦ y | _ ↦ x ])
readable-elim read P p q = p
readable-elim read_write P p q = p
readable-elim exec P p q = q

type-elim {ℓ} :
    {A : Type ℓ} (t : ResType) (P : A → Type 0) {x y : A}
    → (t ≡ string → P x)
    → (t ≡ int → P y)
    → P (elim t [ string ↦ x | int ↦ y ])
type-elim string P p q = p refl
type-elim int P p q = q refl

-- The resource that the uri names is not a multiple integer.
abbrev pub SingleNumber : ObjectConfig → Uri → Type 0
SingleNumber config uri =
    (x : Resource)
    → find_id config.resources uri.resource_id ≡ some x
    → x.type ≡ int
    → x.nof_values ≡ 1

module _ (n cap : ℕ) (config : ObjectConfig) (m : Cells) (uri : Uri)
    (all : All (Serves n cap m) config.resources) (within : instance_of uri < n) where
  resource_write-Written :
      (bytes : List ℕ) → length bytes ≤ cap → Written m (resource_write config m uri bytes)
  unfolding resource_write
  resource_write-Written bytes small = if-elim _ (Written m) (refused-Written m _) (
      Option-elim_by (find_id config.resources uri.resource_id) (Written m) (refused-Written m _)
        (λ x found.
          (let s = find_id-All (Serves n cap m) config.resources uri.resource_id all found in
            writable-elim x.access (Written m)
              (λ writable.
                type-elim x.type (Written m)
                  (λ t.
                    write_string-Written n cap m x s (instance_of uri) within bytes t writable
                      small)
                  (λ t. write_int-Written n cap m x s (instance_of uri) within bytes t))
              (refused-Written m _))))

  Through : Run (ℕ × List ℕ) → Type 0
  Through run = (status : ℕ) × (bytes : List ℕ) × (run ≡ ok (status, bytes))

  resource_read-Through :
      (around : ReadAnswers)
      → is_set_resource uri ≡ true
      → SingleNumber config uri
      → Through (resource_read around config m uri)
  unfolding resource_read Through
  resource_read-Through around named single =
      Option-elim_by (find_id config.resources uri.resource_id) Through (_, _, refl)
        (λ x found.
          (let s = find_id-All (Serves n cap m) config.resources uri.resource_id all found in
            rw named (
              readable-elim x.access Through
                (type-elim x.type Through
                  (λ t. read_string-through n cap m x s (instance_of uri) within around t)
                  (λ t.
                    read_int-through n cap m x s (instance_of uri) within around t
                      (single x found t)))
                (_, _, refl))))

  -- If an object of the client's list is made of a table of resources, every resource of which that
  -- is not multiple has its value in each of the first n instances (a string an array that ends with a
  -- NUL, with room for `cap` bytes and a NUL if it is read-write; an integer a number or NULL), the
  -- flags of the uri fit a byte and name a resource that is not a multiple integer, and its instance is
  -- below n, then a write of at most `cap` bytes and a read are both answered without leaving an array; the read leaves the memory
  -- alone, and after the write every resource still has its values.
  pub object_requests-Serves :
      {objects : List (Object (Option Cells))} {around : ReadAnswers} (bytes : List ℕ)
      → Exposes objects uri around config
      → is_set_resource uri ≡ true
      → SingleNumber config uri
      → length bytes ≤ cap
      → ((status : ℕ) × (m' : Cells) × (object_write objects uri bytes (some m) ≡ (status, some m'))
          × All (Serves n cap m') config.resources)
        × ((status : ℕ) × (content : List ℕ) × (object_read objects uri (some m)
              ≡ (status, content, some m)))
  unfolding on_read on_write Through
  object_requests-Serves {objects} {around} bytes exposes named single small =
      let w = resource_write-Written bytes small in
      let (status, content, shown) = resource_read-Through around named single in
      (
        (
          w.status,
          w.memory,
          object_write-on_write exposes bytes (some m) ∙ rw w.through,
          All-Serves n cap config.resources w.keeps all,
        ),
        (status, content, object_read-on_read exposes (some m) ∙ rw shown),
      )
