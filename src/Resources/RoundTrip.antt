-- ===== src/Resources/RoundTrip.antt =====
-- tests/client/object.c behind core/objects.c: what a server writes to a resource is what it reads.
use galileom2m.Prelude.{
  ℕ, zero, suc, ◌+◌, ◌^◌, ◌<◌, ◌≡◌, ◌∙◌, ◌≢◌, refl, true, false, Option, some, List, [], ◌∷◌, ◌++◌,
  arith, length, take, drop, ◌==◌, lt→ltb, if◌then◌else◌, All,
}
use galileom2m.Coap.{content, changed}
use galileom2m.Context.{ok}
use galileom2m.Uri.{Uri, is_set_resource}
use galileom2m.PlainText.{plain_text_to_int64, int64_to_plain_text}
use galileom2m.PlainText.RoundTrip.{
  plain_text_to_int64-int64_to_plain_text, int64_to_plain_text-ne-nil,
}
use galileom2m.Objects.{Object, find_object, object_read, object_write}
use galileom2m.Objects.Dispatch.{object_write_reaches}
use galileom2m.Resources.{
  read_write, ResType, string, int, Cell, word, chars, Cells, update, load_word, store_word,
  load_string, store_string, before_nul, Resource, ObjectConfig, int_gt, value_at, find_id,
}
use galileom2m.Resources.Handlers.{
  ReadAnswers, instance_of, resource_read, resource_write, on_read, on_write, new_object,
  write_string,
}

-- A request whose uri names a resource that can be read and written, with one value at `p`.
pub record Targets (type : ResType) (config : ObjectConfig) (uri : Uri) (resource : Resource)
    (p : ℕ) : Type 0 where
  pub named : is_set_resource uri ≡ true
  pub found : find_id config.resources uri.resource_id ≡ some resource
  pub same_type : resource.type ≡ type
  pub both_ways : resource.access ≡ read_write
  pub single : resource.nof_values ≡ 1
  pub pointer : value_at resource (instance_of uri) 0 ≡ ok p
  pub not_null : p ≢ 0

-- The object of the uri is one that the test client made of the table.
pub record Exposes (objects : List (Object (Option Cells))) (uri : Uri) (around : ReadAnswers)
    (config : ObjectConfig) : Type 0 where
  pub object : Object (Option Cells)
  pub listed : find_object objects uri.object_id ≡ some object
  pub made : new_object true around uri.object_id config ≡ some object
  pub small_flag : uri.flag < 256

module _ {objects : List (Object (Option Cells))} {uri : Uri} {around : ReadAnswers}
    {config : ObjectConfig} (exposes : Exposes objects uri around config) where
  pub object_read-on_read :
      (s : Option Cells) → object_read objects uri s ≡ on_read around config uri s
  unfolding object_read new_object
  object_read-on_read s = ground (arith, exposes.listed, exposes.made)

  pub object_write-on_write :
      (bytes : List ℕ) (s : Option Cells)
      → object_write objects uri bytes s ≡ on_write config uri bytes s
  unfolding new_object
  object_write-on_write bytes s = ground (
    arith,
    exposes.listed,
    exposes.made,
    object_write_reaches objects uri s exposes.small_flag bytes,
  )

-- What a cell holds after an update, at its own address.
update_self : (m : Cells) (p : ℕ) (cell : Cell) → update m p cell p ≡ some cell
update_self m p cell = ground arith

load_word-update : (m : Cells) (p w : ℕ) → load_word (update m p (word w)) p ≡ ok w
unfolding load_word
load_word-update m p w = rw (update_self m p (word w))

length-ne-nil : (xs : List ℕ) → xs ≢ [] → (length xs == 0) ≡ false
length-ne-nil [] h = absurd (h refl)
length-ne-nil (x ∷ xs) h = ground arith

length-int64_to_plain_text : (w : ℕ) → (length (int64_to_plain_text true w) == 0) ≡ false
length-int64_to_plain_text w =
    length-ne-nil (int64_to_plain_text true w) (int64_to_plain_text-ne-nil w)

module _ {config : ObjectConfig} {uri : Uri} {resource : Resource} {p : ℕ}
    (t : Targets int config uri resource p) where
  pub resource_write-int :
      (m : Cells) (bytes : List ℕ) (old w : ℕ)
      → load_word m p ≡ ok old
      → plain_text_to_int64 bytes ≡ some w
      → resource_write config m uri bytes ≡ ok (changed, update m p (word w))
  unfolding resource_write store_word
  resource_write-int m bytes old w cell text =
      ground (arith, t.named, t.found, t.both_ways, t.same_type, t.single, t.pointer)

  pub resource_read-int :
      (around : ReadAnswers) (m : Cells) (w : ℕ)
      → around.allocated ≡ true
      → load_word m p ≡ ok w
      → resource_read around config m uri ≡ ok (content, int64_to_plain_text true w)
  unfolding resource_read
  resource_read-int around m w memory cell =
      let shown = length-int64_to_plain_text w in
      ground (arith, t.found, t.named, t.both_ways, t.same_type, t.single, t.pointer)

before_nul-append :
    (bytes rest : List ℕ) → All (λ c. c ≢ 0) bytes → before_nul (bytes ++ (0 ∷ rest)) ≡ some bytes
unfolding before_nul
before_nul-append [] rest h = refl
before_nul-append (c ∷ bytes) rest h = ground (arith, before_nul-append bytes rest h.1)

load_string-update :
    (m : Cells) (p : ℕ) (bytes rest : List ℕ)
    → All (λ c. c ≢ 0) bytes
    → load_string (update m p (chars (bytes ++ (0 ∷ rest)))) p ≡ ok bytes
unfolding load_string
load_string-update m p bytes rest h =
    simp (update_self m p (chars (bytes ++ (0 ∷ rest))), before_nul-append bytes rest h)

-- What of a text is kept by a resource for `n` bytes.
abbrev pub kept : ℕ → List ℕ → List ℕ
kept n bytes = take (if int_gt (length bytes) n then n else length bytes) bytes

All-take : (P : ℕ → Type 0) (n : ℕ) (xs : List ℕ) → All P xs → All P (take n xs)
All-take P zero xs h = tt
All-take P (suc n) [] h = tt
All-take P (suc n) (x ∷ xs) h = (h.0, All-take P n xs h.1)

pub store_string-ok :
    (m : Cells) (p : ℕ) (bytes old : List ℕ)
    → m p ≡ some (chars old)
    → length bytes < length old
    → store_string m p bytes ≡ ok (update m p (chars (bytes ++ (0 ∷ drop (length bytes + 1) old))))
unfolding store_string
store_string-ok m p bytes old cell room = rw (cell, lt→ltb (length bytes) (length old) room)

pub write_string-ok :
    (resource : Resource) (instance_id p : ℕ)
    → resource.nof_values ≡ 1
    → value_at resource instance_id 0 ≡ ok p
    → (m : Cells) (bytes old : List ℕ) → m p ≡ some (chars old)
    → length (kept resource.str_buff_sz bytes) < length old
    → let bytes' = kept resource.str_buff_sz bytes in
      write_string m resource instance_id bytes
      ≡ ok (changed, update m p (chars (bytes' ++ (0 ∷ drop (length bytes' + 1) old))))
unfolding write_string
write_string-ok resource instance_id p single pointer m bytes old cell room =
    ground
      (arith, single, pointer, store_string-ok m p (kept resource.str_buff_sz bytes) old cell room)

module _ {config : ObjectConfig} {uri : Uri} {resource : Resource} {p : ℕ}
    (t : Targets string config uri resource p) where
  pub resource_write-string :
      (m : Cells) (bytes old : List ℕ)
      → m p ≡ some (chars old)
      → length (kept resource.str_buff_sz bytes) < length old
      → let bytes' = kept resource.str_buff_sz bytes in
        resource_write config m uri bytes
        ≡ ok (changed, update m p (chars (bytes' ++ (0 ∷ drop (length bytes' + 1) old))))
  unfolding resource_write
  resource_write-string m bytes old cell room = ground (
    arith,
    t.named,
    t.found,
    t.both_ways,
    t.same_type,
    write_string-ok resource (instance_of uri) p t.single t.pointer m bytes old cell room,
  )

  pub resource_read-string :
      (around : ReadAnswers) (m : Cells) (text : List ℕ)
      → around.allocated ≡ true
      → load_string m p ≡ ok text
      → resource_read around config m uri ≡ ok (content, text)
  unfolding resource_read
  resource_read-string around m text memory cell =
      ground (arith, t.found, t.named, t.both_ways, t.same_type, t.single, t.pointer)

module _ {objects : List (Object (Option Cells))} {uri : Uri} {around : ReadAnswers}
    {config : ObjectConfig} {resource : Resource} {p : ℕ}
    (exposes : Exposes objects uri around config) (memory : around.allocated ≡ true) where
  -- If an object of the client's list is made of a table of resources, the flags of the uri fit a
  -- byte and name a resource, that resource is a read-write integer with one value, whose pointer is
  -- not NULL and leads to an integer, and the response has memory, then a write of the text of any
  -- int64_t is answered 2.04 and changes that one cell, and a read that follows is answered 2.05
  -- with the same text.
  pub object_read-object_write_int :
      Targets int config uri resource p
      → (m : Cells) (old w : ℕ) → load_word m p ≡ ok old
      → w < 2 ^ 64
      → let m' = update m p (word w) in
        let text = int64_to_plain_text true w in
        (object_write objects uri text (some m) ≡ (changed, some m'))
        × (object_read objects uri (some m') ≡ (content, text, some m'))
  unfolding on_read on_write
  object_read-object_write_int t m old w cell fits =
      let m' = update m p (word w) in
      let text = int64_to_plain_text true w in
      let stored =
        resource_write-int t m text old w cell (plain_text_to_int64-int64_to_plain_text w fits) in
      let shown = resource_read-int t around m' w memory (load_word-update m p w) in
      (
        object_write-on_write exposes text (some m) ∙ rw stored,
        object_read-on_read exposes (some m') ∙ rw shown,
      )

  -- If an object of the client's list is made of a table of resources, the flags of the uri fit a
  -- byte and name a resource, that resource is a read-write string with one value, whose pointer is
  -- not NULL and leads to an array of char, the response has memory, no byte of the request is a
  -- NUL, and the bytes that the resource's string size keeps leave room for a NUL in the array, then
  -- a write is answered 2.04 and changes that one cell, and a read that follows is answered 2.05
  -- with the bytes that were kept.
  pub object_read-object_write_string :
      Targets string config uri resource p
      → (m : Cells) (bytes old : List ℕ) → m p ≡ some (chars old)
      → All (λ c. c ≢ 0) bytes
      → length (kept resource.str_buff_sz bytes) < length old
      → let text = kept resource.str_buff_sz bytes in
        let m' = update m p (chars (text ++ (0 ∷ drop (length text + 1) old))) in
        (object_write objects uri bytes (some m) ≡ (changed, some m'))
        × (object_read objects uri (some m') ≡ (content, text, some m'))
  unfolding on_read on_write
  object_read-object_write_string t m bytes old cell plain room =
      let text = kept resource.str_buff_sz bytes in
      let rest = drop (length text + 1) old in
      let m' = update m p (chars (text ++ (0 ∷ rest))) in
      let stored = resource_write-string t m bytes old cell room in
      let shown =
        resource_read-string t around m' text memory
          (load_string-update m p text rest (All-take (λ c. c ≢ 0) _ bytes plain)) in
      (
        object_write-on_write exposes bytes (some m) ∙ rw stored,
        object_read-on_read exposes (some m') ∙ rw shown,
      )
