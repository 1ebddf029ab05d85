-- ===== src/Resources/Beyond.antt =====
-- tests/client/object.c: the requests that leave the arrays of the client. Nothing in core/objects.c or
-- in the callbacks asks whether the instance of an uri is one of the object.
use galileom2m.Prelude.{
  ℕ, zero, suc, ◌^◌, ◌<◌, ◌≤◌, ◌≡◌, ◌∙◌, ◌≢◌, refl, true, Option, none, some, List, [], ◌∷◌, arith,
  length, take, get_elem?,
}
use galileom2m.Context.{fault}
use galileom2m.Uri.{Uri, is_set_resource}
use galileom2m.Objects.{Object, object_read, object_write}
use galileom2m.Resources.{
  read_write, exec, string, chars, Cells, slot, store_string, Resource, ObjectConfig, value_at,
  find_id,
}
use galileom2m.Resources.Handlers.{
  ReadAnswers, instance_of, resource_read, resource_write, on_read, on_write, read_int, read_string,
  write_int, write_string,
}
use galileom2m.Resources.RoundTrip.{
  Targets, Exposes, object_read-on_read, object_write-on_write, kept,
}

get_elem?-none : {A : Type 0} (xs : List A) (i : ℕ) → length xs ≤ i → get_elem? xs i ≡ none
get_elem?-none [] i h = refl
get_elem?-none (x ∷ xs) zero h = absurd (omega arith)
get_elem?-none (x ∷ xs) (suc i) h = get_elem?-none xs i (omega arith)

value_at-fault : (x : Resource) (i : ℕ) → length x.values ≡ 100 → 10 ≤ i → value_at x i 0 ≡ fault
unfolding value_at
value_at-fault x i full beyond = rw (get_elem?-none x.values (slot i 0) (omega arith))

module _ {objects : List (Object (Option Cells))} {uri : Uri} {around : ReadAnswers}
    {config : ObjectConfig} {x : Resource} (exposes : Exposes objects uri around config)
    (named : is_set_resource uri ≡ true) (found : find_id config.resources uri.resource_id ≡ some x)
    (single : x.nof_values ≡ 1) (m : Cells) where
  read-fault :
      x.access ≢ exec
      → value_at x (instance_of uri) 0 ≡ fault
      → resource_read around config m uri ≡ fault
  unfolding resource_read read_string read_int
  read-fault open_to_read bad = ground (arith, named, found, single)

  write-fault :
      x.access ≡ read_write
      → value_at x (instance_of uri) 0 ≡ fault
      → (bytes : List ℕ) → resource_write config m uri bytes ≡ fault
  unfolding resource_write write_string write_int
  write-fault open_to_write bad bytes = ground (arith, named, found, single)

  -- If an object of the client's list is made of a table of resources, and the uri names one of them,
  -- which is not executable, has one value and the whole array of 100 pointers, then a read whose
  -- instance is 10 or more leaves the array.
  pub object_read-beyond :
      length x.values ≡ 100
      → x.access ≢ exec
      → 10 ≤ instance_of uri
      → object_read objects uri (some m) ≡ (0, [], none)
  unfolding on_read
  object_read-beyond full open_to_read beyond =
      object_read-on_read exposes (some m)
      ∙ rw (read-fault open_to_read (value_at-fault x (instance_of uri) full beyond))

  -- The same of a write to a writable resource.
  pub object_write-beyond :
      length x.values ≡ 100
      → x.access ≡ read_write
      → 10 ≤ instance_of uri
      → (bytes : List ℕ) → object_write objects uri bytes (some m) ≡ (0, none)
  unfolding on_write
  object_write-beyond full open_to_write beyond bytes =
      object_write-on_write exposes bytes (some m)
      ∙ rw (write-fault open_to_write (value_at-fault x (instance_of uri) full beyond) bytes)

length-take : (n : ℕ) (xs : List ℕ) → n ≤ length xs → length (take n xs) ≡ n
length-take zero xs h = refl
length-take (suc n) [] h = absurd (omega arith)
length-take (suc n) (x ∷ xs) h = omega (arith, length-take n xs (omega arith))

length-kept_full :
    (n : ℕ) (bytes : List ℕ) → n ≤ length bytes → length bytes < 2 ^ 31 → length (kept n bytes) ≡ n
length-kept_full n bytes long small =
    ground (arith, length-take n bytes long, length-take (length bytes) bytes (omega arith))

store_string-fault :
    (m : Cells) (p : ℕ) (bytes old : List ℕ)
    → m p ≡ some (chars old)
    → length old ≤ length bytes
    → store_string m p bytes ≡ fault
unfolding store_string
store_string-fault m p bytes old cell long = ground (arith, cell)

full-fault :
    {config : ObjectConfig} {uri : Uri} {x : Resource} {p : ℕ}
    → Targets string config uri x p
    → (m : Cells) (bytes old : List ℕ) → m p ≡ some (chars old)
    → length old ≡ x.str_buff_sz
    → x.str_buff_sz ≤ length bytes
    → length bytes < 2 ^ 31
    → resource_write config m uri bytes ≡ fault
unfolding resource_write write_string
full-fault {config} {uri} {x} {p} t m bytes old cell exact long small =
    let width = length-kept_full x.str_buff_sz bytes long small in
    ground (
      arith,
      t.named,
      t.found,
      t.both_ways,
      t.same_type,
      t.single,
      t.pointer,
      store_string-fault m p (kept x.str_buff_sz bytes) old cell (omega (arith, width)),
    )

module _ {objects : List (Object (Option Cells))} {uri : Uri} {around : ReadAnswers}
    {config : ObjectConfig} {x : Resource} {p : ℕ} (exposes : Exposes objects uri around config)
    (t : Targets string config uri x p) (m : Cells) where
  -- If an object of the client's list is made of a table of resources, the uri names a read-write
  -- string with one value, whose pointer leads to an array of exactly as many bytes as the string
  -- size of the resource, then every write of that many bytes or more, below 2 ^ 31, leaves the array:
  -- the NUL is written behind it.
  pub object_write-full :
      (bytes old : List ℕ)
      → m p ≡ some (chars old)
      → length old ≡ x.str_buff_sz
      → x.str_buff_sz ≤ length bytes
      → length bytes < 2 ^ 31
      → object_write objects uri bytes (some m) ≡ (0, none)
  unfolding on_write
  object_write-full bytes old cell exact long small =
      object_write-on_write exposes bytes (some m)
      ∙ rw (full-fault t m bytes old cell exact long small)
