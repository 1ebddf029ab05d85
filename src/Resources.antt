-- ===== src/Resources.antt =====
-- tests/client/object.c and object.h: the table of resources that the test client builds its objects
-- from. An `int` is its 32-bit pattern, `nof_values` is a number that is never negative, and
-- `nof_resources` is the length of the table. A value is the address of a cell, 0 for NULL; the rows
-- of `values` stand one behind the other. An access outside of the array of a resource, or of a
-- cell, is a fault, and so is reading a cell as another type than it has.
pub mod Build
pub mod Dump
pub mod Handlers
pub mod RoundTrip
pub mod Table
pub mod Bounds
pub mod Values
pub mod Served
pub mod Beyond
pub mod Entering
pub mod Device
pub mod Applications
mod Examples
use Prim.Native.String.{String}
use galileom2m.Prelude.{
  ℕ, ◌+◌, ◌-◌, ◌*◌, ◌%◌, ◌^◌, Bool, true, false, Option, none, some, List, [], ◌∷◌, ◌++◌, ltb, ◌==◌,
  if◌then◌else◌, length, get_elem?, take, drop,
}
use galileom2m.Context.{Run, ok, fault, ◌>>=◌, deref}

pub data ResAccType : Type 0 where
  read read_write exec : ResAccType

pub data ResType : Type 0 where
  string int : ResType

-- What stands at an address: a `uint64_t`, or the bytes of an array of `char`.
pub data Cell : Type 0 where
  word : ℕ → Cell
  chars : List ℕ → Cell

abbrev pub Cells : Type 0
Cells = ℕ → Option Cell

abbrev pub update : Cells → ℕ → Cell → Cells
update m p cell q = if p == q then some cell else m q

abbrev word_of : Cell → Run ℕ
word_of (word w) = ok w
word_of (chars text) = fault

abbrev chars_of : Cell → Run (List ℕ)
chars_of (word w) = fault
chars_of (chars text) = ok text

-- `*(uint64_t *) p`
unfoldable pub load_word : Cells → ℕ → Run ℕ
load_word m p = do cell ← deref (m p); word_of cell

unfoldable pub store_word : Cells → ℕ → ℕ → Run Cells
store_word m p w = do old ← load_word m p; ok (update m p (word w))

-- The bytes before the first NUL, if there is one.
unfoldable pub before_nul : List ℕ → Option (List ℕ)
before_nul [] = none
before_nul (c ∷ text) =
    if c == 0 then some [] else elim (before_nul text) [ none ↦ none | some s ↦ some (c ∷ s) ]

-- A string, as `strlen` and `strdup` read it.
unfoldable pub load_string : Cells → ℕ → Run (List ℕ)
unfolding before_nul
load_string m p = do cell ← deref (m p); text ← chars_of cell; deref (before_nul text)

-- `memcpy` of the bytes, and a NUL behind them.
unfoldable pub store_string : Cells → ℕ → List ℕ → Run Cells
store_string m p bytes = do
  cell ← deref (m p)
  text ← chars_of cell
  if ltb (length bytes) (length text)
      then ok (update m p (chars (bytes ++ (0 ∷ drop (length bytes + 1) text))))
      else fault

pub record Resource : Type 0 where
  pub desc : Option String
  pub id : ℕ
  pub access : ResAccType
  pub type : ResType
  pub exec_fnc : Option (ℕ → Cells → Run (ℕ × Cells))
  pub nof_values : ℕ
  pub str_buff_sz : ℕ
  pub values : List ℕ

pub record ObjectConfig : Type 0 where
  pub resources : List Resource
  pub nof_instances : ℕ

abbrev pub max_obj_instances : ℕ
max_obj_instances = 10

abbrev pub max_data_values : ℕ
max_data_values = 10

-- Where `values[instance][n]` stands.
abbrev pub slot : ℕ → ℕ → ℕ
slot instance_id n = instance_id * max_data_values + n

unfoldable pub value_at : Resource → ℕ → ℕ → Run ℕ
value_at resource instance_id n = deref (get_elem? resource.values (slot instance_id n))

-- `a > b` between two ints.
abbrev pub int_gt : ℕ → ℕ → Bool
int_gt a b = ltb ((b + 2 ^ 31) % 2 ^ 32) ((a + 2 ^ 31) % 2 ^ 32)

-- The first entry of the id; what is written through the pointer to it is in `replace_id`.
unfoldable pub find_id : List Resource → ℕ → Option Resource
find_id [] id = none
find_id (x ∷ resources) id = if x.id == id then some x else find_id resources id

unfoldable pub replace_id : List Resource → ℕ → Resource → List Resource
replace_id [] id new = []
replace_id (x ∷ resources) id new =
    if x.id == id then new ∷ resources else x ∷ replace_id resources id new
