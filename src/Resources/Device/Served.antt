-- ===== src/Resources/Device/Served.antt =====
-- tests/client/object.c: a test of a table of resources and a memory, by which the requests to the
-- first instance stay inside of the arrays.
use mathlib.Core.Path.{subst}
use galileom2m.Prelude.{
  ℕ, ◌<◌, ◌≡◌, ◌⊎◌, inl, inr, refl, Bool, true, false, Option, none, some, Option-cases, Bool-cases,
  if◌then◌else◌, List, [], ◌∷◌, ◌&&◌, ltb, ◌==◌, ==_iff, is_some, length, All, arith,
}
use galileom2m.Context.{Run, ok, fault}
use galileom2m.Resources.{string, int, Cell, word, chars, Cells, before_nul, Resource, value_at}
use galileom2m.Resources.Bounds.{Terminated, Counted, Serves, room_for}

-- An array with a NUL and room behind `size` bytes.
has_array : ℕ → Option Cell → Bool
has_array size none = false
has_array size (some (word w)) = false
has_array size (some (chars text)) = is_some (before_nul text) && ltb size (length text)

has_number : Option Cell → Bool
has_number none = false
has_number (some (word w)) = true
has_number (some (chars text)) = false

value_serves : ℕ → Cells → Resource → ℕ → Bool
unfolding has_array has_number
value_serves size m x p = elim x.type [
  | string ↦ has_array (room_for x.access size) (m p)
  | int ↦ if p == 0 then true else has_number (m p)
]

resource_serves : ℕ → Cells → Resource → Bool
unfolding value_serves
resource_serves size m x = elim (value_at x 0 0) [ fault ↦ false | ok p ↦ value_serves size m x p ]

unfoldable pub table_serves : ℕ → Cells → List Resource → Bool
unfolding resource_serves
table_serves size m [] = true
table_serves size m (x ∷ resources) = resource_serves size m x && table_serves size m resources

has_array-Terminated :
    (size : ℕ) (cell : Option Cell) → has_array size cell ≡ true → Terminated size cell
unfolding has_array
has_array-Terminated size none h = absurd (cc)
has_array-Terminated size (some (word w)) h = absurd (cc)
has_array-Terminated size (some (chars text)) h = elim (Option-cases (before_nul text)) [
  | inl unended ↦ absurd (ground (arith, unended))
  | inr (s, ended) ↦ record {
    text = text;
    read_as = s;
    holds = refl;
    ends = ended;
    room = ground (arith, ended);
  }
]

has_number-Counted : (cell : Option Cell) → has_number cell ≡ true → Counted cell
unfolding has_number
has_number-Counted none h = absurd (cc)
has_number-Counted (some (word w)) h = record { number = w; holds = refl }
has_number-Counted (some (chars text)) h = absurd (cc)

Run-cases : (r : Run ℕ) → (r ≡ fault) ⊎ ((p : ℕ) × (r ≡ ok p))
Run-cases fault = inl refl
Run-cases (ok p) = inr (p, refl)

array_of :
    (size : ℕ) (m : Cells) (x : Resource) (p : ℕ)
    → x.type ≡ string
    → value_serves size m x p ≡ true
    → has_array (room_for x.access size) (m p) ≡ true
unfolding value_serves
array_of size m x p t h = ground (arith, t)

number_of :
    (size : ℕ) (m : Cells) (x : Resource) (p : ℕ)
    → x.type ≡ int
    → value_serves size m x p ≡ true
    → (p ≡ 0) ⊎ (has_number (m p) ≡ true)
unfolding value_serves
number_of size m x p t h = elim (Bool-cases (p == 0)) [
  | inl null ↦ inl ((==_iff p 0).0 null)
  | inr value ↦ inr (ground (arith, t, value))
]

module _ (size : ℕ) (m : Cells) (x : Resource) (p : ℕ) (first : value_at x 0 0 ≡ ok p)
    (fine : value_serves size m x p ≡ true) where
  -- The only value of the first instance.
  only : (i q : ℕ) → i < 1 → value_at x i 0 ≡ ok q → p ≡ q
  only i q h e =
      let start : i ≡ 0 = omega arith in let there : value_at x 0 0 ≡ ok q = rw start at e in cc

  value-Serves : Serves 1 size m x
  value-Serves = record {
    pointer = λ one i h. (let start : i ≡ 0 = omega arith in rw start (p, first));
    strings = λ one t i h q e.
        subst (λ r. Terminated (room_for x.access size) (m r)) (only i q h e)
          (has_array-Terminated (room_for x.access size) (m p) (array_of size m x p t fine));
    ints = λ one t i h q e.
        subst (λ (r : ℕ). (r ≡ 0) ⊎ Counted (m r)) (only i q h e)
          (elim (number_of size m x p t fine) [
            | inl null ↦ inl null
            | inr value ↦ inr (has_number-Counted (m p) value)
          ]);
  }

resource_serves-Serves :
    (size : ℕ) (m : Cells) (x : Resource) → resource_serves size m x ≡ true → Serves 1 size m x
unfolding resource_serves
resource_serves-Serves size m x h = elim (Run-cases (value_at x 0 0)) [
  | inl outside ↦ absurd (ground (arith, outside))
  | inr (p, first) ↦ value-Serves size m x p first (ground (arith, first))
]

pub table_serves-Serves :
    (size : ℕ) (m : Cells) (resources : List Resource)
    → table_serves size m resources ≡ true
    → All (Serves 1 size m) resources
unfolding table_serves
table_serves-Serves size m [] h = tt
table_serves-Serves size m (x ∷ resources) h = (
  resource_serves-Serves size m x (ground arith),
  table_serves-Serves size m resources (ground arith),
)
