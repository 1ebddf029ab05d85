-- ===== src/Resources/Bounds.antt =====
-- tests/client/object.c: the requests that stay inside of the arrays of the client, and those that do
-- not.
use mathlib.Core.Path.{subst}
use galileom2m.Prelude.{
  sym, ==_iff, ℕ, zero, suc, ◌+◌, ◌<◌, ◌≤◌, ◌≡◌, refl, ap, Bool-cases, Option, some, List, [], ◌∷◌,
  ◌++◌, ◌⊎◌, inl, inr, arith, length, drop, ◌==◌, if◌then◌else◌, All, length-append,
}
use galileom2m.Context.{ok}
use galileom2m.Resources.{
  ResAccType, read, read_write, exec, string, int, Cell, word, chars, Cells, update, before_nul,
  Resource, value_at, find_id,
}

-- The array is terminated somewhere, and has room for a NUL behind `size` bytes.
pub record Terminated (size : ℕ) (cell : Option Cell) : Type 0 where
  pub text : List ℕ
  pub read_as : List ℕ
  pub holds : cell ≡ some (chars text)
  pub ends : before_nul text ≡ some read_as
  pub room : size < length text

pub record Counted (cell : Option Cell) : Type 0 where
  pub number : ℕ
  pub holds : cell ≡ some (word number)

-- Only a read-write array is written: there `cap` bytes and a NUL have room.
abbrev pub room_for : ResAccType → ℕ → ℕ
room_for read_write cap = cap
room_for read cap = 0
room_for exec cap = 0

-- A resource that is not multiple has its value in each of the first `n` instances: a string an array
-- with a NUL, and an integer its number or NULL.
pub record Serves (n cap : ℕ) (m : Cells) (x : Resource) : Type 0 where
  pub pointer : x.nof_values ≡ 1 → (i : ℕ) → i < n → (p : ℕ) × (value_at x i 0 ≡ ok p)
  pub strings :
      x.nof_values ≡ 1
      → x.type ≡ string
      → (i : ℕ) → i < n
      → (p : ℕ) → value_at x i 0 ≡ ok p
      → Terminated (room_for x.access cap) (m p)
  pub ints :
      x.nof_values ≡ 1
      → x.type ≡ int
      → (i : ℕ) → i < n
      → (p : ℕ) → value_at x i 0 ≡ ok p
      → (p ≡ 0) ⊎ Counted (m p)

-- What a write leaves of a cell: its type, and of an array its length and a NUL.
pub record Keeps (m m' : Cells) : Type 0 where
  pub arrays : (size p : ℕ) → Terminated size (m p) → Terminated size (m' p)
  pub numbers : (p : ℕ) → Counted (m p) → Counted (m' p)

Serves-Keeps :
    (n cap : ℕ) {m m' : Cells} (x : Resource) → Keeps m m' → Serves n cap m x → Serves n cap m' x
Serves-Keeps n cap x keeps s = record {
  pointer = s.pointer;
  strings = λ one t i h p e. keeps.arrays (room_for x.access cap) p (s.strings one t i h p e);
  ints = λ one t i h p e. elim (s.ints one t i h p e) [
    | inl null ↦ inl null
    | inr c ↦ inr (keeps.numbers p c)
  ];
}

pub All-Serves :
    (n cap : ℕ) {m m' : Cells} (resources : List Resource)
    → Keeps m m'
    → All (Serves n cap m) resources
    → All (Serves n cap m') resources
All-Serves n cap [] keeps h = tt
All-Serves n cap (x ∷ resources) keeps h =
    (Serves-Keeps n cap x keeps h.0, All-Serves n cap resources keeps h.1)

pub find_id-All :
    (P : Resource → Type 0) (resources : List Resource) (id : ℕ) {x : Resource}
    → All P resources
    → find_id resources id ≡ some x
    → P x
unfolding find_id
find_id-All P [] id h found = cc
find_id-All P (y ∷ resources) id {x} h found = elim (Bool-cases (y.id == id)) [
  | inl here ↦ (let same : y ≡ x = ground arith in subst P same h.0)
  | inr there ↦ find_id-All P resources id h.1 (ground arith)
]

-- The cell of an address after an update, in both cases.
update-cases :
    (m : Cells) (p q : ℕ) (cell : Cell)
    → ((m q ≡ m p) × (update m p cell q ≡ some cell)) ⊎ (update m p cell q ≡ m q)
update-cases m p q cell = elim (Bool-cases (p == q)) [
  | inl same ↦ inl (ap m ((==_iff q p).0 (ground arith)), ground arith)
  | inr apart ↦ inr (ground arith)
]

pub word-Keeps : (m : Cells) (p w : ℕ) → Counted (m p) → Keeps m (update m p (word w))
word-Keeps m p w counted = record {
  arrays = λ size q t. elim (update-cases m p q (word w)) [
    | inl (same, new) ↦ absurd (let clash = t.holds in let number = counted.holds in cc)
    | inr other ↦ subst (Terminated size) (sym other) t
  ];
  numbers = λ q c. elim (update-cases m p q (word w)) [
    | inl (same, new) ↦ record { number = w; holds = new }
    | inr other ↦ subst Counted (sym other) c
  ];
}

before_nul-some : (bytes rest : List ℕ) → (s : List ℕ) × (before_nul (bytes ++ (0 ∷ rest)) ≡ some s)
unfolding before_nul
before_nul-some [] rest = ([], refl)
before_nul-some (c ∷ bytes) rest =
    let (s, e) = before_nul-some bytes rest in (if c == 0 then [] else c ∷ s, ground (arith, e))

length-drop : (n : ℕ) (xs : List ℕ) → n ≤ length xs → n + length (drop n xs) ≡ length xs
length-drop zero xs h = omega arith
length-drop (suc n) [] h = absurd (omega arith)
length-drop (suc n) (x ∷ xs) h = omega (arith, length-drop n xs (omega arith))

length-rewritten :
    (bytes old : List ℕ)
    → length bytes < length old
    → length (bytes ++ (0 ∷ drop (length bytes + 1) old)) ≡ length old
length-rewritten bytes old room = omega (
  arith,
  length-append bytes (0 ∷ drop (length bytes + 1) old),
  length-drop (length bytes + 1) old (omega arith),
)

pub chars-Keeps :
    (m : Cells) (p : ℕ) (bytes old : List ℕ)
    → m p ≡ some (chars old)
    → length bytes < length old
    → Keeps m (update m p (chars (bytes ++ (0 ∷ drop (length bytes + 1) old))))
chars-Keeps m p bytes old cell room =
    let new = bytes ++ (0 ∷ drop (length bytes + 1) old) in
    let (s, ended) = before_nul-some bytes (drop (length bytes + 1) old) in
    record {
      arrays = λ size q t. elim (update-cases m p q (chars new)) [
        | inl (same, now) ↦
            (let was : t.text ≡ old = (let held = t.holds in cc) in
              record {
                text = new;
                read_as = s;
                holds = now;
                ends = ended;
                room = rw (length-rewritten bytes old room) (rw was at t.room);
              })
        | inr other ↦ subst (Terminated size) (sym other) t
      ];
      numbers = λ q c. elim (update-cases m p q (chars new)) [
        | inl (same, now) ↦ absurd (let held = c.holds in cc)
        | inr other ↦ subst Counted (sym other) c
      ];
    }
