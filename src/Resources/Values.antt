-- ===== src/Resources/Values.antt =====
-- tests/client/object.c: a write to or a read of one value of a resource stays inside of the arrays.
use mathlib.Core.Path.{subst}
use galileom2m.Prelude.{
  sym, ==_iff, ℕ, zero, suc, ◌<◌, ◌≤◌, ◌≡◌, ◌≢◌, refl, Bool-cases, Option-cases, List, [], ◌∷◌, ◌⊎◌,
  inl, inr, arith, length, take, ◌==◌, if◌then◌else◌,
}
use galileom2m.Coap.{not_implemented, content, changed, bad_request, internal_server_error}
use galileom2m.PlainText.{plain_text_to_int64, int64_to_plain_text}
use galileom2m.Context.{Run, ok}
use galileom2m.Resources.{
  read_write, string, int, word, Cells, update, load_word, store_word, load_string, Resource,
}
use galileom2m.Resources.Handlers.{ReadAnswers, read_int, read_string, write_int, write_string}
use galileom2m.Resources.Bounds.{
  room_for, Terminated, Counted, Serves, Keeps, word-Keeps, chars-Keeps,
}
use galileom2m.Resources.RoundTrip.{kept, write_string-ok}

-- A run that goes through, and what it leaves of the memory.
pub record Written (m : Cells) (run : Run (ℕ × Cells)) : Type 0 where
  pub status : ℕ
  pub memory : Cells
  pub through : run ≡ ok (status, memory)
  pub keeps : Keeps m memory

unchanged-Keeps : (m : Cells) → Keeps m m
unchanged-Keeps m = record { arrays = λ size p t. t; numbers = λ p c. c }

pub refused-Written : (m : Cells) (status : ℕ) → Written m (ok (status, m))
refused-Written m status = record {
  status = status;
  memory = m;
  through = refl;
  keeps = unchanged-Keeps m;
}

length-take-le : (n : ℕ) (xs : List ℕ) → length (take n xs) ≤ length xs
length-take-le zero xs = omega arith
length-take-le (suc n) [] = omega arith
length-take-le (suc n) (x ∷ xs) = omega (arith, length-take-le n xs)

length-kept : (n : ℕ) (bytes : List ℕ) → length (kept n bytes) ≤ length bytes
length-kept n bytes = ground (arith, length-take-le n bytes, length-take-le (length bytes) bytes)

store_word-ok : (m : Cells) (p w : ℕ) → Counted (m p) → store_word m p w ≡ ok (update m p (word w))
unfolding store_word load_word
store_word-ok m p w counted = rw counted.holds

load_word-ok : (m : Cells) (p : ℕ) (counted : Counted (m p)) → load_word m p ≡ ok counted.number
unfolding load_word
load_word-ok m p counted = rw counted.holds

load_string-ok :
    (m : Cells) (p size : ℕ) (t : Terminated size (m p)) → load_string m p ≡ ok t.read_as
unfolding load_string
load_string-ok m p size t = rw (t.holds, t.ends)

-- A pointer that is NULL, or leads to a number.
value-cases : (m : Cells) (p : ℕ) → (p ≡ 0) ⊎ Counted (m p) → (p ≡ 0) ⊎ ((p ≢ 0) × Counted (m p))
value-cases m p (inl null) = inl null
value-cases m p (inr counted) = elim (Bool-cases (p == 0)) [
  | inl null ↦ inl ((==_iff p 0).0 null)
  | inr value ↦ inr (ground arith, counted)
]

module _ (n cap : ℕ) (m : Cells) (x : Resource) (s : Serves n cap m x) (i : ℕ)
    (within : i < n) where
  -- The four requests to one value. What is multiple is not touched.
  pub write_string-Written :
      (bytes : List ℕ)
      → x.type ≡ string
      → x.access ≡ read_write
      → length bytes ≤ cap
      → Written m (write_string m x i bytes)
  unfolding write_string
  write_string-Written bytes t writable small = elim (Bool-cases (x.nof_values == 1)) [
    | inr multiple ↦
        subst (Written m) (sym (ground (arith, multiple))) (refused-Written m not_implemented)
    | inl single ↦
        (let one : x.nof_values ≡ 1 = (==_iff x.nof_values 1).0 single in
          let (p, e) = s.pointer one i within in
          let array = s.strings one t i within p e in
          let space : room_for x.access cap ≡ cap = rw writable refl in
          let room : length (kept x.str_buff_sz bytes) < length array.text =
            omega (arith, length-kept x.str_buff_sz bytes, array.room, space) in
          record {
            status = changed;
            memory = _;
            through = write_string-ok x i p one e m bytes array.text array.holds room;
            keeps = chars-Keeps m p (kept x.str_buff_sz bytes) array.text array.holds room;
          })
  ]

  pub write_int-Written : (bytes : List ℕ) → x.type ≡ int → Written m (write_int m x i bytes)
  unfolding write_int
  write_int-Written bytes t = elim (Bool-cases (x.nof_values == 1)) [
    | inr multiple ↦
        subst (Written m) (sym (ground (arith, multiple))) (refused-Written m bad_request)
    | inl single ↦
        (let one : x.nof_values ≡ 1 = (==_iff x.nof_values 1).0 single in
          let (p, e) = s.pointer one i within in
          elim (value-cases m p (s.ints one t i within p e)) [
            | inl null ↦
                subst (Written m) (sym (ground (arith, one, e))) (refused-Written m bad_request)
            | inr (value, counted) ↦ elim (Option-cases (plain_text_to_int64 bytes)) [
              | inl bad ↦
                  subst (Written m) (sym (ground (arith, one, e, bad)))
                    (refused-Written m bad_request)
              | inr (w, good) ↦ record {
                status = changed;
                memory = update m p (word w);
                through = ground (arith, one, e, good, store_word-ok m p w counted);
                keeps = word-Keeps m p w counted;
              }
            ]
          ])
  ]

  pub read_string-through :
      (around : ReadAnswers)
      → x.type ≡ string
      → (status : ℕ) × (bytes : List ℕ) × (read_string around m x i ≡ ok (status, bytes))
  unfolding read_string
  read_string-through around t = elim (Bool-cases (x.nof_values == 1)) [
    | inr multiple ↦ (not_implemented, [], ground (arith, multiple))
    | inl single ↦
        (let one : x.nof_values ≡ 1 = (==_iff x.nof_values 1).0 single in
          let (p, e) = s.pointer one i within in
          let array = s.strings one t i within p e in
          (
            if around.allocated then content else internal_server_error,
            if around.allocated then array.read_as else [],
            ground (arith, one, e, load_string-ok m p (room_for x.access cap) array),
          ))
  ]

  pub read_int-through :
      (around : ReadAnswers)
      → x.type ≡ int
      → x.nof_values ≡ 1
      → (status : ℕ) × (bytes : List ℕ) × (read_int around m x i ≡ ok (status, bytes))
  unfolding read_int
  read_int-through around t one =
      let (p, e) = s.pointer one i within in
      elim (value-cases m p (s.ints one t i within p e)) [
        | inl null ↦ (internal_server_error, [], ground (arith, one, e))
        | inr (value, counted) ↦ (
          if length (int64_to_plain_text around.allocated counted.number) == 0
              then internal_server_error
              else content,
          int64_to_plain_text around.allocated counted.number,
          ground (arith, one, e, load_word-ok m p counted),
        )
      ]
