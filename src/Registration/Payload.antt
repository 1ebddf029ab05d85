-- ===== src/Registration/Payload.antt =====
-- core/registration.c, `prv_decodeRegisterPayload`: the entries of a printed payload are read back.
pub mod Collect
mod Examples
use galileom2m.Prelude.{
  ℕ, zero, suc, ◌≤◌, ◌<◌, ◌≡◌, refl, ap, Bool, true, false, Option, none, some, List, [], ◌∷◌, ◌++◌,
  arith, ltb, leb, ◌==◌, ◌||◌, not, if◌then◌else◌, length, length-append, ◌+◌, drop, All, ◌%◌, ◌^◌,
  ◌∙◌, ◌-◌,
}
use galileom2m.Uri.{get_number, out_of_range, max_id}
use galileom2m.Uri.Numbers.{Digits, decimal, decimal-Digits, get_number-decimal, length-decimal}
use galileom2m.Objects.{Entry, entry_text}
use galileom2m.Objects.Printed.{instance_text, entry_text-eq, further}
use galileom2m.Context.{ClientObject}
use galileom2m.Registration.{
  PayloadId, split_at, read_instance, get_id, add_id, decode_loop, decode_register_payload,
}

module _ {P Q : ℕ → Type 0} where
  All-map : (xs : List ℕ) → ((x : ℕ) → P x → Q x) → All P xs → All Q xs
  All-map [] h all = tt
  All-map (x ∷ xs) h (one, all) = (h x one, All-map xs h all)

All-append : (Q : ℕ → Type 0) (xs ys : List ℕ) → All Q xs → All Q ys → All Q (xs ++ ys)
All-append Q [] ys p q = q
All-append Q (x ∷ xs) ys (one, p) q = (one, All-append Q xs ys p q)

-- The text is at its end, or goes on with a byte that stops.
abbrev Stops : (ℕ → Bool) → List ℕ → Type 0
Stops stop [] = Unit {0}
Stops stop (b ∷ bytes) = stop b ≡ true

split_at-append :
    (stop : ℕ → Bool) (front back : List ℕ)
    → All (λ b. stop b ≡ false) front
    → Stops stop back
    → split_at stop (front ++ back) ≡ (front, back)
unfolding split_at
split_at-append stop [] [] clear stops = refl
split_at-append stop [] (b ∷ back) clear stops = rw stops refl
split_at-append stop (x ∷ front) back (one, clear) stops =
    rw (one, split_at-append stop front back clear stops) refl

-- The bytes of a number, which no separator stops.
abbrev Plain : List ℕ → Type 0
Plain text = All (λ b. (b == b'/' ≡ false) × (b == b' ' ≡ false) × (b == b',' ≡ false)) text

decimal-Plain : (n : ℕ) → Plain (decimal n)
decimal-Plain n =
    All-map (decimal n) (λ b digit. (ground arith, ground arith, ground arith)) (decimal-Digits n)

read_instance-some :
    (text : List ℕ)
    → 1 ≤ length text
    → out_of_range (get_number text) (max_id - 1) ≡ false
    → read_instance text ≡ some (get_number text % 2 ^ 16)
unfolding read_instance
read_instance-some [] long fits = absurd (omega arith)
read_instance-some (b ∷ text) long fits = rw fits refl

split_at-whole :
    (stop : ℕ → Bool) (front : List ℕ)
    → All (λ b. stop b ≡ false) front
    → split_at stop front ≡ (front, [])
unfolding split_at
split_at-whole stop [] clear = refl
split_at-whole stop (x ∷ front) (one, clear) = rw (one, split_at-whole stop front clear) refl

module _ (n : ℕ) (small : n < 65535) where
  number_read : out_of_range (get_number (decimal n)) (max_id - 1) ≡ false
  number_read = ground (arith, get_number-decimal n)

  number_value : get_number (decimal n) % 2 ^ 16 ≡ n
  number_value = ground (arith, get_number-decimal n)

  read_instance-decimal : read_instance (decimal n) ≡ some n
  read_instance-decimal =
      read_instance-some (decimal n) (length-decimal n).0 number_read ∙ ap some number_value

-- An entry whose ids an object and an instance can have.
abbrev pub Readable : Entry → Type 0
Readable e = (e.id < 65535) × ((i : ℕ) → e.instance_id ≡ some i → i < 65535)

abbrev pub named : Entry → PayloadId
named e = record { id = e.id; instance_id = e.instance_id }

abbrev separator : ℕ → Bool
separator b = b == b'/' || b == b' '

decimal-clear : (n : ℕ) → All (λ b. separator b ≡ false) (decimal n)
decimal-clear n = All-map (decimal n) (λ b plain. rw (plain.0, plain.1) refl) (decimal-Plain n)

get_id-text :
    (n : ℕ) (instance : Option ℕ)
    → n < 65535
    → ((i : ℕ) → instance ≡ some i → i < 65535)
    → get_id (decimal n ++ instance_text instance)
      ≡ some (record { id = n; instance_id = instance })
unfolding get_id
get_id-text n none small small_instance =
    let split = split_at-append separator (decimal n) [] (decimal-clear n) tt in
    rw (split, number_read n small, split, number_value n small) refl
get_id-text n (some i) small small_instance =
    let split = split_at-append separator (decimal n) (b'/' ∷ decimal i) (decimal-clear n) refl in
    rw
      (
        split,
        number_read n small,
        split,
        number_value n small,
        split_at-whole (λ b. b == b' ') (decimal i)
            (All-map (decimal i) (λ b plain. plain.1) (decimal-Plain i)),
        read_instance-decimal i (small_instance i refl),
      )
      refl

get_id-entry_text : (e : Entry) → Readable e → get_id (entry_text e) ≡ some (named e)
get_id-entry_text e (small, small_instance) =
    rw (entry_text-eq e) (get_id-text e.id e.instance_id small small_instance)

-- The readable entries, added one after another.
unfoldable pub collect : List Entry → List ClientObject → List ClientObject
collect [] objects = objects
collect (e ∷ es) objects = collect es (add_id (named e) objects)

further-Stops : (es : List Entry) → Stops (λ b. b == b',') (further es)
unfolding further
further-Stops [] = tt
further-Stops (e ∷ es) = refl

-- The bytes of an entry, which end no entry and are not skipped.
abbrev Inner : List ℕ → Type 0
Inner text = All (λ b. (b == b' ' ≡ false) × (b == b',' ≡ false)) text

decimal-Inner : (n : ℕ) → Inner (decimal n)
decimal-Inner n = All-map (decimal n) (λ b plain. (plain.1, plain.2)) (decimal-Plain n)

instance_text-Inner : (instance : Option ℕ) → Inner (instance_text instance)
instance_text-Inner none = tt
instance_text-Inner (some i) = ((refl, refl), decimal-Inner i)

entry_text-Inner : (e : Entry) → Inner (entry_text e)
entry_text-Inner e = rw (entry_text-eq e) (
    All-append _ (decimal e.id) (instance_text e.instance_id) (decimal-Inner e.id)
      (instance_text-Inner e.instance_id))

length-entry_text : (e : Entry) → 1 ≤ length (entry_text e)
length-entry_text e =
    rw (entry_text-eq e) (
      omega
        (arith, length-append (decimal e.id) (instance_text e.instance_id), length-decimal e.id))

-- A round of the loop at an entry.
decode_loop-text :
    (fuel : ℕ) (text rest : List ℕ) (objects : List ClientObject) (p : PayloadId)
    → 1 ≤ length text
    → Inner text
    → Stops (λ b. b == b',') rest
    → get_id text ≡ some p
    → decode_loop (suc fuel) (text ++ rest) objects
      ≡ decode_loop fuel (drop 1 rest) (add_id p objects)
unfolding decode_loop
decode_loop-text fuel [] rest objects p long plain stops read = absurd (omega arith)
decode_loop-text fuel (b ∷ text) rest objects p long (one, plain) stops read =
    let skipped : split_at (λ b. not (b == b' ')) (b ∷ text ++ rest) ≡ ([], b ∷ text ++ rest) =
      split_at-append (λ b. not (b == b' ')) [] (b ∷ text ++ rest) tt (rw one.0 refl) in
    let entry =
      split_at-append (λ b. b == b',') (b ∷ text) rest
        (All-map (b ∷ text) (λ b plain. plain.1) (one, plain)) stops in
    rw (skipped, decode_loop) (rw (entry, read) refl)

decode_loop-space :
    (fuel : ℕ) (payload : List ℕ) (objects : List ClientObject)
    → decode_loop fuel (b' ' ∷ payload) objects ≡ decode_loop fuel payload objects
unfolding decode_loop split_at
decode_loop-space zero payload objects = refl
decode_loop-space (suc fuel) payload objects = refl

decode_loop-further :
    (fuel : ℕ) (es : List Entry) (objects : List ClientObject)
    → length es ≤ fuel
    → All Readable es
    → decode_loop fuel (drop 1 (further es)) objects ≡ collect es objects
unfolding further collect decode_loop split_at
decode_loop-further zero [] objects enough readable = refl
decode_loop-further (suc fuel) [] objects enough readable = refl
decode_loop-further zero (e ∷ es) objects enough readable = absurd (omega arith)
decode_loop-further (suc fuel) (e ∷ es) objects enough (one, readable) =
    decode_loop-space (suc fuel) (entry_text e ++ further es) objects
    ∙ decode_loop-text fuel (entry_text e) (further es) objects (named e) (length-entry_text e)
        (entry_text-Inner e) (further-Stops es) (get_id-entry_text e one)
    ∙ decode_loop-further fuel es (add_id (named e) objects) (omega arith) readable

length-further : (es : List Entry) → length es ≤ length (further es)
unfolding further
length-further [] = omega arith
length-further (e ∷ es) =
    omega (arith, length-append (entry_text e) (further es), length-further es)

-- The parser reads the entries of a payload, and adds one after another.
pub decode_register_payload-collect :
    (e : Entry) (es : List Entry)
    → All Readable (e ∷ es)
    → decode_register_payload (entry_text e ++ further es) ≡ collect (e ∷ es) []
unfolding decode_register_payload collect
decode_register_payload-collect e es (one, readable) =
    let payload = entry_text e ++ further es in
    let long : 1 + length es ≤ length payload =
      omega (
        arith,
        length-append (entry_text e) (further es),
        length-further es,
        length-entry_text e,
      ) in
    let shape : length payload ≡ suc (length payload - 1) = omega arith in
    rw shape (
      decode_loop-text (length payload - 1) (entry_text e) (further es) [] (named e)
        (length-entry_text e) (entry_text-Inner e) (further-Stops es) (get_id-entry_text e one)
      ∙ decode_loop-further (length payload - 1) es (add_id (named e) []) (omega arith) readable)
