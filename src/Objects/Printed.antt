-- ===== src/Objects/Printed.antt =====
-- core/objects.c, `prv_getRegisterPayload`: the payload is the entries, with ", " between them.
use galileom2m.Prelude.{
  ℕ, ◌-◌, ◌≡◌, ◌≢◌, refl, Option, none, some, List, [], ◌∷◌, ◌++◌, arith, length, take, sym, ap,
  ◌∙◌, append-nil, append_assoc, take_all, length-append, Option-cases, inl, inr,
}
use galileom2m.Uri.Numbers.{decimal}
use galileom2m.Objects.{Object, Entry, entry_text, entries, write_entries, get_register_payload}

abbrev pub instance_text : Option ℕ → List ℕ
instance_text none = []
instance_text (some i) = b'/' ∷ decimal i

pub entry_text-eq : (e : Entry) → entry_text e ≡ decimal e.id ++ instance_text e.instance_id
unfolding entry_text
entry_text-eq e = elim (Option-cases e.instance_id) [
  | inl none_left ↦ rw none_left (sym (append-nil (decimal e.id)))
  | inr (i, one) ↦ rw one refl
]

-- The entries behind the first.
unfoldable pub further : List Entry → List ℕ
further [] = []
further (e ∷ es) = b',' ∷ b' ' ∷ entry_text e ++ further es

-- What the loop writes behind a text.
abbrev printed : List Entry → List ℕ
printed [] = []
printed (e ∷ es) = entry_text e ++ (b',' ∷ b' ' ∷ printed es)

write_entries-printed :
    (text : List ℕ) (room : ℕ) (es : List Entry) (text' : List ℕ)
    → write_entries text room es ≡ some text'
    → text' ≡ text ++ printed es
unfolding write_entries
write_entries-printed text room [] text' e = ground (arith, append-nil text)
write_entries-printed text room (e ∷ es) text' done =
    let item = entry_text e ++ (b',' ∷ b' ' ∷ []) in
    ground (
      arith,
      write_entries-printed (text ++ item) (room - length item) es text',
      append_assoc text item (printed es),
      append_assoc (entry_text e) (b',' ∷ b' ' ∷ []) (printed es),
    )

printed-further :
    (e : Entry) (es : List Entry)
    → printed (e ∷ es) ≡ entry_text e ++ further es ++ (b',' ∷ b' ' ∷ [])
unfolding further
printed-further e [] = rw (append-nil (entry_text e)) refl
printed-further e (e' ∷ es) = rw (printed-further e' es, append_assoc (entry_text e)) refl

take-printed :
    (e : Entry) (es : List Entry)
    → take (length (printed (e ∷ es)) - 2) (printed (e ∷ es)) ≡ entry_text e ++ further es
take-printed e es =
    let text = entry_text e ++ further es in
    let long : length (text ++ (b',' ∷ b' ' ∷ [])) - 2 ≡ length text =
      omega (arith, length-append text (b',' ∷ b' ' ∷ [])) in
    rw (printed-further e es, long) (take_all text (b',' ∷ b' ' ∷ []))

-- What `get_register_payload` makes of the result of the loop.
abbrev cut : Option (List ℕ) → List ℕ
cut none = []
cut (some text) = take (length text - 2) text

cut-further :
    (size : ℕ) (es : List Entry)
    → cut (write_entries [] size es) ≢ []
    → (e : Entry) × (es' : List Entry) × (es ≡ e ∷ es')
      × (cut (write_entries [] size es) ≡ entry_text e ++ further es')
unfolding write_entries
cut-further size [] some_payload = absurd (some_payload refl)
cut-further size (e ∷ es) some_payload = elim (Option-cases (write_entries [] size (e ∷ es))) [
  | inl failed ↦ absurd (some_payload (ap cut failed))
  | inr (text, done) ↦
      (let whole = write_entries-printed [] size (e ∷ es) text done in
        (e, es, refl, ap cut (done ∙ ap some whole) ∙ take-printed e es))
]

-- A payload that is not empty is all the entries.
pub get_register_payload-entries :
    {S : Type 0} (objects : List (Object S)) (size : ℕ)
    → get_register_payload objects size ≢ []
    → (e : Entry) × (es : List Entry) × (entries objects ≡ e ∷ es)
      × (get_register_payload objects size ≡ entry_text e ++ further es)
unfolding get_register_payload
get_register_payload-entries objects size some_payload =
    cut-further size (entries objects) some_payload
