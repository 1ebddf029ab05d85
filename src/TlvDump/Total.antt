-- ===== src/TlvDump/Total.antt =====
-- tests/TLV/decode.c: when the printing ends, and when it goes on behind the buffer.
use mathlib.Core.Path.{subst}
use galileom2m.Prelude.{
  ℕ, zero, suc, ◌+◌, ◌-◌, ◌<◌, ◌≤◌, ◌≡◌, ◌≢◌, inl, inr, ◌⊎◌, ◌++◌, true, false, if◌then◌else◌, none,
  refl, sym, ap, ◌∙◌, Option-cases, Bool-cases, some, List, [], ◌∷◌, arith, ◌==◌, length, take,
  drop, Option-elim_by,
}
use galileom2m.Tlv.{Tlv, decode_tlv}
use galileom2m.Tlv.Decode.{decode_tlv_bounds}
use galileom2m.TlvDump.{
  Line, Dump, printed, overread, out_of_fuel, then_print, after, is_container, content_of, line_of,
  decode,
}

length-drop : (n : ℕ) (xs : List ℕ) → length (drop n xs) ≡ length xs - n
length-drop zero xs = omega arith
length-drop (suc n) [] = omega arith
length-drop (suc n) (x ∷ xs) = omega (arith, length-drop n xs)

length-take-le : (n : ℕ) (xs : List ℕ) → length (take n xs) ≤ length xs
length-take-le zero xs = omega arith
length-take-le (suc n) [] = omega arith
length-take-le (suc n) (x ∷ xs) = omega (arith, length-take-le n xs)

content-length :
    (buffer content : List ℕ) (t : Tlv)
    → decode_tlv buffer ≡ some t
    → content_of buffer t ≡ some content
    → length content < length buffer
unfolding content_of
content-length buffer content t e h =
    let (low, high, in_buffer, sum, small, either) = decode_tlv_bounds buffer t e in
    let short = length-take-le t.data_len (drop t.data_index buffer) in
    let dropped = length-drop t.data_index buffer in
    let same : take t.data_len (drop t.data_index buffer) ≡ content = ground arith in
    omega (arith, ap length same)

-- The dump of a buffer comes to a container whose content does not lie in the buffer: in the first
-- record, in its content, or behind it.
pub data Leaves : List ℕ → Type 0 where
  here :
      {buffer : List ℕ} (t : Tlv)
      → decode_tlv buffer ≡ some t
      → t.result ≢ 0
      → is_container t.type ≡ true
      → length buffer < t.data_index + t.data_len
      → Leaves buffer
  inside :
      {buffer : List ℕ} (t : Tlv)
      → decode_tlv buffer ≡ some t
      → t.result ≢ 0
      → is_container t.type ≡ true
      → t.data_index + t.data_len ≤ length buffer
      → Leaves (take t.data_len (drop t.data_index buffer))
      → Leaves buffer
  behind :
      {buffer : List ℕ} (t : Tlv)
      → decode_tlv buffer ≡ some t
      → t.result ≢ 0
      → Leaves (drop t.result buffer)
      → Leaves buffer

-- The dump prints lines to the end, or it leaves the buffer.
abbrev Ends : List ℕ → Dump → Type 0
Ends buffer d = ((lines : List Line) × (d ≡ printed lines)) ⊎ (Leaves buffer × (d ≡ overread))

-- What comes first, and what comes after it.
after-Ends :
    (buffer : List ℕ) (t : Tlv) (first : List Line) (nested rest : Dump)
    → decode_tlv buffer ≡ some t
    → t.result ≢ 0
    → ((lines : List Line) × (nested ≡ printed lines)) ⊎ (Leaves buffer × (nested ≡ overread))
    → Ends (drop t.result buffer) rest
    → Ends buffer (then_print first (after nested rest))
after-Ends buffer t first nested rest e more (inr (leaves, over)) later = inr (leaves, rw over refl)
after-Ends buffer t first nested rest e more (inl (lines, ended)) (inl (lines', ended')) =
    inl (first ++ (lines ++ lines'), rw (ended, ended') refl)
after-Ends buffer t first nested rest e more (inl (lines, ended)) (inr (leaves, over)) =
    inr (behind t e more leaves, rw (ended, over) refl)

content-is :
    (buffer content : List ℕ) (t : Tlv)
    → content_of buffer t ≡ some content
    → (t.data_index + t.data_len ≤ length buffer)
      × (take t.data_len (drop t.data_index buffer) ≡ content)
unfolding content_of
content-is buffer content t e = (ground arith, ground arith)

content-outside :
    (buffer : List ℕ) (t : Tlv)
    → content_of buffer t ≡ none
    → length buffer < t.data_index + t.data_len
unfolding content_of
content-outside buffer t e = ground arith

-- The dump of the content of a container ends, if the dumps of shorter buffers do.
nested-Ends :
    (buffer : List ℕ) (t : Tlv) (dump : List ℕ → Dump)
    → decode_tlv buffer ≡ some t
    → t.result ≢ 0
    → is_container t.type ≡ true
    → ((content : List ℕ) → content_of buffer t ≡ some content → Ends content (dump content))
    → Ends buffer (elim (content_of buffer t) [ none ↦ overread | some content ↦ dump content ])
nested-Ends buffer t dump e more container inner = elim (Option-cases (content_of buffer t)) [
  | inl out ↦ inr (
    here t e more container (content-outside buffer t out),
    ap (λ found. elim found [ none ↦ overread | some content ↦ dump content ]) out,
  )
  | inr (content, found) ↦
      (let (within, same) = content-is buffer content t found in
        let goes = ap (λ x. elim x [ none ↦ overread | some content ↦ dump content ]) found in
        elim (inner content found) [
          | inl (lines, ended) ↦ inl (lines, goes ∙ ended)
          | inr (leaves, over) ↦
              inr (inside t e more container within (subst Leaves (sym same) leaves), goes ∙ over)
        ])
]

-- With more fuel than the buffer has bytes, one of the two is so.
decode-Ends :
    (fuel : ℕ) (buffer : List ℕ) (indent : ℕ)
    → length buffer < fuel
    → Ends buffer (decode fuel buffer indent)
unfolding decode
decode-Ends zero buffer indent h = absurd (omega arith)
decode-Ends (suc fuel) buffer indent h =
    Option-elim_by (decode_tlv buffer) (Ends buffer) (inl ([], refl)) (λ t e.
      elim (Bool-cases (t.result == 0)) [
        | inl stop ↦ rw stop (inl ([], refl))
        | inr more ↦
            (let goes_on : t.result ≢ 0 = ground arith in
              let (low, high, in_buffer, sum, small, either) = decode_tlv_bounds buffer t e in
              let dropped = length-drop t.result buffer in
              rw more (
                after-Ends buffer t (line_of indent buffer t ∷ []) _ _ e goes_on
                  (elim (Bool-cases (is_container t.type)) [
                    | inl container ↦ rw container (
                        nested-Ends buffer t (λ content. decode fuel content (indent + 1)) e goes_on
                          container
                          (λ content found.
                            (let shorter = content-length buffer content t e found in
                              decode-Ends fuel content (indent + 1) (omega arith))))
                    | inr plain ↦ rw plain (inl ([], refl))
                  ])
                  (decode-Ends fuel (drop t.result buffer) indent (ground arith))))
      ])

-- A step of the dump, in terms of what its parts give.
decode-step :
    (fuel : ℕ) (buffer : List ℕ) (indent : ℕ) (t : Tlv)
    → decode_tlv buffer ≡ some t
    → t.result ≢ 0
    → decode (suc fuel) buffer indent ≡ (
        let nested : Dump = elim (content_of buffer t) [
          | none ↦ overread
          | some content ↦ decode fuel content (indent + 1)
        ] in
        then_print (line_of indent buffer t ∷ []) (
          after
            (if is_container t.type then nested else printed [])
            (decode fuel (drop t.result buffer) indent)))
unfolding decode
decode-step fuel buffer indent t e more =
    let goes_on : (t.result == 0) ≡ false = ground arith in rw (e, decode, goes_on) refl

no_lines :
    (first : List Line) (d : Dump) (lines : List Line)
    → then_print first (after d overread) ≡ printed lines
    → ⊥
no_lines first (printed before) lines e = cc
no_lines first overread lines e = cc
no_lines first out_of_fuel lines e = cc

content-found :
    (buffer : List ℕ) (t : Tlv)
    → t.data_index + t.data_len ≤ length buffer
    → content_of buffer t ≡ some (take t.data_len (drop t.data_index buffer))
unfolding content_of
content-found buffer t within = ground arith

content-missed :
    (buffer : List ℕ) (t : Tlv)
    → length buffer < t.data_index + t.data_len
    → content_of buffer t ≡ none
unfolding content_of
content-missed buffer t outside = ground arith

-- With enough fuel, a dump that leaves the buffer does not come to its end.
decode-Leaves :
    (fuel : ℕ) (buffer : List ℕ) (indent : ℕ)
    → length buffer < fuel
    → Leaves buffer
    → decode fuel buffer indent ≡ overread
decode-Leaves zero buffer indent h leaves = absurd (omega arith)
decode-Leaves (suc fuel) buffer indent h (here t e more container outside) =
    decode-step fuel buffer indent t e more ∙ rw (container, content-missed buffer t outside) refl
decode-Leaves (suc fuel) buffer indent h (inside t e more container within leaves) =
    let found = content-found buffer t within in
    let shorter = content-length buffer _ t e found in
    let later = decode-Leaves fuel _ (indent + 1) (omega arith) leaves in
    decode-step fuel buffer indent t e more ∙ rw (container, found, later) refl
decode-Leaves (suc fuel) buffer indent h (behind t e more leaves) =
    let (low, high, in_buffer, sum, small, either) = decode_tlv_bounds buffer t e in
    let dropped = length-drop t.result buffer in
    let later = decode-Leaves fuel (drop t.result buffer) indent (ground arith) leaves in
    let step = decode-step fuel buffer indent t e more in
    elim (decode-Ends (suc fuel) buffer indent h) [
      | inl (lines, ended) ↦
          absurd (no_lines (line_of indent buffer t ∷ []) _ lines (sym (rw later at step) ∙ ended))
      | inr (left, over) ↦ over
    ]

-- The dump prints lines to the end, exactly if it does not leave the buffer.
abbrev pub EndsOrLeaves : List ℕ → Dump → Type 0
EndsOrLeaves buffer d =
    (¬ (Leaves buffer) × (lines : List Line) × (d ≡ printed lines))
    ⊎ (Leaves buffer × (d ≡ overread))

-- On any buffer, with more fuel than the buffer has bytes, the printing ends with its lines if it
-- does not come to a container whose content does not lie in the buffer. If it does, where the code
-- goes on behind the buffer and nothing is claimed of it, the result is `overread`.
pub decode-EndsOrLeaves :
    (fuel : ℕ) (buffer : List ℕ) (indent : ℕ)
    → length buffer < fuel
    → EndsOrLeaves buffer (decode fuel buffer indent)
decode-EndsOrLeaves fuel buffer indent h = elim (decode-Ends fuel buffer indent h) [
  | inl (lines, ended) ↦
      inl ((λ leaves. (let over = decode-Leaves fuel buffer indent h leaves in cc)), lines, ended)
  | inr left ↦ inr left
]
