-- ===== src/Tlv/Decode.antt =====
-- core/tlv.c: `lwm2m_decodeTLV` on any buffer.
use galileom2m.Prelude.{
  ℕ, ◌+◌, ◌%◌, ◌^◌, ◌≤◌, ◌≡◌, some, none, List, [], Option, ◌⊎◌, arith, length, get_or, refl,
}
use galileom2m.Tlv.{TlvType, Tlv, decode_tlv, decode_length, decode_type, decode_id, finish_decode}

-- The index behind the length field, and that the field lies in the buffer.
decode_length-in_buffer :
    (buffer : List ℕ) (first at len at' : ℕ)
    → at ≤ length buffer
    → decode_length buffer first at ≡ some (len, at')
    → (at ≤ at') × (at' ≤ length buffer) × (at' ≤ at + 3)
unfolding decode_length
decode_length-in_buffer buffer first at len at' h e = (ground arith, ground arith, ground arith)

-- What `decode_tlv_bounds` says, for a length field that begins at `at`.
abbrev pub InBounds : List ℕ → ℕ → Tlv → Type 0
InBounds buffer at r =
    (at ≤ r.data_index)
    × (r.data_index ≤ at + 3)
    × (r.data_index ≤ length buffer)
    × (r.result ≡ (r.data_index + r.data_len) % 2 ^ 64)
    × (r.result ≤ length buffer)
    × ((r.data_index + r.data_len ≤ length buffer) ⊎ (2 ^ 63 ≤ r.data_len))

finish_decode-InBounds :
    (buffer : List ℕ) (first at : ℕ) (t : TlvType) (id : ℕ) (field : Option (ℕ × ℕ)) (r : Tlv)
    → decode_length buffer first at ≡ field
    → at ≤ length buffer
    → at ≤ 3
    → finish_decode buffer t id field ≡ some r
    → InBounds buffer at r
unfolding finish_decode
finish_decode-InBounds buffer first at t id none r f h k e = cc
finish_decode-InBounds buffer first at t id (some (len, at')) r f h k e =
    let (low, high, near) = decode_length-in_buffer buffer first at len at' h f in
    (ground arith, ground arith, ground arith, ground arith, ground arith, ground arith)

-- When a record is accepted, its header lies in the buffer, the returned length is the sum of
-- header and content modulo 2 ^ 64 and does not exceed the length of the buffer, and either the
-- content lies in the buffer or the content length is 2 ^ 63 or more.
pub decode_tlv_bounds :
    (buffer : List ℕ) (r : Tlv)
    → decode_tlv buffer ≡ some r
    → (2 ≤ r.data_index)
      × (r.data_index ≤ 6)
      × (r.data_index ≤ length buffer)
      × (r.result ≡ (r.data_index + r.data_len) % 2 ^ 64)
      × (r.result ≤ length buffer)
      × ((r.data_index + r.data_len ≤ length buffer) ⊎ (2 ^ 63 ≤ r.data_len))
unfolding decode_tlv
decode_tlv_bounds buffer r e =
    let first = get_or buffer 0 0 in
    let field = λ (at : ℕ).
      finish_decode-InBounds buffer first at (decode_type first) (decode_id buffer first)
        (decode_length buffer first at) r refl in
    ground (arith, field 2, field 3)

-- An empty buffer holds no record.
pub decode_tlv-nil : decode_tlv [] ≡ none
unfolding decode_tlv
decode_tlv-nil = refl
