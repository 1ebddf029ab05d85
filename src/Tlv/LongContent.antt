-- ===== src/Tlv/LongContent.antt =====
-- core/tlv.c: what `lwm2m_decodeTLV` makes of a record whose length byte is 128 or more.
use galileom2m.Prelude.{
  ℕ, ◌+◌, ◌-◌, ◌^◌, ◌≤◌, ◌<◌, ◌≡◌, ap, ◌∙◌, bit_and, none, some, List, ◌∷◌, Bool-cases, inl, inr,
  ◌++◌, arith, ltb, ◌==◌, if◌then◌else◌, length, length-append, bit_and_0x20, bit_and_0x18,
}
use galileom2m.Tlv.{
  TlvType, written, Tlv, create_header, id_bytes, length_bytes, opaque_to_tlv, decode_length,
  decode_tlv,
}
use galileom2m.Tlv.RoundTrip.{
  Fields, first_byte-Fields, decode_type_lem, wire_id, length-id_bytes, length-length_bytes,
  decode_id-Fields, record_shape, written-content, length-create_header,
}

one_length_byte : (len : ℕ) → 128 ≤ len → len < 256 → length (length_bytes len) ≡ 1
unfolding length_bytes
one_length_byte len low high = ground arith

module _ {b : ℕ} {t : TlvType} {id len : ℕ} (f : Fields b t id len) where
  -- A length field of one byte from 128 on is read as a negative number.
  decode_length-negative :
      (tail : List ℕ)
      → 128 ≤ len
      → len < 256
      → decode_length
          (b ∷ (id_bytes id ++ (length_bytes len ++ tail)))
          b
          (if bit_and b 0x20 == 0x20 then 3 else 2)
        ≡ some (len + (2 ^ 64 - 256), 1 + length (id_bytes id) + 1)
  unfolding decode_length id_bytes length_bytes
  decode_length-negative tail low high =
      ground (arith, bit_and_0x20 b f.is_byte, bit_and_0x18 b f.is_byte)

  decode_tlv-negative :
      (tail : List ℕ)
      → 128 ≤ len
      → len + (1 + length (id_bytes id) + 1) < 256
      → length tail < 2 ^ 63
      → decode_tlv (b ∷ (id_bytes id ++ (length_bytes len ++ tail))) ≡ none
  unfolding decode_tlv
  decode_tlv-negative tail low high small = ground (
    arith,
    bit_and_0x20 b f.is_byte,
    decode_length-negative tail low (omega arith),
    length-append (id_bytes id) (length_bytes len ++ tail),
    length-append (length_bytes len) tail,
    length-id_bytes id,
    length-length_bytes len,
  )

  -- The negative length and the header come to 256 less than the record takes.
  decode_tlv-wrapped :
      (tail : List ℕ)
      → id < 65536
      → 128 ≤ len
      → len < 256
      → 256 ≤ len + (1 + length (id_bytes id) + 1)
      → length tail < 2 ^ 63
      → decode_tlv (b ∷ (id_bytes id ++ (length_bytes len ++ tail)))
        ≡ some (record {
          type = t;
          id = wire_id id;
          data_index = 1 + length (id_bytes id) + 1;
          data_len = len + (2 ^ 64 - 256);
          result = len + (1 + length (id_bytes id) + 1) - 256;
        })
  unfolding decode_tlv
  decode_tlv-wrapped tail h low high over small = ground (
    arith,
    bit_and_0x20 b f.is_byte,
    decode_type_lem b t f.is_byte f.type_field,
    decode_id-Fields f (length_bytes len ++ tail) h,
    decode_length-negative tail low high,
    length-append (id_bytes id) (length_bytes len ++ tail),
    length-append (length_bytes len) tail,
    length-id_bytes id,
    length-length_bytes len,
  )

-- What the decoder makes of a record whose length byte is read as a negative number.
abbrev pub misread : TlvType → ℕ → List ℕ → List ℕ → Tlv
misread t id content buffer = record {
  type = t;
  id = wire_id id;
  data_index = length buffer - length content;
  data_len = length content + (2 ^ 64 - 256);
  result = length buffer - 256;
}

-- A content of 128 to 255 bytes, with a 16-bit id, is not decoded to what `lwm2m_opaqueToTLV` wrote,
-- since its length byte is read as a negative number: if the record takes less than 256 bytes,
-- `lwm2m_decodeTLV` refuses it, and otherwise it answers with a length of the content just below 2^64
-- and with 256 bytes less than the record takes.
pub decode_tlv-long_content :
    (t : TlvType) (id : ℕ) (content buffer rest : List ℕ) (buffer_len : ℕ)
    → id < 65536
    → 128 ≤ length content
    → length content < 256
    → length (content ++ rest) < 2 ^ 63
    → opaque_to_tlv t content id buffer_len ≡ written buffer
    → decode_tlv (buffer ++ rest)
      ≡ (if ltb (length buffer) 256 then none else some (misread t id content buffer))
decode_tlv-long_content t id content buffer rest buffer_len h low high small e =
    let (same, fits) = written-content t id content buffer buffer_len e in
    let total = length-append (create_header t id (length content)) content in
    let width = length-create_header t id (length content) in
    let one = one_length_byte (length content) low high in
    let takes : length buffer ≡ length content + (1 + length (id_bytes id) + 1) =
      omega (arith, ap length same) in
    let fields = first_byte-Fields t id (length content) (omega arith) in
    let shape : buffer ++ rest ≡ _ =
      ap (λ bs. bs ++ rest) same ∙ record_shape t id (length content) content rest in
    elim (Bool-cases (ltb (length buffer) 256)) [
      | inl short ↦
          rw (short, shape) (decode_tlv-negative fields (content ++ rest) low (ground arith) small)
      | inr wraps ↦
          (let index : 1 + length (id_bytes id) + 1 ≡ length buffer - length content =
              omega arith in
            let less : length content + (1 + length (id_bytes id) + 1) - 256 ≡ length buffer - 256 =
              omega arith in
            rw (wraps, shape)
              (decode_tlv-wrapped fields (content ++ rest) h low high (ground arith) small
                ∙ ground (arith, index, less)))
    ]
