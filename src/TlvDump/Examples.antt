-- ===== src/TlvDump/Examples.antt =====
-- Buffers for the dump of TLV records.
use galileom2m.Prelude.{ℕ, ◌≡◌, refl, List, [], ◌∷◌, map, All, arith}
use galileom2m.Tlv.{
  decode_tlv, decode_type, decode_id, decode_length, ressource, written, opaque_to_tlv,
  create_header, length_bytes,
}
use galileom2m.TlvDump.{Line, printed, overread, content_of, decode}
use galileom2m.TlvDump.Total.{EndsOrLeaves, decode-EndsOrLeaves}
use galileom2m.TlvDump.Records.{Item, Writes, nothing, one_more, Plain, line_for, decode-Writes}

-- A multiple resource whose length byte 0xff is read as -1.
abbrev negative : List ℕ
negative = 0x88 ∷ 0 ∷ 0xff ∷ []

negative_leaves : decode 4 negative 0 ≡ overread
unfolding decode decode_tlv content_of decode_type decode_id decode_length
negative_leaves = refl

-- An object instance with a resource in it.
abbrev nested : List ℕ
nested = 0x03 ∷ 0x0a ∷ 0xc1 ∷ 0x01 ∷ 0x14 ∷ []

nested_prints : (lines : List Line) × (decode 6 nested 0 ≡ printed lines)
unfolding decode decode_tlv content_of decode_type decode_id decode_length
nested_prints = (_, refl)

decode-EndsOrLeaves_example : EndsOrLeaves nested (decode 6 nested 0)
decode-EndsOrLeaves_example = decode-EndsOrLeaves 6 nested 0 (omega arith)

-- Two resources: 100 and "up".
abbrev items : List Item
items = record { id = 9; content = 100 ∷ [] } ∷ record { id = 16; content = b'u' ∷ b'p' ∷ [] } ∷ []

abbrev wire : List ℕ
wire = 0xc1 ∷ 9 ∷ 100 ∷ 0xc2 ∷ 16 ∷ b'u' ∷ b'p' ∷ []

-- How core/tlv.c writes the two.
first_written : opaque_to_tlv ressource (100 ∷ []) 9 64 ≡ written (0xc1 ∷ 9 ∷ 100 ∷ [])
unfolding opaque_to_tlv create_header
first_written = refl

second_written :
    opaque_to_tlv ressource (b'u' ∷ b'p' ∷ []) 16 64 ≡ written (0xc2 ∷ 16 ∷ b'u' ∷ b'p' ∷ [])
unfolding opaque_to_tlv create_header
second_written = refl

items-Plain : All Plain items
unfolding length_bytes
items-Plain = (
  record { id_fits = omega arith; content_fits = omega arith; length_plain = tt },
  (record { id_fits = omega arith; content_fits = omega arith; length_plain = tt }, tt),
)

wire-Writes : Writes items wire
wire-Writes =
    one_more (record { id = 9; content = 100 ∷ [] })
      (record { id = 16; content = b'u' ∷ b'p' ∷ [] } ∷ []) (0xc1 ∷ 9 ∷ 100 ∷ [])
      (0xc2 ∷ 16 ∷ b'u' ∷ b'p' ∷ []) 64 first_written
      (one_more (record { id = 16; content = b'u' ∷ b'p' ∷ [] }) [] (0xc2 ∷ 16 ∷ b'u' ∷ b'p' ∷ [])
        [] 64 second_written nothing)

decode-Writes_example : decode 8 wire 0 ≡ printed (map (line_for 0) items)
decode-Writes_example = decode-Writes 8 0 items wire items-Plain wire-Writes (omega arith)
