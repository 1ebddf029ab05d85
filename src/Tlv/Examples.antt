-- ===== src/Tlv/Examples.antt =====
-- Records and integers of core/tlv.c.
use galileom2m.Prelude.{
  ℕ, zero, suc, ◌≡◌, ◌↔◌, ◌<◌, ◌≤◌, ◌^◌, refl, none, some, List, [], ◌∷◌, ◌++◌, arith, All,
}
use galileom2m.Tlv.{
  Tlv, int_bytes, magnitude, mark_sign, create_header, decode_type, decode_id, decode_length,
  ressource, written, opaque_to_tlv, decode_tlv, length_bytes, int_content, opaque_to_int,
}
use galileom2m.Tlv.RoundTrip.{Carries, decode_tlv-opaque_to_tlv}
use galileom2m.Tlv.LongContent.{misread, decode_tlv-long_content}
use galileom2m.Tlv.Integers.{int_content-none_iff, opaque_to_int-int_content}

abbrev bytes : List ℕ
bytes = 1 ∷ 2 ∷ 3 ∷ []

abbrev record_bytes : List ℕ
record_bytes = 0xe3 ∷ 1 ∷ 0x80 ∷ 1 ∷ 2 ∷ 3 ∷ []

bytes-written : opaque_to_tlv ressource bytes 0x180 64 ≡ written record_bytes
unfolding opaque_to_tlv create_header
bytes-written = refl

no_length_bytes : All (λ x. x < 128) (length_bytes 3)
unfolding length_bytes
no_length_bytes = tt

decode_tlv-opaque_to_tlv_example :
    (r : Tlv) × (decode_tlv (record_bytes ++ (7 ∷ [])) ≡ some r)
    × Carries ressource 0x180 bytes (record_bytes ++ (7 ∷ [])) r
    × (r.result ≡ 6)
    × (6 ≤ 64)
decode_tlv-opaque_to_tlv_example =
    decode_tlv-opaque_to_tlv ressource 0x180 bytes record_bytes (7 ∷ []) 64 (omega arith)
      (omega arith) no_length_bytes bytes-written

abbrev many : ℕ → List ℕ
many zero = []
many (suc n) = 0 ∷ many n

abbrev long_record : List ℕ
long_record = 0xc8 ∷ 5 ∷ 128 ∷ many 128

long-written : opaque_to_tlv ressource (many 128) 5 200 ≡ written long_record
unfolding opaque_to_tlv create_header
long-written = refl

refused_here : decode_tlv (long_record ++ []) ≡ none
refused_here =
    decode_tlv-long_content ressource 5 (many 128) long_record [] 200 (omega arith) (omega arith)
      (omega arith) (omega arith) long-written

-- A record of 257 bytes, of which the decoder takes one.
abbrev longest_record : List ℕ
longest_record = 0xc8 ∷ 5 ∷ 254 ∷ many 254

longest-written : opaque_to_tlv ressource (many 254) 5 300 ≡ written longest_record
unfolding opaque_to_tlv create_header
longest-written = refl

decode_tlv-long_content_example :
    decode_tlv (longest_record ++ []) ≡ some (misread ressource 5 (many 254) longest_record)
decode_tlv-long_content_example =
    decode_tlv-long_content ressource 5 (many 254) longest_record [] 300 (omega arith) (omega arith)
      (omega arith) (omega arith) longest-written

decoded :
    decode_tlv record_bytes
    ≡ some (record { result = 6; type = ressource; id = 0x80; data_index = 3; data_len = 3 })
unfolding decode_tlv decode_type decode_id decode_length
decoded = refl

int_content-none_iff_example : (int_content (2 ^ 63) ≡ none) ↔ (2 ^ 63 ≡ 2 ^ 63)
int_content-none_iff_example = int_content-none_iff (2 ^ 63) (omega arith)

minus_five : int_content 0xffff_ffff_ffff_fffb ≡ some (0x85 ∷ [])
unfolding int_content int_bytes magnitude mark_sign
minus_five = refl

opaque_to_int-int_content_example : opaque_to_int (0x85 ∷ []) ≡ some 0xffff_ffff_ffff_fffb
opaque_to_int-int_content_example =
    opaque_to_int-int_content 0xffff_ffff_ffff_fffb (0x85 ∷ []) (omega arith) minus_five tt
