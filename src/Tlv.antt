-- ===== src/Tlv.antt =====
-- core/tlv.c: the TLV records of resource values. A buffer is the list of its bytes and
-- `buffer_len` is its length. `char` is signed, as on the x86 boards that the program is for, so a
-- byte read through `char *` is sign-extended to `int`; ids are uint16_t and lengths are a 64-bit
-- size_t, with their wrap-around written out.
pub mod Decode
pub mod RoundTrip
pub mod LongContent
pub mod Integers
mod Examples
use galileom2m.Prelude.{
  ℕ, zero, suc, ◌+◌, ◌-◌, ◌*◌, ◌/◌, ◌%◌, ◌^◌, bit_and, bit_or, Bool, true, false, Option, none,
  some, List, [], ◌∷◌, ◌++◌, ltb, leb, ◌==◌, ◌&&◌, if◌then◌else◌, length, get_or,
}

pub data TlvType : Type 0 where
  object_instance ressource_instance multiple_instance ressource : TlvType

-- What an encoder does: `refused` is the return value 0, `overrun` a write before `data_buffer`.
pub data Encoded : Type 0 where
  written : List ℕ → Encoded
  refused : Encoded
  overrun : Encoded

type_bits : TlvType → ℕ
type_bits object_instance = 0
type_bits ressource_instance = bit_or 0 0x40
type_bits multiple_instance = bit_or 0 0x80
type_bits ressource = bit_or 0 0xc0

pub id_bytes : ℕ → List ℕ
id_bytes id = if ltb 0xff id then id / 256 % 256 ∷ id % 256 ∷ [] else id ∷ []

unfoldable pub length_bytes : ℕ → List ℕ
length_bytes len =
    if leb len 7
    then []
    else if leb len 0xff
    then len ∷ []
    else if leb len 0xffff
    then len / 2 ^ 8 % 256 ∷ len % 256 ∷ []
    else if leb len 0xffffff
    then len / 2 ^ 16 % 256 ∷ len / 2 ^ 8 % 256 ∷ len % 256 ∷ []
    else []

-- The updates of `header[0]` by the id and by the length.
pub first_byte : TlvType → ℕ → ℕ → ℕ
unfolding type_bits
first_byte type id len =
    let wide = if ltb 0xff id then bit_or (type_bits type) 0x20 else type_bits type in
    if leb len 7
    then (wide + len) % 256
    else if leb len 0xff
    then bit_or wide 0x08
    else if leb len 0xffff
    then bit_or wide 0x10
    else if leb len 0xffffff
    then bit_or wide 0x18
    else wide

-- The bytes of the header; its length is what the function returns.
unfoldable pub create_header : TlvType → ℕ → ℕ → List ℕ
unfolding first_byte id_bytes length_bytes
create_header type id len = first_byte type id len ∷ (id_bytes id ++ length_bytes len)

unfoldable pub opaque_to_tlv : TlvType → List ℕ → ℕ → ℕ → Encoded
opaque_to_tlv type content id buffer_len =
    let header = create_header type id (length content) in
    if ltb buffer_len (length content + length header) then refused else written (header ++ content)

-- The do-while loop that writes the bytes of `value` from the end of an 8-byte buffer: `room` is
-- what is left of the buffer, `len` the value of `length` before the round.
int_loop : ℕ → ℕ → ℕ → List ℕ → Option (List ℕ)
int_loop zero len value bytes = none
int_loop (suc room) len value bytes =
    let bytes' = value / 2 ^ (8 * len) % 256 ∷ bytes in
    let more = int_loop room (len + 1) value bytes' in
    if ltb (2 ^ (8 * (len + 1) - 1) - 1) value then more else some bytes'

-- `data_buffer` has 8 bytes.
int_bytes : ℕ → Option (List ℕ)
unfolding int_loop
int_bytes value = int_loop 8 0 value []

mark_sign : Bool → List ℕ → List ℕ
mark_sign negative [] = []
mark_sign negative (b ∷ bytes) = (if negative then bit_or b 0x80 else b) ∷ bytes

-- `data`, an int64_t, is its bit pattern below 2 ^ 64.
magnitude : ℕ → ℕ
magnitude word = if leb (2 ^ 63) word then (2 ^ 64 - word) % 2 ^ 64 else word

pub int_content : ℕ → Option (List ℕ)
int_content word = elim (int_bytes (magnitude word)) [
  | none ↦ none
  | some bytes ↦ some (mark_sign (leb (2 ^ 63) word) bytes)
]

holds_integers : TlvType → Bool
holds_integers object_instance = false
holds_integers ressource_instance = true
holds_integers multiple_instance = false
holds_integers ressource = true

pub int_to_tlv : TlvType → ℕ → ℕ → ℕ → Encoded
unfolding holds_integers
int_to_tlv type word id buffer_len =
    if holds_integers type
    then elim (int_content word) [
      | none ↦ overrun
      | some bytes ↦ opaque_to_tlv type bytes id buffer_len
    ]
    else refused

pub bool_to_tlv : TlvType → Bool → ℕ → ℕ → Encoded
bool_to_tlv type value id buffer_len = int_to_tlv type (if value then 1 else 0) id buffer_len

-- A `char` as an `int`, modulo 2 ^ 64.
pub sign_extend : ℕ → ℕ
sign_extend b = if ltb b 128 then b else b + (2 ^ 64 - 256)

-- What `lwm2m_decodeTLV` stores through its pointers, and what it returns.
pub record Tlv : Type 0 where
  pub type : TlvType
  pub id : ℕ
  pub data_index : ℕ
  pub data_len : ℕ
  pub result : ℕ

unfoldable pub decode_type : ℕ → TlvType
decode_type first =
    if bit_and first 0xc0 == 0x00
    then object_instance
    else if bit_and first 0xc0 == 0x40
    then ressource_instance
    else if bit_and first 0xc0 == 0x80
    then multiple_instance
    else ressource

unfoldable pub decode_id : List ℕ → ℕ → ℕ
unfolding sign_extend
decode_id buffer first =
    if bit_and first 0x20 == 0x20
    then (sign_extend (get_or buffer 1 0) * 2 ^ 8 + sign_extend (get_or buffer 2 0)) % 2 ^ 16
    else sign_extend (get_or buffer 1 0) % 2 ^ 16

-- The length that a field of 0, 1, 2 or 3 bytes at `at` holds, and the index behind the field.
unfoldable pub decode_length : List ℕ → ℕ → ℕ → Option (ℕ × ℕ)
unfolding sign_extend
decode_length buffer first at =
    if bit_and first 0x18 == 0x00
    then some (bit_and first 0x07, at)
    else if bit_and first 0x18 == 0x08
    then (if ltb (length buffer) (at + 1)
        then none
        else some (sign_extend (get_or buffer at 0) % 2 ^ 64, at + 1))
    else if bit_and first 0x18 == 0x10
    then (if ltb (length buffer) (at + 2)
        then none
        else some (
          (sign_extend (get_or buffer at 0) * 2 ^ 8 + sign_extend (get_or buffer (at + 1) 0))
              % 2 ^ 64,
          at + 2,
        ))
    else if ltb (length buffer) (at + 3)
    then none
    else some (
      (sign_extend (get_or buffer at 0) * 2 ^ 16
            + sign_extend (get_or buffer (at + 1) 0) * 2 ^ 8
            + sign_extend (get_or buffer (at + 2) 0))
          % 2 ^ 64,
      at + 3,
    )

finish_decode : List ℕ → TlvType → ℕ → Option (ℕ × ℕ) → Option Tlv
finish_decode buffer type id none = none
finish_decode buffer type id (some (len, at)) =
    if ltb (length buffer) ((at + len) % 2 ^ 64)
    then none
    else some (record {
      type = type;
      id = id;
      data_index = at;
      data_len = len;
      result = (at + len) % 2 ^ 64;
    })

-- `none` is an early `return 0`.
unfoldable pub decode_tlv : List ℕ → Option Tlv
unfolding finish_decode
decode_tlv buffer =
    let first = get_or buffer 0 0 in
    if ltb (length buffer) 2
    then none
    else if bit_and first 0x20 == 0x20 && ltb (length buffer) 3
    then none
    else finish_decode buffer (decode_type first) (decode_id buffer first)
        (decode_length buffer first (if bit_and first 0x20 == 0x20 then 3 else 2))

-- The loop of `lwm2m_opaqueToInt` from the second byte on; `*dataP` wraps at 64 bits.
int_fold : ℕ → List ℕ → ℕ
unfolding sign_extend
int_fold word [] = word
int_fold word (b ∷ bytes) = int_fold ((word * 2 ^ 8 + sign_extend b) % 2 ^ 64) bytes

negate : Bool → ℕ → ℕ
negate true word = (2 ^ 64 - word) % 2 ^ 64
negate false word = word

-- `*dataP` as a bit pattern; the function returns the length of the buffer, or 0 for `none`.
pub opaque_to_int : List ℕ → Option ℕ
unfolding int_fold negate
opaque_to_int [] = none
opaque_to_int (b ∷ bytes) =
    if ltb 8 (length (b ∷ bytes))
    then none
    else some (negate (bit_and b 0x80 == 0x80) (int_fold (bit_and b 0x7f) bytes))
