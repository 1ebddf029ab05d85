-- ===== src/Tlv/RoundTrip.antt =====
-- core/tlv.c: what `lwm2m_decodeTLV` makes of a record that `lwm2m_opaqueToTLV` wrote.
use galileom2m.Prelude.{
  ℕ, suc, ◌+◌, ◌-◌, ◌/◌, ◌%◌, ◌^◌, ◌≤◌, ◌<◌, ◌≡◌, refl, ap, ◌∙◌, bit_and, some, List, ◌∷◌, ◌++◌,
  arith, ltb, leb, ◌==◌, if◌then◌else◌, length, take, drop, All, length-append, drop_all, take_all,
  bit_and_0xc0, bit_and_0x20, bit_and_0x18, bit_and_0x07,
}
use mathlib.Core.List.{append_assoc}
use galileom2m.Tlv.{
  TlvType, object_instance, ressource_instance, multiple_instance, ressource, written, Tlv,
  create_header, first_byte, id_bytes, length_bytes, opaque_to_tlv, decode_type, decode_id,
  decode_length, decode_tlv,
}

-- The four fields of the first byte.
pub type_code : TlvType → ℕ
type_code object_instance = 0
type_code ressource_instance = 1
type_code multiple_instance = 2
type_code ressource = 3

abbrev pub wide : ℕ → ℕ
wide id = if ltb 0xff id then 1 else 0

abbrev pub length_kind : ℕ → ℕ
length_kind len =
    if leb len 7 then 0 else if leb len 0xff then 1 else if leb len 0xffff then 2 else 3

abbrev pub short_length : ℕ → ℕ
short_length len = if leb len 7 then len else 0

pub record Fields (b : ℕ) (t : TlvType) (id len : ℕ) : Type 0 where
  pub is_byte : b < 256
  pub type_field : b / 64 ≡ type_code t
  pub id_field : b / 32 % 2 ≡ wide id
  pub kind_field : b / 8 % 4 ≡ length_kind len
  pub short_field : b % 8 ≡ short_length len

pub first_byte-Fields :
    (t : TlvType) (id len : ℕ) → len < 2 ^ 24 → Fields (first_byte t id len) t id len
unfolding first_byte type_code
first_byte-Fields object_instance id len h = ground arith
first_byte-Fields ressource_instance id len h = ground arith
first_byte-Fields multiple_instance id len h = ground arith
first_byte-Fields ressource id len h = ground arith

pub decode_type_lem : (b : ℕ) (t : TlvType) → b < 256 → b / 64 ≡ type_code t → decode_type b ≡ t
unfolding decode_type type_code
decode_type_lem b object_instance h f = ground (arith, bit_and_0xc0 b h)
decode_type_lem b t h f = ground (arith, bit_and_0xc0 b h)

-- An id comes back as it was if its low byte is below 128, and 256 too low otherwise.
abbrev pub wire_id : ℕ → ℕ
wire_id id = if ltb (id % 256) 128 then id else (id + 65536 - 256) % 65536

abbrev id_width : ℕ → ℕ
id_width id = length (id_bytes id)

pub length-id_bytes : (id : ℕ) → length (id_bytes id) ≡ 1 + wide id
unfolding id_bytes
length-id_bytes id = ground arith

pub length-length_bytes : (len : ℕ) → length (length_bytes len) ≤ 3
unfolding length_bytes
length-length_bytes len = ground arith

module _ {b : ℕ} {t : TlvType} {id len : ℕ} (f : Fields b t id len) where
  pub decode_id-Fields :
      (tail : List ℕ) → id < 65536 → decode_id (b ∷ (id_bytes id ++ tail)) b ≡ wire_id id
  unfolding decode_id id_bytes
  decode_id-Fields tail h = ground (arith, bit_and_0x20 b f.is_byte)

  decode_length-Fields :
      (tail : List ℕ)
      → len < 2 ^ 24
      → All (λ x. x < 128) (length_bytes len)
      → decode_length
          (b ∷ (id_bytes id ++ (length_bytes len ++ tail)))
          b
          (if bit_and b 0x20 == 0x20 then 3 else 2)
        ≡ some (len, 1 + length (id_bytes id) + length (length_bytes len))
  unfolding decode_length id_bytes length_bytes
  decode_length-Fields tail h plain =
      ground (arith, bit_and_0x20 b f.is_byte, bit_and_0x18 b f.is_byte, bit_and_0x07 b f.is_byte)

  decode_tlv-Fields :
      (tail : List ℕ)
      → id < 65536
      → len < 2 ^ 24
      → len ≤ length tail
      → All (λ x. x < 128) (length_bytes len)
      → decode_tlv (b ∷ (id_bytes id ++ (length_bytes len ++ tail)))
        ≡ some (record {
          type = t;
          id = wire_id id;
          data_index = 1 + length (id_bytes id) + length (length_bytes len);
          data_len = len;
          result = 1 + length (id_bytes id) + length (length_bytes len) + len;
        })
  unfolding decode_tlv
  decode_tlv-Fields tail h small room plain = ground (
    arith,
    bit_and_0x20 b f.is_byte,
    decode_type_lem b t f.is_byte f.type_field,
    decode_id-Fields (length_bytes len ++ tail) h,
    decode_length-Fields tail small plain,
    length-append (id_bytes id) (length_bytes len ++ tail),
    length-append (length_bytes len) tail,
    length-id_bytes id,
    length-length_bytes len,
  )

-- What a reader of the record finds: the type, the id as it travels, and the content.
pub record Carries (t : TlvType) (id : ℕ) (content buffer : List ℕ) (r : Tlv) : Type 0 where
  pub same_type : r.type ≡ t
  pub same_id : r.id ≡ wire_id id
  pub same_length : r.data_len ≡ length content
  pub same_content : take r.data_len (drop r.data_index buffer) ≡ content
  pub consumed : r.result ≡ r.data_index + length content

pub record_shape :
    (t : TlvType) (id len : ℕ) (content rest : List ℕ)
    → (create_header t id len ++ content) ++ rest
      ≡ first_byte t id len ∷ (id_bytes id ++ (length_bytes len ++ (content ++ rest)))
unfolding create_header
record_shape t id len content rest = simp append_assoc

drop_header :
    (b : ℕ) (xs ys zs : List ℕ) → drop (1 + length xs + length ys) (b ∷ (xs ++ (ys ++ zs))) ≡ zs
drop_header b xs ys zs =
    let width : 1 + length xs + length ys ≡ suc (length (xs ++ ys)) =
      omega (arith, length-append xs ys) in
    rw (width, ← append_assoc) (drop_all (xs ++ ys) zs)

pub written-content :
    (t : TlvType) (id : ℕ) (content buffer : List ℕ) (buffer_len : ℕ)
    → opaque_to_tlv t content id buffer_len ≡ written buffer
    → (buffer ≡ create_header t id (length content) ++ content)
      × (length content + length (create_header t id (length content)) ≤ buffer_len)
unfolding opaque_to_tlv
written-content t id content buffer buffer_len e = (ground arith, ground arith)

pub length-create_header :
    (t : TlvType) (id len : ℕ)
    → length (create_header t id len) ≡ 1 + length (id_bytes id) + length (length_bytes len)
unfolding create_header
length-create_header t id len = omega (arith, length-append (id_bytes id) (length_bytes len))

-- Whatever follows it in the buffer, a record that was written with a 16-bit id and a content below
-- 16 MB is decoded to its type, its content and the number of bytes it takes, as long as every byte
-- of its length field is below 128. The id comes back as it was if its low byte is below 128, and
-- 256 too low, modulo 65536, otherwise.
pub decode_tlv-opaque_to_tlv :
    (t : TlvType) (id : ℕ) (content buffer rest : List ℕ) (buffer_len : ℕ)
    → id < 65536
    → length content < 2 ^ 24
    → All (λ x. x < 128) (length_bytes (length content))
    → opaque_to_tlv t content id buffer_len ≡ written buffer
    → (r : Tlv) × (decode_tlv (buffer ++ rest) ≡ some r)
      × Carries t id content (buffer ++ rest) r
      × (r.result ≡ length buffer)
      × (length buffer ≤ buffer_len)
decode_tlv-opaque_to_tlv t id content buffer rest buffer_len h small plain e =
    let (same, fits) = written-content t id content buffer buffer_len e in
    let fields = first_byte-Fields t id (length content) small in
    let shape : buffer ++ rest ≡ _ =
      ap (λ bs. bs ++ rest) same ∙ record_shape t id (length content) content rest in
    let width = length-create_header t id (length content) in
    let total = length-append (create_header t id (length content)) content in
    (
      record {
        type = t;
        id = wire_id id;
        data_index = 1 + length (id_bytes id) + length (length_bytes (length content));
        data_len = length content;
        result = 1 + length (id_bytes id) + length (length_bytes (length content)) + length content;
      },
      rw shape (
          decode_tlv-Fields fields (content ++ rest) h small
            (omega (arith, length-append content rest)) plain),
      record {
        same_type = refl;
        same_id = refl;
        same_length = refl;
        same_content =
            rw
              (
                shape,
                drop_header (first_byte t id (length content)) (id_bytes id)
                    (length_bytes (length content)) (content ++ rest),
              )
              (take_all content rest);
        consumed = refl;
      },
      omega (arith, ap length same),
      omega (arith, ap length same),
    )
