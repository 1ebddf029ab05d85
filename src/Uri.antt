-- ===== src/Uri.antt =====
-- core/uri.c and the uri part of core/liblwm2m.h: an uri as segments of a CoAP message, as a text,
-- and as a `lwm2m_uri_t`. An `int` is its 32-bit pattern; its overflow, which C leaves undefined,
-- wraps. A pointer and a length are the list of the bytes, and the byte behind the list, which
-- `prv_parse_number` reads, is an argument.
pub mod Numbers
pub mod Decimal
pub mod Segments
pub mod Text
mod Examples
use galileom2m.Prelude.{
  ℕ, zero, suc, ◌+◌, ◌-◌, ◌*◌, ◌/◌, ◌%◌, ◌^◌, bit_and, bit_or, Bool, true, false, not, Option, none,
  some, List, [], ◌∷◌, ◌++◌, ltb, leb, ◌==◌, ◌&&◌, ◌||◌, if◌then◌else◌, length, drop, bytes_eq,
}

pub record Uri : Type 0 where
  pub flag : ℕ
  pub object_id : ℕ
  pub instance_id : ℕ
  pub resource_id : ℕ

-- `memset(uriP, 0, sizeof(lwm2m_uri_t))`
abbrev pub zero_uri : Uri
zero_uri = record { flag = 0; object_id = 0; instance_id = 0; resource_id = 0 }

abbrev pub flag_object_id : ℕ
flag_object_id = 0x04

abbrev pub flag_instance_id : ℕ
flag_instance_id = 0x02

abbrev pub flag_resource_id : ℕ
flag_resource_id = 0x01

abbrev pub flag_dm : ℕ
flag_dm = 0x00

abbrev pub flag_registration : ℕ
flag_registration = 0x20

abbrev pub flag_bootstrap : ℕ
flag_bootstrap = 0x40

abbrev pub mask_type : ℕ
mask_type = 0x70

abbrev pub mask_id : ℕ
mask_id = 0x07

abbrev pub max_id : ℕ
max_id = 0xffff

abbrev pub is_set_instance : Uri → Bool
is_set_instance uri = not (bit_and uri.flag flag_instance_id == 0)

abbrev pub is_set_resource : Uri → Bool
is_set_resource uri = not (bit_and uri.flag flag_resource_id == 0)

-- `result` as a 32-bit pattern, and how far `*headP` has moved.
pub record Number : Type 0 where
  pub value : ℕ
  pub used : ℕ

abbrev is_digit : ℕ → Bool
is_digit c = leb b'0' c && leb c b'9'

-- The loop of `prv_parse_number` over the bytes that are left, and the code behind it.
parse_loop : List ℕ → ℕ → ℕ → ℕ → ℕ → Number
parse_loop [] behind result mul used = record {
  value = result;
  used = if behind == b'/' then used + 1 else used;
}
parse_loop (c ∷ text) behind result mul used =
    let more =
      parse_loop text behind (((if mul == 0 then result else result * mul) + (c - b'0')) % 2 ^ 32)
        10 (used + 1) in
    if c == b'/'
    then record { value = result; used = used + 1 }
    else if is_digit c
    then more
    else record { value = 2 ^ 32 - 1; used = used }

pub parse_number : List ℕ → ℕ → Number
unfolding parse_loop
parse_number text behind = parse_loop text behind 0 0 0

-- `index` is dropped, so the byte behind the segment does not matter.
pub get_number : List ℕ → ℕ
get_number text = (parse_number text 0).value

-- `readNum < 0 || readNum > limit`
abbrev pub out_of_range : ℕ → ℕ → Bool
out_of_range value limit = leb (2 ^ 31) value || ltb limit value

-- The third segment, which has to be the last. `next` is what follows it.
decode_resource : Uri → List ℕ → List (List ℕ) → Option Uri
decode_resource uri segment (s ∷ next) = none
decode_resource uri [] [] = some uri
decode_resource uri (c ∷ segment) [] =
    let value = get_number (c ∷ segment) in
    if out_of_range value max_id
    then none
    else some (record uri { resource_id = value % 2 ^ 16; flag = bit_or uri.flag flag_resource_id })

decode_instance : Uri → List (List ℕ) → Option Uri
decode_instance uri [] = some uri
decode_instance uri ([] ∷ []) = some uri
decode_instance uri ([] ∷ segment ∷ next) = decode_resource uri segment next
decode_instance uri ((c ∷ cs) ∷ next) =
    let value = get_number (c ∷ cs) in
    let uri' = record uri {
      instance_id = value % 2 ^ 16;
      flag = bit_or uri.flag flag_instance_id;
    } in
    if out_of_range value (max_id - 1)
    then none
    else elim next [ [] ↦ some uri' | segment ∷ more ↦ decode_resource uri' segment more ]

-- From the object ID on.
decode_object : Uri → List ℕ → List (List ℕ) → Option Uri
decode_object uri segment next =
    let value = get_number segment in
    let uri' = record uri { object_id = value % 2 ^ 16; flag = bit_or uri.flag flag_object_id } in
    if out_of_range value max_id
    then none
    else if bit_and uri'.flag mask_type == flag_registration
    then elim next [ [] ↦ some uri' | segment' ∷ more ↦ none ]
    else decode_instance (record uri' { flag = bit_or uri'.flag flag_dm }) next

-- `allocated` tells whether `malloc` returned memory; `none` is the result NULL.
pub decode_uri : Bool → List (List ℕ) → Option Uri
decode_uri allocated [] = none
decode_uri false (segment ∷ next) = none
decode_uri true (segment ∷ next) =
    if bytes_eq segment (b'r' ∷ b'd' ∷ [])
    then (let uri = record zero_uri { flag = bit_or 0 flag_registration } in
        elim next [ [] ↦ some uri | segment' ∷ more ↦ decode_object uri segment' more ])
    else if bytes_eq segment (b'b' ∷ b's' ∷ [])
    then elim next [
      | [] ↦ some (record zero_uri { flag = bit_or 0 flag_bootstrap })
      | segment' ∷ more ↦ none
    ]
    else decode_object zero_uri segment next

is_space : ℕ → Bool
is_space c = c == 32 || (leb 9 c && leb c 13)

skip_spaces : List ℕ → ℕ
unfolding is_space
skip_spaces [] = 0
skip_spaces (c ∷ text) = let more = skip_spaces text in if is_space c then more + 1 else 0

-- The resource part of `lwm2m_stringToUri`: `text` is what is left from `head` on.
text_resource : List ℕ → ℕ → ℕ → Uri → ℕ × Uri
text_resource [] behind head uri = (head, uri)
text_resource (c ∷ text) behind head uri =
    let number = parse_number (c ∷ text) behind in
    if c == b'/'
    then (head + 1, uri)
    else if out_of_range number.value (max_id - 1)
    then (0, uri)
    else (
      head + number.used,
      record uri { resource_id = number.value % 2 ^ 16; flag = bit_or uri.flag flag_resource_id },
    )

text_instance : List ℕ → ℕ → ℕ → Uri → ℕ × Uri
text_instance [] behind head uri = (head, uri)
text_instance (c ∷ text) behind head uri =
    let number = parse_number (c ∷ text) behind in
    let uri' = record uri {
      instance_id = number.value % 2 ^ 16;
      flag = bit_or uri.flag flag_instance_id;
    } in
    if c == b'/'
    then text_resource text behind (head + 1) uri
    else if out_of_range number.value (max_id - 1)
    then (0, uri)
    else text_resource (drop number.used (c ∷ text)) behind (head + number.used) uri'

text_object : List ℕ → ℕ → ℕ → Uri → ℕ × Uri
text_object [] behind head uri = (0, uri)
text_object (c ∷ text) behind head uri =
    let number = parse_number (c ∷ text) behind in
    let uri' = record uri { object_id = number.value % 2 ^ 16 } in
    if out_of_range number.value max_id
    then (0, uri)
    else text_instance (drop number.used (c ∷ text)) behind (head + number.used) uri'

-- What the function returns, and `*uriP`. No pointer is NULL; a length of 0 gives 0.
pub string_to_uri : List ℕ → ℕ → Uri → ℕ × Uri
string_to_uri buffer behind uri =
    let head = skip_spaces buffer in text_object (drop head buffer) behind head uri
