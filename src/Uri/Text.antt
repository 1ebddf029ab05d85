-- ===== src/Uri/Text.antt =====
-- core/uri.c: `lwm2m_stringToUri` on texts of three ids with slashes between them.
use native.Mathlib.Numerals.{add-one}
use galileom2m.Prelude.{
  sym, append-nil, ℕ, ◌+◌, ◌-◌, ◌*◌, ◌%◌, ◌^◌, ◌≤◌, ◌<◌, ◌≡◌, ◌≢◌, ◌⊎◌, inl, inr, refl, ◌∙◌, bit_or,
  List, [], ◌∷◌, ◌++◌, arith, length, drop, length-append, ◌==◌, if◌then◌else◌,
}
use galileom2m.Uri.{
  Uri, parse_loop, parse_number, is_space, skip_spaces, text_resource, text_instance, text_object,
  string_to_uri,
}
use galileom2m.Uri.Numbers.{
  decimal, decimal_value, Digits, decimal-Digits, length-decimal, decimal_value-decimal_fuel,
}

step_value : ℕ → ℕ → ℕ → ℕ
step_value acc mul c =
    ((if mul == 0 then acc % 2 ^ 32 else acc % 2 ^ 32 * mul) + (c - b'0')) % 2 ^ 32

step_value-next :
    (acc mul c : ℕ)
    → (mul ≡ 10) ⊎ ((mul ≡ 0) × (acc ≡ 0))
    → step_value acc mul c ≡ (acc * 10 + (c - b'0')) % 2 ^ 32
unfolding step_value
step_value-next acc mul c m = ground arith

-- Digits that end at a slash: the slash is read too.
parse_loop-slash :
    (text rest : List ℕ) (behind acc mul used : ℕ)
    → Digits text
    → (mul ≡ 10) ⊎ ((mul ≡ 0) × (acc ≡ 0))
    → parse_loop (text ++ (b'/' ∷ rest)) behind (acc % 2 ^ 32) mul used
      ≡ record { value = decimal_value acc text % 2 ^ 32; used = used + length text + 1 }
unfolding parse_loop decimal_value
parse_loop-slash [] rest behind acc mul used digits m = ground arith
parse_loop-slash (c ∷ text) rest behind acc mul used (digit, digits) m =
    let step = step_value-next acc mul c m in
    ground (
      arith,
      step,
      parse_loop-slash text rest behind (acc * 10 + (c - b'0')) 10 (used + 1) digits (inl refl),
    )

-- Digits at the end of the text, with no slash behind.
parse_loop-end :
    (text : List ℕ) (behind acc mul used : ℕ)
    → behind ≢ b'/'
    → Digits text
    → (mul ≡ 10) ⊎ ((mul ≡ 0) × (acc ≡ 0))
    → parse_loop text behind (acc % 2 ^ 32) mul used
      ≡ record { value = decimal_value acc text % 2 ^ 32; used = used + length text }
unfolding parse_loop decimal_value
parse_loop-end [] behind acc mul used apart digits m = ground arith
parse_loop-end (c ∷ text) behind acc mul used apart (digit, digits) m =
    let step = step_value-next acc mul c m in
    ground (
      arith,
      step,
      parse_loop-end text behind (acc * 10 + (c - b'0')) 10 (used + 1) apart digits (inl refl),
    )

pub decimal_value-decimal : (n : ℕ) → n < 65536 → decimal_value 0 (decimal n) ≡ n
unfolding decimal
decimal_value-decimal n h = decimal_value-decimal_fuel 5 n (omega arith)

parse_number-slash :
    (n behind : ℕ) (rest : List ℕ)
    → n < 65536
    → parse_number (decimal n ++ (b'/' ∷ rest)) behind
      ≡ record { value = n; used = length (decimal n) + 1 }
unfolding parse_number
parse_number-slash n behind rest h = ground (
  arith,
  decimal_value-decimal n h,
  parse_loop-slash (decimal n) rest behind 0 0 0 (decimal-Digits n) (inr (refl, refl)),
)

parse_number-end :
    (n behind : ℕ)
    → behind ≢ b'/'
    → n < 65536
    → parse_number (decimal n) behind ≡ record { value = n; used = length (decimal n) }
unfolding parse_number
parse_number-end n behind apart h = ground (
  arith,
  decimal_value-decimal n h,
  parse_loop-end (decimal n) behind 0 0 0 apart (decimal-Digits n) (inr (refl, refl)),
)

-- A text that begins with a digit.
pub begins :
    (text rest : List ℕ)
    → Digits text
    → 1 ≤ length text
    → (c : ℕ) × (more : List ℕ) × (text ++ rest ≡ c ∷ more) × (b'0' ≤ c) × (c ≤ b'9')
begins [] rest d h = absurd (omega arith)
begins (c ∷ text) rest d h = (c, text ++ rest, refl, d.0.0, d.0.1)

drop-slash : (text rest : List ℕ) → drop (length text + 1) (text ++ (b'/' ∷ rest)) ≡ rest
drop-slash [] rest = refl
drop-slash (c ∷ text) rest = rw add-one (rw add-one at (drop-slash text rest))

module _ (n behind head : ℕ) (rest : List ℕ) (uri : Uri) where
  text_object-slash :
      n < 65536
      → text_object (decimal n ++ (b'/' ∷ rest)) behind head uri
        ≡ text_instance rest behind (head + (length (decimal n) + 1)) (record uri { object_id = n })
  unfolding text_object
  text_object-slash h =
      let (c, more, shape, low, high) =
        begins (decimal n) (b'/' ∷ rest) (decimal-Digits n) (length-decimal n).0 in
      rw shape
        (ground (arith, shape, parse_number-slash n behind rest h, drop-slash (decimal n) rest))

  text_instance-slash :
      n < 65535
      → text_instance (decimal n ++ (b'/' ∷ rest)) behind head uri
        ≡ text_resource rest behind
            (head + (length (decimal n) + 1))
            (record uri { instance_id = n; flag = bit_or uri.flag 0x02 })
  unfolding text_instance
  text_instance-slash h =
      let (c, more, shape, low, high) =
        begins (decimal n) (b'/' ∷ rest) (decimal-Digits n) (length-decimal n).0 in
      rw shape (
        ground (
          arith,
          shape,
          parse_number-slash n behind rest (omega arith),
          drop-slash (decimal n) rest,
        ))

  text_resource-slash :
      n < 65535
      → text_resource (decimal n ++ (b'/' ∷ rest)) behind head uri ≡ (
        head + (length (decimal n) + 1),
        record uri { resource_id = n; flag = bit_or uri.flag 0x01 },
      )
  unfolding text_resource
  text_resource-slash h =
      let (c, more, shape, low, high) =
        begins (decimal n) (b'/' ∷ rest) (decimal-Digits n) (length-decimal n).0 in
      rw shape (ground (arith, shape, parse_number-slash n behind rest (omega arith)))

  text_resource-end :
      behind ≢ b'/'
      → n < 65535
      → text_resource (decimal n) behind head uri
        ≡ (head + length (decimal n), record uri { resource_id = n; flag = bit_or uri.flag 0x01 })
  unfolding text_resource
  text_resource-end apart h =
      let (c, more, shape, low, high) =
        begins (decimal n) [] (decimal-Digits n) (length-decimal n).0 in
      let alone : decimal n ≡ c ∷ more = sym (append-nil (decimal n)) ∙ shape in
      rw alone (ground (arith, alone, parse_number-end n behind apart (omega arith)))

skip_spaces-none : (c : ℕ) (more : List ℕ) → b'/' ≤ c → skip_spaces (c ∷ more) ≡ 0
unfolding skip_spaces is_space
skip_spaces-none c more h = ground arith

text_object-empty :
    (behind head : ℕ) (rest : List ℕ) (uri : Uri)
    → text_object (b'/' ∷ rest) behind head uri
      ≡ text_instance rest behind (head + 1) (record uri { object_id = 0 })
unfolding text_object parse_number parse_loop
text_object-empty behind head rest uri = refl

-- "o/i/r"
abbrev pub path_text : ℕ → ℕ → ℕ → List ℕ
path_text o i r = decimal o ++ (b'/' ∷ (decimal i ++ (b'/' ∷ decimal r)))

-- A text of three ids with slashes between them and none in front, where no slash stands behind the
-- text and the instance and the resource are below 65535, is read to its end as these ids; the flags
-- of the instance and the resource are set, and the other flags stay as they were.
pub string_to_uri-path_text :
    (o i r behind : ℕ) (uri : Uri)
    → o < 65536
    → i < 65535
    → r < 65535
    → behind ≢ b'/'
    → string_to_uri (path_text o i r) behind uri ≡ (
      length (path_text o i r),
      record {
        flag = bit_or (bit_or uri.flag 0x02) 0x01;
        object_id = o;
        instance_id = i;
        resource_id = r;
      },
    )
unfolding string_to_uri
string_to_uri-path_text o i r behind uri ho hi hr apart =
    let tail = decimal i ++ (b'/' ∷ decimal r) in
    let (c, more, shape, low, high) =
      begins (decimal o) (b'/' ∷ tail) (decimal-Digits o) (length-decimal o).0 in
    let start : skip_spaces (path_text o i r) ≡ 0 =
      rw shape (skip_spaces-none c more (omega arith)) in
    rw
      (
        start,
        text_object-slash o behind 0 tail uri ho,
        text_instance-slash i behind _ (decimal r) _ hi,
      )
      (text_resource-end r behind _ [] _ apart hr
        ∙ ground (
          arith,
          length-append (decimal o) (b'/' ∷ tail),
          length-append (decimal i) (b'/' ∷ decimal r),
        ))

-- The same text behind a slash, which is how a path is written: the object is 0, and the first two ids
-- are taken for the instance and the resource; the third is not read.
pub string_to_uri-leading_slash :
    (o i r behind : ℕ) (uri : Uri)
    → o < 65535
    → i < 65535
    → string_to_uri (b'/' ∷ path_text o i r) behind uri ≡ (
      length (decimal o) + length (decimal i) + 3,
      record {
        flag = bit_or (bit_or uri.flag 0x02) 0x01;
        object_id = 0;
        instance_id = o;
        resource_id = i;
      },
    )
unfolding string_to_uri
string_to_uri-leading_slash o i r behind uri ho hi =
    let text = path_text o i r in
    rw
      (
        skip_spaces-none b'/' text (omega arith),
        text_object-empty behind 0 text uri,
        text_instance-slash o behind _ _ _ ho,
      )
      (text_resource-slash i behind _ (decimal r) _ hi ∙ ground arith)
