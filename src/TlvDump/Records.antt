-- ===== src/TlvDump/Records.antt =====
-- tests/TLV/decode.c: a sequence of resources that core/tlv.c wrote is printed as it was.
use galileom2m.Prelude.{
  ℕ, zero, suc, ◌^◌, ◌<◌, ◌≤◌, ◌≡◌, ◌∙◌, ap, false, none, List, [], ◌∷◌, ◌++◌, map, All, arith, leb,
  ◌==◌, if◌then◌else◌, length, drop, drop_all, length-append,
}
use galileom2m.Tlv.{ressource, Tlv, written, opaque_to_tlv, opaque_to_int, length_bytes}
use galileom2m.Tlv.Decode.{decode_tlv_bounds, decode_tlv-nil}
use galileom2m.Tlv.RoundTrip.{wire_id, Carries, decode_tlv-opaque_to_tlv}
use galileom2m.TlvDump.{Line, printed, then_print, content_of, line_of, decode}

pub record Item : Type 0 where
  pub id : ℕ
  pub content : List ℕ

-- The buffer is what writing the resources one behind the other gives, in any room.
pub data Writes : List Item → List ℕ → Type 0 where
  nothing : Writes [] []
  one_more :
      (x : Item) (items : List Item) (bytes rest : List ℕ) (room : ℕ)
      → opaque_to_tlv ressource x.content x.id room ≡ written bytes
      → Writes items rest
      → Writes (x ∷ items) (bytes ++ rest)

-- An id of 16 bits, and a content whose length the decoder reads as it was written.
pub record Plain (x : Item) : Type 0 where
  pub id_fits : x.id < 65536
  pub content_fits : length x.content < 2 ^ 24
  pub length_plain : All (λ b. b < 128) (length_bytes (length x.content))

-- The line for a resource.
abbrev pub line_for : ℕ → Item → Line
line_for indent x = record {
  indent = indent;
  type = ressource;
  id = wire_id x.id;
  bytes = x.content;
  as_int = if leb (length x.content) 8 then opaque_to_int x.content else none;
}

line_of-Carries :
    (indent : ℕ) (x : Item) (buffer : List ℕ) (t : Tlv)
    → Carries ressource x.id x.content buffer t
    → t.result ≤ length buffer
    → line_of indent buffer t ≡ line_for indent x
unfolding line_of content_of
line_of-Carries indent x buffer t carries inside = ground (
  arith, carries.same_type, carries.same_id, carries.same_length, carries.same_content,
  carries.consumed,
)

decode-nil : (fuel indent : ℕ) → decode (suc fuel) [] indent ≡ printed []
unfolding decode
decode-nil fuel indent = ground (arith, decode_tlv-nil)

decode-one_more :
    (fuel indent : ℕ) (x : Item) (bytes rest : List ℕ) (room : ℕ)
    → Plain x
    → opaque_to_tlv ressource x.content x.id room ≡ written bytes
    → (decode (suc fuel) (bytes ++ rest) indent
        ≡ then_print (line_for indent x ∷ []) (decode fuel rest indent))
      × (0 < length bytes)
unfolding decode
decode-one_more fuel indent x bytes rest room plain e =
    let (t, decoded, carries, whole, fits) =
      decode_tlv-opaque_to_tlv ressource x.id x.content bytes rest room plain.id_fits
        plain.content_fits plain.length_plain e in
    let (low, high, within, sum, inside, either) = decode_tlv_bounds (bytes ++ rest) t decoded in
    let line = line_of-Carries indent x (bytes ++ rest) t carries inside in
    let step : drop t.result (bytes ++ rest) ≡ rest = rw whole (drop_all bytes rest) in
    let go_on : (t.result == 0) ≡ false = (let all = carries.consumed in ground arith) in
    (
      ground (arith, decoded, go_on, line, carries.same_type, step),
      (let all = carries.consumed in omega arith),
    )

-- If a buffer is what lwm2m_opaqueToTLV wrote for a sequence of resources with 16-bit ids, contents
-- below 16 MB and no byte of 128 or more in a length field, then with more fuel than the buffer has
-- bytes the dump prints exactly one line for each resource, in their order, with the id as it
-- travels, the content, and the integer that a content of at most 8 bytes stands for.
pub decode-Writes :
    (fuel indent : ℕ) (items : List Item) (buffer : List ℕ)
    → All Plain items
    → Writes items buffer
    → length buffer < fuel
    → decode fuel buffer indent ≡ printed (map (line_for indent) items)
decode-Writes zero indent items buffer plain w h = absurd (omega arith)
decode-Writes (suc fuel) indent items buffer plain nothing h = decode-nil fuel indent
decode-Writes (suc fuel) indent items buffer plain (one_more x items' bytes rest room e w) h =
    let (step, some_bytes) = decode-one_more fuel indent x bytes rest room plain.0 e in
    step
    ∙ ap (then_print (line_for indent x ∷ []))
        (decode-Writes fuel indent items' rest plain.1 w (omega (arith, length-append bytes rest)))
