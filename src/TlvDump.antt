-- ===== src/TlvDump.antt =====
-- tests/TLV/decode.c: the program that prints the TLV records of a buffer, those inside of object
-- instances and multiple resources included. What is printed of a record is a `Line`; the layout of
-- the bytes (`prv_output_buffer`, `print_indent`) is left out.
pub mod Total
pub mod Records
mod Examples
use galileom2m.Prelude.{
  ℕ, zero, suc, ◌+◌, ◌-◌, Bool, true, false, Option, none, some, List, [], ◌∷◌, ◌++◌, ltb, leb,
  ◌==◌, ◌&&◌, if◌then◌else◌, length, take, drop,
}
use galileom2m.Tlv.{
  TlvType, object_instance, ressource_instance, multiple_instance, ressource, Tlv, decode_tlv,
  opaque_to_int,
}

pub record Line : Type 0 where
  pub indent : ℕ
  pub type : TlvType
  pub id : ℕ
  pub bytes : List ℕ
  pub as_int : Option ℕ

-- `overread` stands for the recursion into a container whose content does not lie in the buffer: the
-- code goes on with a length of almost 2^64 in what stands behind the buffer, where there is nothing to
-- model.
pub data Dump : Type 0 where
  printed : List Line → Dump
  overread : Dump
  out_of_fuel : Dump

-- What is printed first, and what comes after it.
abbrev pub then_print : List Line → Dump → Dump
then_print first (printed rest) = printed (first ++ rest)
then_print first overread = overread
then_print first out_of_fuel = out_of_fuel

abbrev pub after : Dump → Dump → Dump
after (printed first) rest = then_print first rest
after overread rest = overread
after out_of_fuel rest = out_of_fuel

abbrev pub is_container : TlvType → Bool
is_container object_instance = true
is_container ressource_instance = false
is_container multiple_instance = true
is_container ressource = false

-- The content, if it lies in the buffer; the length of one that does not is negative as an `int`.
unfoldable pub content_of : List ℕ → Tlv → Option (List ℕ)
content_of buffer t =
    if leb (t.data_index + t.data_len) (length buffer)
    then some (take t.data_len (drop t.data_index buffer))
    else none

unfoldable pub line_of : ℕ → List ℕ → Tlv → Line
unfolding content_of
line_of indent buffer t =
    let bytes : List ℕ = elim (content_of buffer t) [ none ↦ [] | some content ↦ content ] in
    record {
      indent = indent;
      type = t.type;
      id = t.id;
      bytes = bytes;
      as_int =
          if is_container t.type
          then none
          else if leb t.data_len 8
          then opaque_to_int bytes
          else none;
    }

-- The records of a buffer from the start of it on. A recursion, and a round, takes one unit of fuel.
unfoldable pub decode : ℕ → List ℕ → ℕ → Dump
unfolding line_of
decode zero buffer indent = out_of_fuel
decode (suc fuel) buffer indent = elim (decode_tlv buffer) [
  | none ↦ printed []
  | some t ↦
      (let nested : Dump = elim (content_of buffer t) [
        | none ↦ overread
        | some content ↦ decode fuel content (indent + 1)
      ] in
        let rest = decode fuel (drop t.result buffer) indent in
        if t.result == 0
        then printed []
        else then_print (line_of indent buffer t ∷ [])
            (after (if is_container t.type then nested else printed []) rest))
]
