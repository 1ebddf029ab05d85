-- ===== src/Packet/Blocks.antt =====
-- core/packet.c, `lwm2m_handle_packet`: the blockwise transfer of a response.
pub mod Transfer
use galileom2m.Prelude.{
  ℕ, ◌-◌, ◌&&◌, ◌||◌, not, Bool, true, false, Option, none, some, List, [], ◌∷◌, ltb, leb, ◌==◌,
  if◌then◌else◌, length, take, drop, is_some,
}
use galileom2m.Coap.{
  Coap, Block, no_error, bad_request, bad_option, not_implemented, max_chunk_size,
}
use galileom2m.Context.{minus_one}
use galileom2m.Management.Requests.{Pointer, null, start, inside, literal}

-- `MIN(a, b)`
abbrev pub min : ℕ → ℕ → ℕ
min a b = if ltb a b then a else b

-- "BlockOutOfScope"
abbrev pub block_out_of_scope : List ℕ
block_out_of_scope =
    b'B' ∷ b'l' ∷ b'o' ∷ b'c' ∷ b'k' ∷ b'O' ∷ b'u' ∷ b't' ∷ b'O' ∷ b'f' ∷ b'S' ∷ b'c' ∷ b'o' ∷ b'p'
    ∷ b'e' ∷ []

-- "NoBlock1Support"
abbrev pub no_block1_support : List ℕ
no_block1_support =
    b'N' ∷ b'o' ∷ b'B' ∷ b'l' ∷ b'o' ∷ b'c' ∷ b'k' ∷ b'1' ∷ b'S' ∷ b'u' ∷ b'p' ∷ b'p' ∷ b'o' ∷ b'r'
    ∷ b't' ∷ []

-- A pointer moved on by a number of bytes.
abbrev pub moved : Pointer → ℕ → Pointer
moved pointer n = if n == 0 then pointer else inside

-- The variables `block_num`, `block_size` and `block_offset` of a request.
pub wanted_block : Option Block → Block
wanted_block none = record { num = 0; size = max_chunk_size; offset = 0 }
wanted_block (some b) = record b { size = min b.size max_chunk_size }

module _ (coap : Coap) where
  open coap use {Packet}

  -- The block of a resource that knows nothing of blocks.
  pub take_block : Block → Packet → Pointer → Packet × Pointer
  take_block b response pointer =
      let payload = coap.payload response in
      let rest = length payload - b.offset in
      if leb (length payload) b.offset
      then (coap.set_payload (coap.set_status response bad_option) block_out_of_scope, literal)
      else (
        coap.set_payload (coap.set_block2 response b.num (ltb b.size rest) b.size)
            (take (min rest b.size) (drop b.offset payload)),
        moved pointer b.offset,
      )

  -- The block of a resource that made it itself. `new_offset` is a 32-bit int.
  own_block : Block → ℕ → Packet → Packet
  own_block b new_offset response =
      let long = ltb b.size (length (coap.payload response)) in
      let response' =
        coap.set_block2 response b.num (not (new_offset == minus_one) || long) b.size in
      if long then coap.set_payload response' (take b.size (coap.payload response)) else response'

  first_block : ℕ → Packet → Packet
  first_block new_offset response =
      let response' = coap.set_block2 response 0 (not (new_offset == minus_one)) max_chunk_size in
      coap.set_payload response'
        (take (min (length (coap.payload response)) max_chunk_size) (coap.payload response))

  -- The response as it is sent, with its payload pointer, and `coap_error_message`. The error code
  -- of the first branch is overwritten by the result of `message_send`, so the branch does no more
  -- than to set the message. Nothing that a request is handled by writes `new_offset`, so it is the
  -- offset that was asked for.
  pub apply_blocks : Packet → Packet → Pointer → List ℕ → Packet × Pointer × List ℕ
  unfolding wanted_block own_block first_block
  apply_blocks message response pointer error =
      let b = wanted_block (coap.block2 message) in
      let new_offset = b.offset in
      if coap.block1 message && (ltb (coap.code response) bad_request && not (coap.block1 response))
      then (response, pointer, no_block1_support)
      else if is_some (coap.block2 message)
      then (if new_offset == b.offset
          then (let (response', pointer') = take_block b response pointer in
              (response', pointer', error))
          else (own_block b new_offset response, pointer, error))
      else if not (new_offset == 0)
      then (first_block new_offset response, pointer, error)
      else (response, pointer, error)
