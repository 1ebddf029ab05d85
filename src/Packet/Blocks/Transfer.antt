-- ===== src/Packet/Blocks/Transfer.antt =====
-- core/packet.c: the blocks of a response put together, and what `free` is given after a block.
use galileom2m.Prelude.{
  ℕ, zero, suc, ◌+◌, ◌-◌, ◌*◌, ◌≤◌, ◌<◌, ◌≡◌, refl, ap, ◌∙◌, sym, false, some, List, [], ◌∷◌, ◌++◌,
  arith, ltb, leb, ◌==◌, if◌then◌else◌, length, take, drop,
}
use galileom2m.Coap.{Coap, PayloadLaws, Block, max_chunk_size}
use galileom2m.Management.Requests.{Pointer, start, inside, literal}
use galileom2m.Packet.Blocks.{take_block, min, moved, apply_blocks, wanted_block}

length-take-le : (n : ℕ) (xs : List ℕ) → length (take n xs) ≤ n
length-take-le zero xs = omega arith
length-take-le (suc n) [] = omega arith
length-take-le (suc n) (x ∷ xs) = omega (arith, length-take-le n xs)

length-drop : (n : ℕ) (xs : List ℕ) → length (drop n xs) ≡ length xs - n
length-drop zero xs = omega arith
length-drop (suc n) [] = omega arith
length-drop (suc n) (x ∷ xs) = omega (arith, length-drop n xs)

take_long : (n : ℕ) (xs : List ℕ) → length xs ≤ n → take n xs ≡ xs
take_long zero [] h = refl
take_long zero (x ∷ xs) h = absurd (omega arith)
take_long (suc n) [] h = refl
take_long (suc n) (x ∷ xs) h = ap (◌∷◌ x) (take_long n xs (omega arith))

-- Taking no more than there is.
take-min : (n : ℕ) (xs : List ℕ) → take (min (length xs) n) xs ≡ take n xs
take-min n xs = ground (arith, take_long n xs, take_long (length xs) xs)

take-append-drop : (m n : ℕ) (xs : List ℕ) → take (m + n) xs ≡ take m xs ++ take n (drop m xs)
take-append-drop zero n xs = ground arith
take-append-drop (suc m) n [] = ground (arith, take_long (suc m + n) [], take_long n [])
take-append-drop (suc m) n (x ∷ xs) =
    let shape : suc m + n ≡ suc (m + n) = omega arith in
    rw shape (ap (◌∷◌ x) (take-append-drop m n xs))

-- The block with a number, for a size.
abbrev pub numbered : ℕ → ℕ → Block
numbered size num = record { num = num; size = size; offset = num * size }

module _ (coap : Coap) (b : Block) (response : coap.Packet) (pointer : Pointer) where
  take_block-within :
      b.offset < length (coap.payload response)
      → take_block coap b response pointer ≡ (
        coap.set_payload
            (coap.set_block2 response b.num
              (ltb b.size (length (coap.payload response) - b.offset))
              b.size)
            (take
              (min (length (coap.payload response) - b.offset) b.size)
              (drop b.offset (coap.payload response))),
        moved pointer b.offset,
      )
  unfolding take_block
  take_block-within within = ground arith

module _ (coap : Coap) (laws : PayloadLaws coap) where
  open coap use {Packet}

  module _ (response : Packet) (size : ℕ) (small : size ≤ max_chunk_size) where
    -- The payload of a block.
    abbrev pub block_payload : ℕ → List ℕ
    block_payload num = coap.payload (take_block coap (numbered size num) response start).0

    -- The payloads of the first blocks, one after another.
    pub collected : ℕ → List ℕ
    collected zero = []
    collected (suc count) = collected count ++ block_payload count

    block_payload-drop :
        (num : ℕ)
        → num * size < length (coap.payload response)
        → block_payload num ≡ take size (drop (num * size) (coap.payload response))
    block_payload-drop num within =
        let payload = coap.payload response in
        let rest = drop (num * size) payload in
        let left : length payload - num * size ≡ length rest =
          sym (length-drop (num * size) payload) in
        let cut : take (min (length payload - num * size) size) rest ≡ take size rest =
          rw left (take-min size rest) in
        let fits : length (take size rest) ≤ max_chunk_size =
          omega (arith, length-take-le size rest) in
        ap (λ r. coap.payload r.0)
          (take_block-within coap (numbered size num) response start within)
        ∙ rw cut (laws.new_payload _ (take size rest) fits)

    collected-take :
        (count : ℕ)
        → ((k : ℕ) → k < count → k * size < length (coap.payload response))
        → collected count ≡ take (count * size) (coap.payload response)
    unfolding collected
    collected-take zero within = ground arith
    collected-take (suc count) within =
        let payload = coap.payload response in
        let split : suc count * size ≡ count * size + size = grind arith in
        rw
          (
            split,
            take-append-drop (count * size) size payload,
            block_payload-drop count (within count (omega arith)),
            collected-take count (λ k below. within k (omega arith)),
          )
          refl

    -- With blocks of a size that fits a chunk, and a CoAP library that keeps a payload that fits a
    -- chunk, the blocks of a response, taken one after another, as many as the payload needs and
    -- no more, give its payload.
    pub collected-payload :
        (count : ℕ)
        → (count - 1) * size < length (coap.payload response)
        → length (coap.payload response) ≤ count * size
        → collected count ≡ coap.payload response
    collected-payload count needed enough =
        collected-take count (λ k below. grind (arith, below))
        ∙ take_long (count * size) (coap.payload response) enough

-- The payload pointer after the block of a response whose payload was allocated.
pub apply_blocks-pointer :
    (coap : Coap) (message response : coap.Packet) (error : List ℕ) (b : Block)
    → coap.block1 message ≡ false
    → coap.block2 message ≡ some b
    → (apply_blocks coap message response start error).1 ≡ (
        if leb (length (coap.payload response)) b.offset
        then literal
        else if b.offset == 0
        then start
        else inside)
unfolding apply_blocks take_block wanted_block
apply_blocks-pointer coap message response error b no_block1 asked =
    rw (no_block1, asked) (ground arith)
