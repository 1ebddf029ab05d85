-- ===== src/Coap.antt =====
-- The CoAP library that core/ calls (externals/er-coap-13), as an interface: the packet type, the
-- fields that core/ reads, and the functions that it calls. None of it is defined here.
pub mod Sample
use galileom2m.Prelude.{length, ◌≤◌, Bool, ℕ, List, [], ◌∷◌, ◌++◌, Option, ◌≡◌}

pub data MessageType : Type 0 where
  con non ack rst : MessageType

-- `coap_status_t` and the `COAP_...` codes of core/liblwm2m.h, which have the same values.
abbrev pub no_error : ℕ
no_error = 0

abbrev pub coap_get : ℕ
coap_get = 1

abbrev pub coap_post : ℕ
coap_post = 2

abbrev pub coap_put : ℕ
coap_put = 3

abbrev pub coap_delete : ℕ
coap_delete = 4

abbrev pub created : ℕ
created = 0x41

abbrev pub deleted : ℕ
deleted = 0x42

abbrev pub changed : ℕ
changed = 0x44

abbrev pub content : ℕ
content = 0x45

abbrev pub bad_request : ℕ
bad_request = 0x80

abbrev pub unauthorized : ℕ
unauthorized = 0x81

abbrev pub not_found : ℕ
not_found = 0x84

abbrev pub bad_option : ℕ
bad_option = 0x82

abbrev pub method_not_allowed : ℕ
method_not_allowed = 0x85

abbrev pub internal_server_error : ℕ
internal_server_error = 0xa0

abbrev pub not_implemented : ℕ
not_implemented = 0xa1

abbrev pub service_unavailable : ℕ
service_unavailable = 0xa3

-- `REST_MAX_CHUNK_SIZE`
abbrev pub max_chunk_size : ℕ
max_chunk_size = 128

abbrev pub max_retransmit : ℕ
max_retransmit = 4

abbrev pub response_timeout : ℕ
response_timeout = 2

-- A Block2 option: `block2_num`, `block2_size` and `block2_offset`.
pub record Block : Type 0 where
  pub num : ℕ
  pub size : ℕ
  pub offset : ℕ

-- A pointer with a length is the list of its bytes; NULL segments and paths are the empty list.
-- `observe` is the observe option if `IS_OPTION` holds for it. A setter returns the packet.
pub record Coap : Type 1 where
  pub Packet : Type 0
  pub type : Packet → MessageType
  pub code : Packet → ℕ
  pub mid : Packet → ℕ
  pub token : Packet → List ℕ
  pub payload : Packet → List ℕ
  pub uri_path : Packet → List (List ℕ)
  pub uri_query : Packet → List (List ℕ)
  pub location_path : Packet → List ℕ
  pub observe : Packet → Option ℕ
  pub init_message : MessageType → ℕ → ℕ → Packet
  pub set_uri_path_segment : Packet → List ℕ → Packet
  pub set_uri_path : Packet → List ℕ → Packet
  pub set_uri_query : Packet → List ℕ → Packet
  pub set_location_path : Packet → List ℕ → Packet
  pub set_payload : Packet → List ℕ → Packet
  pub set_observe : Packet → ℕ → Packet
  pub set_token : Packet → List ℕ → Packet
  pub set_mid : Packet → ℕ → Packet
  -- The bytes that `coap_serialize_message` writes; none of them for the result 0.
  pub serialize : Packet → List ℕ
  -- The library's status, the message as far as it was read, and `coap_error_message`, which keeps
  -- its old text, the first argument, where the library sets none.
  pub parse : List ℕ → List ℕ → ℕ × Packet × List ℕ
  pub set_status : Packet → ℕ → Packet
  -- Whether `IS_OPTION` holds for the Block1 option; the Block2 option if it holds for that.
  pub block1 : Packet → Bool
  pub block2 : Packet → Option Block
  pub set_block2 : Packet → ℕ → Bool → ℕ → Packet

-- What is documented of the path of a message: a new message has none, and a segment goes to the
-- end of the path.
pub record PathLaws (coap : Coap) : Type 0 where
  pub new_path :
      (t : MessageType) (code mid : ℕ) → coap.uri_path (coap.init_message t code mid) ≡ []
  pub add_segment :
      (p : coap.Packet) (segment : List ℕ)
      → coap.uri_path (coap.set_uri_path_segment p segment) ≡ coap.uri_path p ++ (segment ∷ [])

-- What is documented of payloads: a packet keeps as many bytes of a payload as fit a chunk, and the
-- status and the Block2 option leave the payload alone.
pub record PayloadLaws (coap : Coap) : Type 0 where
  pub new_payload :
      (p : coap.Packet) (bytes : List ℕ)
      → length bytes ≤ max_chunk_size
      → coap.payload (coap.set_payload p bytes) ≡ bytes
  pub keep_payload :
      (p : coap.Packet) (num : ℕ) (more : Bool) (size : ℕ)
      → coap.payload (coap.set_block2 p num more size) ≡ coap.payload p
