-- ===== src/Coap/Sample.antt =====
-- A CoAP library for the examples: a packet is a record of what was set, and it is serialized to
-- the byte 1.
use galileom2m.Prelude.{
  ℕ, ◌*◌, Bool, false, Option, none, some, List, [], ◌∷◌, ◌++◌, refl, leb, length, if◌then◌else◌,
}
use galileom2m.Coap.{Block, Coap, PathLaws, PayloadLaws, MessageType}

pub record SamplePacket : Type 0 where
  pub type : MessageType
  pub code : ℕ
  pub mid : ℕ
  pub token : List ℕ
  pub payload : List ℕ
  pub uri_path : List (List ℕ)
  pub uri_query : List (List ℕ)
  pub location_path : List ℕ
  pub observe : Option ℕ
  pub block2 : Option (Block × Bool)

abbrev pub sample_init : MessageType → ℕ → ℕ → SamplePacket
sample_init t code mid = record {
  type = t;
  code = code;
  mid = mid;
  token = [];
  payload = [];
  uri_path = [];
  uri_query = [];
  location_path = [];
  observe = none;
  block2 = none;
}

-- The bytes are the code and the id of a confirmable message to /rd?ep=n, whose payload is what
-- follows.
abbrev pub sample_message : List ℕ → SamplePacket
sample_message (code ∷ mid ∷ payload) = record (sample_init MessageType.con code mid) {
  payload = payload;
}
sample_message _ = sample_init MessageType.con 0 0

abbrev pub sample : Coap
sample = record {
  Packet = SamplePacket;
  type = λ p. p.type;
  code = λ p. p.code;
  mid = λ p. p.mid;
  token = λ p. p.token;
  payload = λ p. p.payload;
  uri_path = λ p. p.uri_path;
  uri_query = λ p. p.uri_query;
  location_path = λ p. p.location_path;
  observe = λ p. p.observe;
  init_message = sample_init;
  set_uri_path_segment = λ p segment. record p { uri_path = p.uri_path ++ (segment ∷ []) };
  set_uri_path = λ p path. record p { uri_path = path ∷ [] };
  set_uri_query = λ p query. record p { uri_query = query ∷ [] };
  set_location_path = λ p path. record p { location_path = path };
  set_payload = λ p bytes. record p { payload = bytes };
  set_observe = λ p counter. record p { observe = some counter };
  set_token = λ p token. record p { token = token };
  set_mid = λ p mid. record p { mid = mid };
  serialize = λ p. 1 ∷ [];
  parse = λ error bytes. (0, sample_message bytes, error);
  set_status = λ p code. record p { code = code };
  block1 = λ p. false;
  block2 = λ p. elim p.block2 [ none ↦ none | some (b, more) ↦ some b ];
  set_block2 = λ p num more size. record p {
    block2 = some (record { num = num; size = size; offset = num * size }, more);
  };
}

abbrev bytes_of : List (List ℕ) → List ℕ
bytes_of [] = []
bytes_of (segment ∷ segments) = segment ++ bytes_of segments

-- The same library, but a packet whose options take more than 60 bytes is not serialized.
abbrev pub limited_sample : Coap
limited_sample = record sample {
  serialize = λ (p : SamplePacket).
      if leb (length (p.token ++ p.location_path ++ bytes_of p.uri_path ++ bytes_of p.uri_query)) 60
      then 1 ∷ []
      else [];
}

abbrev pub sample_laws : PathLaws sample
sample_laws = record { new_path = λ t code mid. refl; add_segment = λ p segment. refl }

abbrev pub sample_payload_laws : PayloadLaws sample
sample_payload_laws = record {
  new_payload = λ p bytes fits. refl;
  keep_payload = λ p num more size. refl;
}
