-- ===== src/Uri/Examples.antt =====
-- Texts and segments of core/uri.c.
use galileom2m.Prelude.{ℕ, ◌≡◌, ◌+◌, length, refl, true, bytes_eq, some, List, [], ◌∷◌, arith}
use galileom2m.Uri.{
  Uri, string_to_uri, decode_uri, decode_object, decode_instance, decode_resource, parse_number,
  get_number,
}
use galileom2m.Uri.Numbers.{decimal}
use galileom2m.Uri.Text.{path_text, string_to_uri-leading_slash}

-- "3", "", "1"
abbrev path : List (List ℕ)
path = (b'3' ∷ []) ∷ [] ∷ (b'1' ∷ []) ∷ []

abbrev device_resource : Uri
device_resource = record { flag = 5; object_id = 3; instance_id = 0; resource_id = 1 }

path-accepted : decode_uri true path ≡ some device_resource
unfolding decode_uri decode_object decode_instance decode_resource get_number parse_number bytes_eq
path-accepted = refl

-- An uri whose flags are not set.
abbrev blank : Uri
blank = record { flag = 0; object_id = 9; instance_id = 9; resource_id = 9 }

-- "/3/0/15"
string_to_uri-leading_slash_example : string_to_uri (b'/' ∷ path_text 3 0 15) 0 blank ≡ (
  length (decimal 3) + length (decimal 0) + 3,
  record { flag = 3; object_id = 0; instance_id = 3; resource_id = 0 },
)
string_to_uri-leading_slash_example =
    string_to_uri-leading_slash 3 0 15 0 blank (omega arith) (omega arith)
