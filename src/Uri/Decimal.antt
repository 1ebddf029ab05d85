-- ===== src/Uri/Decimal.antt =====
-- core/uri.c on segments that are decimal texts of ids.
use galileom2m.Prelude.{
  ℕ, ◌≤◌, ◌<◌, ◌≡◌, refl, ◌∙◌, bit_or, true, false, some, List, [], ◌∷◌, arith, length, bytes_eq,
}
use galileom2m.Uri.{
  Uri, zero_uri, get_number, decode_uri, decode_object, decode_instance, decode_resource,
}
use galileom2m.Uri.Numbers.{decimal, Digits, decimal-Digits, length-decimal, get_number-decimal}

not_a_word :
    (text : List ℕ) (a b : ℕ)
    → Digits text
    → 1 ≤ length text
    → b'9' < a
    → bytes_eq text (a ∷ b ∷ []) ≡ false
unfolding bytes_eq
not_a_word [] a b d l h = absurd (omega arith)
not_a_word (c ∷ text) a b d l h = ground arith

decode_resource-text :
    (uri : Uri) (text : List ℕ) (r : ℕ)
    → 1 ≤ length text
    → get_number text ≡ r
    → r ≤ 0xffff
    → decode_resource uri text []
      ≡ some (record uri { resource_id = r; flag = bit_or uri.flag 0x01 })
unfolding decode_resource
decode_resource-text uri [] r l e h = absurd (omega arith)
decode_resource-text uri (c ∷ text) r l e h = ground arith

decode_instance-text :
    (uri : Uri) (text : List ℕ) (next : List (List ℕ)) (i : ℕ)
    → 1 ≤ length text
    → get_number text ≡ i
    → i < 0xffff
    → let uri' = record uri { instance_id = i; flag = bit_or uri.flag 0x02 } in
      decode_instance uri (text ∷ next)
      ≡ (elim next [ [] ↦ some uri' | segment ∷ more ↦ decode_resource uri' segment more ])
unfolding decode_instance
decode_instance-text uri [] next i l e h = absurd (omega arith)
decode_instance-text uri (c ∷ text) [] i l e h = ground arith
decode_instance-text uri (c ∷ text) (s ∷ next) i l e h = ground arith

decode_instance-nil : (uri : Uri) → decode_instance uri [] ≡ some uri
unfolding decode_instance
decode_instance-nil uri = refl

decode_instance-default :
    (uri : Uri) (segment : List ℕ)
    → decode_instance uri ([] ∷ segment ∷ []) ≡ decode_resource uri segment []
unfolding decode_instance
decode_instance-default uri segment = refl

decode_uri-object :
    (o : ℕ) (next : List (List ℕ))
    → o < 65536
    → decode_uri true (decimal o ∷ next)
      ≡ decode_instance (record zero_uri { object_id = o; flag = 0x04 }) next
unfolding decode_uri decode_object
decode_uri-object o next h =
    let digits = decimal-Digits o in
    let full = (length-decimal o).0 in
    ground (
      arith,
      not_a_word (decimal o) b'r' b'd' digits full (omega arith),
      not_a_word (decimal o) b'b' b's' digits full (omega arith),
      get_number-decimal o h,
    )

-- The four shapes of a path of decimal segments.
module _ (o i r : ℕ) (ho : o < 65536) (hi : i < 65535) (hr : r < 65536) where
  pub decode_uri_object :
      decode_uri true (decimal o ∷ [])
      ≡ some (record { flag = 4; object_id = o; instance_id = 0; resource_id = 0 })
  decode_uri_object = decode_uri-object o [] ho ∙ decode_instance-nil _

  pub decode_uri_resource :
      decode_uri true (decimal o ∷ [] ∷ decimal r ∷ [])
      ≡ some (record { flag = 5; object_id = o; instance_id = 0; resource_id = r })
  decode_uri_resource =
      decode_uri-object o _ ho
      ∙ decode_instance-default _ _
      ∙ decode_resource-text _ (decimal r) r (length-decimal r).0 (get_number-decimal r hr)
          (omega arith)

  pub decode_uri_instance :
      decode_uri true (decimal o ∷ decimal i ∷ [])
      ≡ some (record { flag = 6; object_id = o; instance_id = i; resource_id = 0 })
  decode_uri_instance =
      decode_uri-object o _ ho
      ∙ decode_instance-text _ (decimal i) [] i (length-decimal i).0
          (get_number-decimal i (omega arith)) hi

  pub decode_uri_full :
      decode_uri true (decimal o ∷ decimal i ∷ decimal r ∷ [])
      ≡ some (record { flag = 7; object_id = o; instance_id = i; resource_id = r })
  decode_uri_full =
      decode_uri-object o _ ho
      ∙ decode_instance-text _ (decimal i) (decimal r ∷ []) i (length-decimal i).0
          (get_number-decimal i (omega arith)) hi
      ∙ decode_resource-text _ (decimal r) r (length-decimal r).0 (get_number-decimal r hr)
          (omega arith)
