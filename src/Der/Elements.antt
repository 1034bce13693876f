-- ===== src/Der/Elements.antt =====
-- The certificate and the private key of lib/base/p2p-glue.c as sequences of DER elements.
use frida_core.Base.{
  ℕ, suc, ◌+◌, ◌^◌, ◌≡◌, ◌<◌, refl, sym, ap, ◌∙◌, some, List, [], ◌∷◌, ◌++◌, length, arith,
  length-append, append_assoc, append-nil,
}
use frida_core.Der.{
  Bytes, append_length, appended, append_tlv, append_integer_uint, append_null, append_oid,
  append_bit_string, value_bytes, strip,
}
use frida_core.Der.Decode.{read_tlv}
use frida_core.Der.Length.{append_tlv-append, read_tlv-append_tlv, appended_lem, length-append_tlv}
use frida_core.Der.Certificate.{
  build_algorithm_identifier, build_signed_certificate, build_pkcs8_private_key_info,
  oid_rsa_encryption, oid_sha256_with_rsa,
}

-- The bytes are these elements, tag and value, and nothing more.
abbrev pub Elements : Bytes → List (ℕ × Bytes) → Type 0
Elements bs [] = bs ≡ []
Elements bs ((tag, value) ∷ es) =
    (rest : Bytes) × (read_tlv bs ≡ some (tag, value, rest)) × Elements rest es

Elements-tlv :
    (tag : ℕ) (value rest : Bytes) (es : List (ℕ × Bytes))
    → length value < 2 ^ 32
    → Elements rest es
    → Elements (append_tlv tag value [] ++ rest) ((tag, value) ∷ es)
Elements-tlv tag value rest es fits h = (rest, read_tlv-append_tlv tag value rest fits, h)

Elements-one :
    (tag : ℕ) (value : Bytes)
    → length value < 2 ^ 32
    → Elements (append_tlv tag value []) ((tag, value) ∷ [])
Elements-one tag value fits =
    ([], ap read_tlv (sym (append-nil _)) ∙ read_tlv-append_tlv tag value [] fits, refl)

-- A bit string is an element whose value begins with the count of unused bits.
append_bit_string-tlv :
    (bytes out : Bytes)
    → length bytes + 1 < 2 ^ 32
    → append_bit_string bytes out ≡ append_tlv 3 (0 ∷ bytes) out
unfolding append_bit_string append_tlv
append_bit_string-tlv bytes out fits =
    let e : length bytes + 1 ≡ suc (length bytes) = omega arith in
    rw (e, appended_lem bytes (omega arith), appended_lem (0 ∷ bytes) (omega arith))
      (append_assoc (append_length (suc (length bytes)) (out ++ 3 ∷ [])) (0 ∷ []) bytes)

-- The value of the algorithm's element: its identifier and a null.
abbrev pub algorithm_value : Bytes → Bytes
algorithm_value oid = append_null (append_oid oid [])

algorithm-append :
    (oid out : Bytes)
    → build_algorithm_identifier oid out ≡ out ++ append_tlv 0x30 (algorithm_value oid) []
unfolding build_algorithm_identifier
algorithm-append oid out = append_tlv-append 0x30 (algorithm_value oid) out

length-algorithm_rsa : length (algorithm_value oid_rsa_encryption) ≡ 13
unfolding append_null append_oid append_tlv appended append_length
length-algorithm_rsa = refl

length-algorithm_sha256 : length (algorithm_value oid_sha256_with_rsa) ≡ 13
unfolding append_null append_oid append_tlv appended append_length
length-algorithm_sha256 = refl

-- A sequence of three elements, as the builders below write it
three-Elements :
    (tag₁ tag₂ tag₃ : ℕ) (a b c : Bytes)
    → length a + length b + length c + 18 < 2 ^ 32
    → (content : Bytes) × (content
        ≡ append_tlv tag₁ a [] ++ (append_tlv tag₂ b [] ++ append_tlv tag₃ c []))
      × Elements (append_tlv 0x30 content []) ((0x30, content) ∷ [])
      × Elements content ((tag₁, a) ∷ (tag₂, b) ∷ (tag₃, c) ∷ [])
three-Elements tag₁ tag₂ tag₃ a b c h = (
  append_tlv tag₁ a [] ++ (append_tlv tag₂ b [] ++ append_tlv tag₃ c []),
  refl,
  Elements-one 0x30 _ size,
  Elements-tlv tag₁ a (append_tlv tag₂ b [] ++ append_tlv tag₃ c []) ((tag₂, b) ∷ (tag₃, c) ∷ [])
      (omega arith)
      (Elements-tlv tag₂ b (append_tlv tag₃ c []) ((tag₃, c) ∷ []) (omega arith)
        (Elements-one tag₃ c (omega arith))),
)
  where
    size : length (append_tlv tag₁ a [] ++ (append_tlv tag₂ b [] ++ append_tlv tag₃ c [])) < 2 ^ 32
    size = omega (
      arith,
      length-append (append_tlv tag₁ a []) (append_tlv tag₂ b [] ++ append_tlv tag₃ c []),
      length-append (append_tlv tag₂ b []) (append_tlv tag₃ c []),
      length-append_tlv tag₁ a (omega arith),
      length-append_tlv tag₂ b (omega arith),
      length-append_tlv tag₃ c (omega arith),
    )

-- If the lengths of the body and the signature leave 32 bytes below 2 ^ 32, the certificate is one
-- sequence of three elements: what was signed, the algorithm, the signature.
pub build_signed_certificate_lem :
    (body signature : Bytes)
    → length body + length signature + 32 < 2 ^ 32
    → (content : Bytes) × Elements
        (build_signed_certificate (append_tlv 0x30 body []) signature [])
        ((0x30, content) ∷ [])
      × Elements content
          ((0x30, body) ∷ (0x30, algorithm_value oid_sha256_with_rsa) ∷ (3, 0 ∷ signature) ∷ [])
unfolding build_signed_certificate
build_signed_certificate_lem body signature h =
    let (content, e, whole, parts) =
      three-Elements 0x30 0x30 3 body (algorithm_value oid_sha256_with_rsa) (0 ∷ signature)
        (omega (arith, length-algorithm_sha256)) in
    (content, rw (inner ∙ sym e) whole, parts)
  where
    inner :
        append_bit_string signature
          (build_algorithm_identifier oid_sha256_with_rsa (append_tlv 0x30 body []))
        ≡ append_tlv 0x30 body []
          ++ (append_tlv 0x30 (algorithm_value oid_sha256_with_rsa) []
              ++ append_tlv 3 (0 ∷ signature) [])
    inner =
        append_bit_string-tlv signature _ (omega arith)
        ∙ append_tlv-append 3 (0 ∷ signature) _
        ∙ rw (algorithm-append oid_sha256_with_rsa (append_tlv 0x30 body []))
            (append_assoc (append_tlv 0x30 body []) _ _)

-- If the length of the RSA key leaves 32 bytes below 2 ^ 32, the private key is one sequence of three
-- elements: the version 0, the algorithm, the RSA key.
pub build_pkcs8_private_key_info_lem :
    (rsa_private_key : Bytes)
    → length rsa_private_key + 32 < 2 ^ 32
    → (content : Bytes) × Elements
        (build_pkcs8_private_key_info rsa_private_key [])
        ((0x30, content) ∷ [])
      × Elements content
          ((2, 0 ∷ []) ∷ (0x30, algorithm_value oid_rsa_encryption) ∷ (4, rsa_private_key) ∷ [])
unfolding build_pkcs8_private_key_info
build_pkcs8_private_key_info_lem rsa_private_key h =
    let (content, e, whole, parts) =
      three-Elements 2 0x30 4 (0 ∷ []) (algorithm_value oid_rsa_encryption) rsa_private_key
        (omega (arith, length-algorithm_rsa)) in
    (content, rw (inner ∙ sym e) whole, parts)
  where
    version : append_integer_uint 0 [] ≡ append_tlv 2 (0 ∷ []) []
    version = unfold append_integer_uint value_bytes strip in refl

    inner :
        append_tlv 4 rsa_private_key
          (build_algorithm_identifier oid_rsa_encryption (append_integer_uint 0 []))
        ≡ append_tlv 2 (0 ∷ []) []
          ++ (append_tlv 0x30 (algorithm_value oid_rsa_encryption) []
              ++ append_tlv 4 rsa_private_key [])
    inner =
        append_tlv-append 4 rsa_private_key _
        ∙ rw (algorithm-append oid_rsa_encryption (append_integer_uint 0 []), version)
            (append_assoc (append_tlv 2 (0 ∷ []) []) _ _)
