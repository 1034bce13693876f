-- ===== src/Der/Tests.antt =====
-- Encodings that can be followed in the source, and the theorems at concrete inputs.
use frida_core.Base.{ℕ, ◌≡◌, ◌≤◌, refl, some, [], ◌∷◌, ◌++◌, length, arith}
use frida_core.Der.{
  Bytes, length_bytes, append_reversed, append_length, appended, append_tlv, value_bytes, strip,
  append_integer_uint,
}
use frida_core.Der.Decode.{read_length, read_number, read_tlv, big_endian}
use frida_core.Der.Length.{read_length-append_length, append_length-IsShortest, read_tlv-append_tlv}
use frida_core.Der.Integer.{IsMinimal, append_integer_uint_lem}
use frida_core.Der.Certificate.{
  build_signed_certificate, build_pkcs8_private_key_info, oid_sha256_with_rsa, oid_rsa_encryption,
}
use frida_core.Der.Elements.{
  Elements, algorithm_value, build_signed_certificate_lem, build_pkcs8_private_key_info_lem,
}

lengths :
    (append_length 127 (9 ∷ []) ≡ 9 ∷ 127 ∷ [])
    × (append_length 128 [] ≡ 0x81 ∷ 128 ∷ [])
    × (append_length 0x1234 [] ≡ 0x82 ∷ 0x12 ∷ 0x34 ∷ [])
unfolding append_length length_bytes append_reversed
lengths = (refl, refl, refl)

integers :
    (append_integer_uint 0 [] ≡ 2 ∷ 1 ∷ 0 ∷ [])
    × (append_integer_uint 127 [] ≡ 2 ∷ 1 ∷ 127 ∷ [])
    × (append_integer_uint 128 [] ≡ 2 ∷ 2 ∷ 0 ∷ 128 ∷ [])
unfolding append_integer_uint append_tlv appended append_length value_bytes strip
integers = (refl, refl, refl)

read_length-append_length_example :
    read_length (append_length 0x1234 [] ++ 7 ∷ []) ≡ some (0x1234, 7 ∷ [])
read_length-append_length_example = read_length-append_length 0x1234 (7 ∷ []) (omega arith)

append_length-IsShortest_example :
    length (append_length 0x1234 []) ≤ length {A = ℕ} (0x83 ∷ 0 ∷ 0x12 ∷ 0x34 ∷ [])
unfolding read_length read_number
append_length-IsShortest_example =
    append_length-IsShortest 0x1234 (0x83 ∷ 0 ∷ 0x12 ∷ 0x34 ∷ []) (omega arith)
      (omega arith, (omega arith, (omega arith, (omega arith, tt)))) refl

read_tlv-append_tlv_example :
    read_tlv (append_tlv 4 (1 ∷ 2 ∷ []) [] ++ 7 ∷ []) ≡ some (4, 1 ∷ 2 ∷ [], 7 ∷ [])
read_tlv-append_tlv_example = read_tlv-append_tlv 4 (1 ∷ 2 ∷ []) (7 ∷ []) (omega arith)

append_integer_uint_lem_example :
    (content : Bytes) × (read_tlv (append_integer_uint 200 [] ++ 7 ∷ [])
      ≡ some (2, content, 7 ∷ []))
    × (big_endian 0 content ≡ 200)
    × IsMinimal content
append_integer_uint_lem_example = append_integer_uint_lem 200 (7 ∷ []) (omega arith)

build_signed_certificate_lem_example :
    (content : Bytes) × Elements
      (build_signed_certificate (append_tlv 0x30 (1 ∷ []) []) (5 ∷ 6 ∷ []) [])
      ((0x30, content) ∷ [])
    × Elements content
        ((0x30, 1 ∷ []) ∷ (0x30, algorithm_value oid_sha256_with_rsa) ∷ (3, 0 ∷ 5 ∷ 6 ∷ []) ∷ [])
build_signed_certificate_lem_example =
    build_signed_certificate_lem (1 ∷ []) (5 ∷ 6 ∷ []) (omega arith)

build_pkcs8_private_key_info_lem_example :
    (content : Bytes) × Elements
      (build_pkcs8_private_key_info (5 ∷ 6 ∷ []) [])
      ((0x30, content) ∷ [])
    × Elements content
        ((2, 0 ∷ []) ∷ (0x30, algorithm_value oid_rsa_encryption) ∷ (4, 5 ∷ 6 ∷ []) ∷ [])
build_pkcs8_private_key_info_lem_example =
    build_pkcs8_private_key_info_lem (5 ∷ 6 ∷ []) (omega arith)
