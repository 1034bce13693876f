-- ===== src/Der/Certificate.antt =====
-- The certificate that lib/base/p2p-glue.c puts together on Apple systems. The key, the signature,
-- the clock and its calendar are the platform's: parameters.
use frida_core.Base.{ℕ, ◌+◌, ◌/◌, ◌%◌, [], ◌∷◌, ◌++◌}
use Prim.Native.Char.{code}
use Prim.Native.String.{String}
use frida_core.Der.{
  Bytes, append_tlv, append_integer_uint, append_null, append_oid, append_bit_string,
}

-- The bytes of an ASCII text
abbrev pub codes : String → Bytes
codes String.[] = []
codes (String.◌∷◌ c s) = code c ∷ codes s

abbrev pub oid_country : Bytes
oid_country = 0x55 ∷ 0x04 ∷ 0x06 ∷ []

abbrev pub oid_organization : Bytes
oid_organization = 0x55 ∷ 0x04 ∷ 0x0a ∷ []

abbrev pub oid_common_name : Bytes
oid_common_name = 0x55 ∷ 0x04 ∷ 0x03 ∷ []

abbrev pub oid_rsa_encryption : Bytes
oid_rsa_encryption = 0x2a ∷ 0x86 ∷ 0x48 ∷ 0x86 ∷ 0xf7 ∷ 0x0d ∷ 0x01 ∷ 0x01 ∷ 0x01 ∷ []

abbrev pub oid_sha256_with_rsa : Bytes
oid_sha256_with_rsa = 0x2a ∷ 0x86 ∷ 0x48 ∷ 0x86 ∷ 0xf7 ∷ 0x0d ∷ 0x01 ∷ 0x01 ∷ 0x0b ∷ []

-- frida_build_rdn
unfoldable pub build_rdn : Bytes → ℕ → Bytes → Bytes → Bytes
build_rdn oid value_tag value out =
    let atv = append_tlv value_tag value (append_oid oid []) in
    let rdn = append_tlv 0x30 atv [] in append_tlv 0x31 rdn out

-- frida_build_name
unfoldable pub build_name : Bytes → Bytes
build_name out =
    let country = build_rdn oid_country 0x13 (codes "CA") [] in
    let organization = build_rdn oid_organization 0x0c (codes "Frida") country in
    let inner = build_rdn oid_common_name 0x0c (codes "lolcathost") organization in
    append_tlv 0x30 inner out

-- frida_build_algorithm_identifier
unfoldable pub build_algorithm_identifier : Bytes → Bytes → Bytes
build_algorithm_identifier oid out = append_tlv 0x30 (append_null (append_oid oid [])) out

-- frida_build_subject_public_key_info
unfoldable pub build_subject_public_key_info : Bytes → Bytes → Bytes
build_subject_public_key_info rsa_public_key out =
    let inner = build_algorithm_identifier oid_rsa_encryption [] in
    append_tlv 0x30 (append_bit_string rsa_public_key inner) out

-- frida_build_signed_certificate
unfoldable pub build_signed_certificate : Bytes → Bytes → Bytes → Bytes
build_signed_certificate tbs signature out =
    let inner = build_algorithm_identifier oid_sha256_with_rsa ([] ++ tbs) in
    append_tlv 0x30 (append_bit_string signature inner) out

-- frida_build_pkcs8_private_key_info
unfoldable pub build_pkcs8_private_key_info : Bytes → Bytes → Bytes
build_pkcs8_private_key_info rsa_private_key out =
    let inner = build_algorithm_identifier oid_rsa_encryption (append_integer_uint 0 []) in
    append_tlv 0x30 (append_tlv 0x04 rsa_private_key inner) out

-- The fields of `struct tm` that are printed
pub record Tm : Type 0 where
  pub tm_year : ℕ
  pub tm_mon : ℕ
  pub tm_mday : ℕ
  pub tm_hour : ℕ
  pub tm_min : ℕ
  pub tm_sec : ℕ

-- "%02d" of a number below 100
unfoldable pub two_digits : ℕ → Bytes
two_digits n = (48 + n / 10 % 10) ∷ (48 + n % 10) ∷ []

module _ (gmtime : ℕ → Tm) where
  -- frida_der_append_utctime
  unfoldable pub append_utctime : ℕ → Bytes → Bytes
  append_utctime t out =
      let tm = gmtime t in
      let buf =
        two_digits (tm.tm_year % 100)
        ++ (two_digits (tm.tm_mon + 1)
            ++ (two_digits tm.tm_mday
                ++ (two_digits tm.tm_hour
                    ++ (two_digits tm.tm_min ++ (two_digits tm.tm_sec ++ codes "Z"))))) in
      append_tlv 0x17 buf out

  -- frida_build_validity, at the time `now`
  unfoldable pub build_validity : ℕ → Bytes → Bytes
  build_validity now out =
      let lifetime_seconds : ℕ = 15780000 in
      append_tlv 0x30 (append_utctime (now + lifetime_seconds) (append_utctime now [])) out

  -- frida_build_tbs_certificate
  unfoldable pub build_tbs_certificate : ℕ → Bytes → Bytes → Bytes
  build_tbs_certificate now subject_public_key out =
      let serial = append_integer_uint 1 [] in
      let algorithm = build_algorithm_identifier oid_sha256_with_rsa serial in
      let issuer = build_name algorithm in
      let validity = build_validity now issuer in
      let subject = build_name validity in append_tlv 0x30 (subject ++ subject_public_key) out

  -- The certificate of _frida_generate_certificate, over the key's export and the signer.
  unfoldable pub certificate : ℕ → Bytes → (Bytes → Bytes) → Bytes
  certificate now rsa_public_key rsa_sign_sha256 =
      let subject_public_key = build_subject_public_key_info rsa_public_key [] in
      let tbs = build_tbs_certificate now subject_public_key [] in
      build_signed_certificate tbs (rsa_sign_sha256 tbs) []
