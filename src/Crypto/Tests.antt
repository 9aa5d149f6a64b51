-- ===== src/Crypto/Tests.antt =====
-- The theorems on src/vault/crypto.rs at concrete inputs.
use vaultwarden_operator.Prelude.{
  ◌≡◌, refl, ◌↔◌, inr, [], ◌∷◌, replicate, ok, codes, str_eq, split_once, splitn, parse_u8,
  from_utf8,
}
use vaultwarden_operator.Crypto.Unpad.{pkcs7_unpad, IsPadded, pkcs7_unpad_iff}
use vaultwarden_operator.Crypto.CipherString.{
  CipherString, parse, parse_typed, verify_mac, decrypt_blocks, decrypt, decrypt_rsa, decrypt_str,
}
use vaultwarden_operator.Crypto.CipherString.Print.{print, parse-print}
use vaultwarden_operator.Crypto.CipherString.Decrypt.{
  IsDecryption, pad, encrypt, decrypt_iff, decrypt_str-print-encrypt,
}
use vaultwarden_operator.Crypto.Keys.{
  decrypt_symmetric_key, decrypt_org_key, stretch_key, decrypt_with_fallback,
}
use vaultwarden_operator.Crypto.Keys.Laws.{
  IsUnlocked, IsOrgKey, decrypt_symmetric_key_sound, decrypt_org_key_sound,
}
use vaultwarden_operator.Fixtures.{
  shift, unshift, crates, crates-IsBase64, no_cipher, crates-IsCipher, zeros, user_key, team_key,
  sealed, sealed_user_key, sealed_team_key,
}

pkcs7_unpad_tests :
    (pkcs7_unpad (1 ∷ 2 ∷ 2 ∷ 2 ∷ []) 4 ≡ ok (1 ∷ 2 ∷ [])) × (pkcs7_unpad (2 ∷ 2 ∷ []) 2 ≡ ok [])
unfolding pkcs7_unpad
pkcs7_unpad_tests = (refl, refl)

pkcs7_unpad_iff_example :
    (pkcs7_unpad (1 ∷ 2 ∷ 2 ∷ 2 ∷ []) 4 ≡ ok (1 ∷ 2 ∷ []))
    ↔ IsPadded (1 ∷ 2 ∷ 2 ∷ 2 ∷ []) (1 ∷ 2 ∷ []) 4
pkcs7_unpad_iff_example = pkcs7_unpad_iff (1 ∷ 2 ∷ 2 ∷ 2 ∷ []) (1 ∷ 2 ∷ []) 4

abbrev rsa_text : CipherString
rsa_text = record { enc_type = 4; iv = []; ct = 9 ∷ 8 ∷ []; mac = [] }

parse-print_example : parse crates (print crates rsa_text) ≡ ok rsa_text
parse-print_example = parse-print crates crates-IsBase64 rsa_text (inr (inr (inr refl, refl, refl)))

abbrev sealed_text : CipherString
sealed_text = encrypt crates no_cipher zeros user_key (codes "secret")

decrypt_iff_example :
    (decrypt crates sealed_text user_key ≡ ok (codes "secret"))
    ↔ IsDecryption crates sealed_text user_key (codes "secret")
decrypt_iff_example = decrypt_iff crates sealed_text user_key (codes "secret")

decrypt_str-print-encrypt_example :
    decrypt_str crates (sealed user_key (codes "secret")) user_key ≡ ok (codes "secret")
unfolding from_utf8
decrypt_str-print-encrypt_example =
    decrypt_str-print-encrypt crates no_cipher crates-IsCipher crates-IsBase64 zeros user_key
      (codes "secret") (codes "secret") refl refl (λ e. cc) refl

decrypt_symmetric_key_test :
    decrypt_symmetric_key crates sealed_user_key (replicate 32 7) ≡ ok user_key
unfolding decrypt_symmetric_key stretch_key decrypt_with_fallback parse parse_typed decrypt
    decrypt_blocks verify_mac pkcs7_unpad print encrypt pad shift unshift split_once parse_u8 splitn
    str_eq
decrypt_symmetric_key_test = refl

decrypt_symmetric_key_sound_example : IsUnlocked crates sealed_user_key (replicate 32 7) user_key
decrypt_symmetric_key_sound_example =
    decrypt_symmetric_key_sound crates sealed_user_key (replicate 32 7) user_key
      decrypt_symmetric_key_test

decrypt_org_key_test : decrypt_org_key crates sealed_team_key tt ≡ ok team_key
unfolding decrypt_org_key parse parse_typed decrypt_rsa print shift unshift split_once parse_u8
decrypt_org_key_test = refl

decrypt_org_key_sound_example : IsOrgKey crates sealed_team_key tt team_key
decrypt_org_key_sound_example =
    decrypt_org_key_sound crates sealed_team_key tt team_key decrypt_org_key_test
