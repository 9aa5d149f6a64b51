-- ===== src/Crypto/Keys.antt =====
-- Key derivation and key decryption of src/vault/crypto.rs.
pub mod Laws
use vaultwarden_operator.Prelude.{
  ℕ, ◌*◌, ◌%◌, ◌^◌, not, Option, [], ltb, ◌==◌, if◌then◌else◌, unwrap_or, length, take, drop,
  is_empty, Result, ok, err, panic, ◌>>=◌, map_err, Str, Bytes, codes, trim, Unicode,
}
use vaultwarden_operator.Crypto.{
  kdf_pbkdf2, kdf_argon2id, decrypt_symmetric_key_failed, pbkdf2_iterations, argon2_params,
  argon2_hash, unsupported_kdf, CryptoError, format, pkcs8, org_key_length, sym_key_length, kdf,
  hkdf, empty_key, SymmetricKey, Crates,
}
use vaultwarden_operator.Crypto.CipherString.{CipherString, parse, decrypt, decrypt_rsa}

-- `memory_mib * 1024` is computed in `u32`: a release build wraps around.
abbrev pub mem_kib : Option ℕ → ℕ
mem_kib memory_mib = (unwrap_or 64 memory_mib * 1024) % 2 ^ 32

-- the master key itself, with no MAC key
abbrev pub legacy : Bytes → SymmetricKey
legacy master_key = record { enc_key = master_key; mac_key = [] }

-- 64 bytes, cut in the middle
abbrev pub split_key : (ℕ → CryptoError) → Bytes → Result CryptoError SymmetricKey
split_key wrong decrypted =
    if not (length decrypted == 64)
    then err (wrong (length decrypted))
    else ok (record { enc_key = take 32 decrypted; mac_key = drop 32 decrypted })

module _ {RsaPrivateKey : Type 0} (unicode : Unicode) (c : Crates RsaPrivateKey) where
  unfoldable pub make_master_key :
      (password email : Str) (kdf_type iterations : ℕ) (memory_mib parallelism : Option ℕ)
      → Result CryptoError Bytes
  make_master_key password email kdf_type iterations memory_mib parallelism =
      let salt = unicode.to_lowercase (trim email) in
      if kdf_type == kdf_pbkdf2
      then (if ltb iterations 1
          then err (kdf (pbkdf2_iterations iterations))
          else ok (c.pbkdf2_hmac_sha256 (c.as_bytes password) (c.as_bytes salt) iterations))
      else if kdf_type == kdf_argon2id
      then (do
        let par = unwrap_or 4 parallelism
        params ←
            map_err (λ e. kdf (argon2_params e))
              (c.argon2_params (mem_kib memory_mib) iterations par)
        map_err (λ e. kdf (argon2_hash e))
            (c.argon2id (mem_kib memory_mib) iterations par (c.as_bytes password)
              (c.as_bytes salt)))
      else err (kdf (unsupported_kdf kdf_type))

module _ {RsaPrivateKey : Type 0} (c : Crates RsaPrivateKey) where
  unfoldable pub hash_password : Str → Bytes → Str
  hash_password password master_key =
      c.base64_encode (c.pbkdf2_hmac_sha256 master_key (c.as_bytes password) 1)

  unfoldable pub stretch_key : Bytes → Result CryptoError SymmetricKey
  stretch_key master_key = do
    hk ← map_err (λ _. hkdf) (c.hkdf_from_prk master_key)
    enc ← map_err (λ _. hkdf) (c.hkdf_expand master_key (codes "enc"))
    mac ← map_err (λ _. hkdf) (c.hkdf_expand master_key (codes "mac"))
    ok (record { enc_key = enc; mac_key = mac })

  -- the stretched key first; after an error the master key itself
  unfoldable pub decrypt_with_fallback :
      CipherString → SymmetricKey → Bytes → Result CryptoError Bytes
  decrypt_with_fallback cs stretched master_key = elim (decrypt c cs stretched) [
    | ok d ↦ ok d
    | err e ↦ map_err (λ _. format decrypt_symmetric_key_failed) (decrypt c cs (legacy master_key))
    | panic ↦ panic
  ]

  unfoldable pub decrypt_symmetric_key : Str → Bytes → Result CryptoError SymmetricKey
  decrypt_symmetric_key encrypted_key master_key =
      if is_empty encrypted_key then err empty_key else do
        cs ← parse c encrypted_key
        stretched ← stretch_key master_key
        decrypted ← decrypt_with_fallback cs stretched master_key
        split_key sym_key_length decrypted

  unfoldable pub decrypt_private_key : Str → SymmetricKey → Result CryptoError RsaPrivateKey
  decrypt_private_key encrypted_private_key sym_key =
      if is_empty encrypted_private_key then err empty_key else do
        cs ← parse c encrypted_private_key
        der_bytes ← decrypt c cs sym_key
        map_err pkcs8 (c.from_pkcs8_der der_bytes)

  unfoldable pub decrypt_org_key : Str → RsaPrivateKey → Result CryptoError SymmetricKey
  decrypt_org_key encrypted_org_key private_key =
      if is_empty encrypted_org_key then err empty_key else do
        cs ← parse c encrypted_org_key
        decrypted ← decrypt_rsa c cs private_key
        split_key org_key_length decrypted
