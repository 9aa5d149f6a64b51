-- ===== src/Crypto/CipherString.antt =====
-- `CipherString` of src/vault/crypto.rs: parsing and decryption.
pub mod Print
pub mod Decrypt
use vaultwarden_operator.Prelude.{
  ℕ, ◌+◌, ◌%◌, not, ◌||◌, List, [], ◌∷◌, ◌++◌, ◌==◌, if◌then◌else◌, length, is_empty, keep, Result,
  ok, err, ◌>>=◌, map_err, ok_or, Str, Bytes, str_eq, split_once, splitn, parse_u8, from_utf8,
}
use vaultwarden_operator.Crypto.{
  enc_type_aes_cbc256_b64, enc_type_aes_cbc256_hmac_sha256_b64, enc_type_rsa2048_oaep_sha256_b64,
  enc_type_rsa2048_oaep_sha1_b64, missing_type_separator, invalid_type, expects_parts,
  enc_key_must_be_32_bytes, aes_cbc_decrypt, utf8_decode, CryptoError, empty, format,
  unsupported_type, base64, invalid_iv, invalid_ciphertext, mac_key_missing, mac_mismatch, not_rsa,
  rsa, SymmetricKey, Crates,
}
use vaultwarden_operator.Crypto.Unpad.{pkcs7_unpad}

pub record CipherString : Type 0 where
  pub enc_type : ℕ
  pub iv : Bytes
  pub ct : Bytes
  pub mac : Bytes

-- `str::replace('|', "")`
abbrev pub without_pipes : Str → Str
without_pipes = keep (λ c. not (c == b'|'))

module _ {RsaPrivateKey : Type 0} (c : Crates RsaPrivateKey) where
  -- `BASE64.decode(..)?`
  abbrev pub decode : Str → Result CryptoError Bytes
  decode s = map_err base64 (c.base64_decode s)

  -- the two parts of type 0
  parse_aes : List Str → Result CryptoError CipherString
  parse_aes (iv_b64 ∷ ct_b64 ∷ []) = do
    iv ← decode iv_b64
    ct ← decode ct_b64
    ok (record { enc_type = enc_type_aes_cbc256_b64; iv = iv; ct = ct; mac = [] })
  parse_aes parts = err (format (expects_parts enc_type_aes_cbc256_b64 (length parts)))

  -- the three parts of type 2
  parse_aes_hmac : List Str → Result CryptoError CipherString
  parse_aes_hmac (iv_b64 ∷ ct_b64 ∷ mac_b64 ∷ []) = do
    iv ← decode iv_b64
    ct ← decode ct_b64
    mac ← decode mac_b64
    ok (record { enc_type = enc_type_aes_cbc256_hmac_sha256_b64; iv = iv; ct = ct; mac = mac })
  parse_aes_hmac parts =
      err (format (expects_parts enc_type_aes_cbc256_hmac_sha256_b64 (length parts)))

  parse_rsa : ℕ → Str → Result CryptoError CipherString
  parse_rsa enc_type rest = do
    ct ← decode (without_pipes rest)
    ok (record { enc_type = enc_type; iv = []; ct = ct; mac = [] })

  -- the match on `enc_type`
  unfoldable pub parse_typed : ℕ → Str → Result CryptoError CipherString
  unfolding parse_aes parse_aes_hmac parse_rsa
  parse_typed enc_type rest =
      if enc_type == enc_type_aes_cbc256_b64
      then parse_aes (splitn 3 b'|' rest)
      else if enc_type == enc_type_aes_cbc256_hmac_sha256_b64
      then parse_aes_hmac (splitn 4 b'|' rest)
      else if enc_type == enc_type_rsa2048_oaep_sha256_b64
      then parse_rsa enc_type rest
      else if enc_type == enc_type_rsa2048_oaep_sha1_b64
      then parse_rsa enc_type rest
      else err (unsupported_type enc_type)

  unfoldable pub parse : Str → Result CryptoError CipherString
  unfolding parse_typed
  parse s = if is_empty s then err empty else do
    (type_str, rest) ← ok_or (format missing_type_separator) (split_once b'.' s)
    enc_type ← ok_or (format (invalid_type type_str)) (parse_u8 type_str)
    parse_typed enc_type rest

  -- the HMAC check of `decrypt`, for type 2
  unfoldable pub verify_mac : CipherString → SymmetricKey → Result CryptoError (Unit {0})
  verify_mac self key =
      if self.enc_type == enc_type_aes_cbc256_hmac_sha256_b64
      then (if is_empty key.mac_key
          then err mac_key_missing
          else if str_eq (c.hmac_sha256 key.mac_key (self.iv ++ self.ct)) self.mac
          then ok tt
          else err mac_mismatch)
      else ok tt

  -- AES-256-CBC, and the padding
  unfoldable pub decrypt_blocks : CipherString → SymmetricKey → Result CryptoError Bytes
  decrypt_blocks self key =
      if not (length key.enc_key == 32)
      then err (format enc_key_must_be_32_bytes)
      else if not (length self.iv == 16)
      then err (invalid_iv (length self.iv))
      else do
        buf ←
            map_err (λ e. format (aes_cbc_decrypt e))
              (c.aes256_cbc_decrypt key.enc_key self.iv self.ct)
        pkcs7_unpad buf 16

  unfoldable pub decrypt : CipherString → SymmetricKey → Result CryptoError Bytes
  decrypt self key =
      if not (length self.iv == 16)
      then err (invalid_iv (length self.iv))
      else if is_empty self.ct || not (length self.ct % 16 == 0)
      then err (invalid_ciphertext (length self.ct))
      else do verified ← verify_mac self key; decrypt_blocks self key

  unfoldable pub decrypt_to_string : CipherString → SymmetricKey → Result CryptoError Str
  decrypt_to_string self key = do
    bytes ← decrypt self key
    ok_or (format utf8_decode) (from_utf8 bytes)

  unfoldable pub decrypt_rsa : CipherString → RsaPrivateKey → Result CryptoError Bytes
  decrypt_rsa self private_key =
      if self.enc_type == enc_type_rsa2048_oaep_sha256_b64
      then map_err rsa (c.rsa_oaep_sha256 private_key self.ct)
      else if self.enc_type == enc_type_rsa2048_oaep_sha1_b64
      then map_err rsa (c.rsa_oaep_sha1 private_key self.ct)
      else err (not_rsa self.enc_type)

  unfoldable pub decrypt_str : Str → SymmetricKey → Result CryptoError Str
  decrypt_str s key = if is_empty s then ok [] else do cs ← parse s; decrypt_to_string cs key
