-- ===== src/Crypto.antt =====
-- src/vault/crypto.rs: its errors, keys and constants, and the crates that it calls.
pub mod Unpad
pub mod CipherString
pub mod Keys
mod Tests
use vaultwarden_operator.Prelude.{ℕ, ◌-◌, ◌≡◌, [], Result, ok, ◌>>=◌, Str, Bytes, Lacks}

abbrev pub enc_type_aes_cbc256_b64 : ℕ
enc_type_aes_cbc256_b64 = 0

abbrev pub enc_type_aes_cbc256_hmac_sha256_b64 : ℕ
enc_type_aes_cbc256_hmac_sha256_b64 = 2

abbrev pub enc_type_rsa2048_oaep_sha256_b64 : ℕ
enc_type_rsa2048_oaep_sha256_b64 = 3

abbrev pub enc_type_rsa2048_oaep_sha1_b64 : ℕ
enc_type_rsa2048_oaep_sha1_b64 = 4

abbrev pub kdf_pbkdf2 : ℕ
kdf_pbkdf2 = 0

abbrev pub kdf_argon2id : ℕ
kdf_argon2id = 1

-- The messages that the sources build by `format!`, each with what it shows.
pub data FormatError : Type 0 where
  missing_type_separator : FormatError
  invalid_type : Str → FormatError
  expects_parts : (enc_type got : ℕ) → FormatError
  enc_key_must_be_32_bytes : FormatError
  aes_cbc_decrypt : Str → FormatError
  utf8_decode : FormatError
  decrypt_symmetric_key_failed : FormatError

pub data Pkcs7Error : Type 0 where
  empty_data not_block_aligned invalid_padding_bytes : Pkcs7Error
  invalid_padding_length : ℕ → Pkcs7Error

pub data KdfError : Type 0 where
  pbkdf2_iterations : ℕ → KdfError
  argon2_params argon2_hash : Str → KdfError
  unsupported_kdf : ℕ → KdfError

-- An error value of another crate is the text that it displays.
pub data CryptoError : Type 0 where
  empty : CryptoError
  format : FormatError → CryptoError
  unsupported_type : ℕ → CryptoError
  base64 : Str → CryptoError
  invalid_iv invalid_ciphertext : ℕ → CryptoError
  mac_key_missing mac_mismatch : CryptoError
  pkcs7 : Pkcs7Error → CryptoError
  not_rsa : ℕ → CryptoError
  rsa pkcs8 : Str → CryptoError
  not_rsa_key : CryptoError
  org_key_length sym_key_length : ℕ → CryptoError
  kdf : KdfError → CryptoError
  hkdf empty_key : CryptoError

pub record SymmetricKey : Type 0 where
  pub enc_key : Bytes
  pub mac_key : Bytes

-- The crates that the code calls: `base64`, `hmac`, `aes` with `cbc`, `pbkdf2`, `argon2`, `hkdf`,
-- `rsa` and `pkcs8`, over the crate's type of private keys.
pub record Crates (RsaPrivateKey : Type 0) : Type 0 where
  pub base64_encode : Bytes → Str
  pub base64_decode : Str → Result Str Bytes
  -- key, message
  pub hmac_sha256 : Bytes → Bytes → Bytes
  -- key, initialisation vector, ciphertext; no padding is removed
  pub aes256_cbc_decrypt : Bytes → Bytes → Bytes → Result Str Bytes
  -- password, salt, rounds; 32 bytes come back
  pub pbkdf2_hmac_sha256 : Bytes → Bytes → ℕ → Bytes
  -- `Params::new`: KiB of memory, iterations, lanes
  pub argon2_params : ℕ → ℕ → ℕ → Result Str (Unit {0})
  -- the same, and the password and the salt
  pub argon2id : ℕ → ℕ → ℕ → Bytes → Bytes → Result Str Bytes
  -- pseudo-random key, info; 32 bytes come back
  pub hkdf_from_prk : Bytes → Result Str (Unit {0})
  pub hkdf_expand : Bytes → Bytes → Result Str Bytes
  pub rsa_oaep_sha256 : RsaPrivateKey → Bytes → Result Str Bytes
  pub rsa_oaep_sha1 : RsaPrivateKey → Bytes → Result Str Bytes
  pub from_pkcs8_der : Bytes → Result Str RsaPrivateKey
  -- `str::as_bytes`
  pub as_bytes : Str → Bytes

-- What the documentation of `base64` says of its standard alphabet: a decoder inverts the encoder,
-- and neither separator of a cipher string is in the alphabet.
pub record IsBase64 {K : Type 0} (c : Crates K) : Type 0 where
  pub decode-encode : (bs : Bytes) → c.base64_decode (c.base64_encode bs) ≡ ok bs
  pub no_pipe : (bs : Bytes) → Lacks b'|' (c.base64_encode bs)
