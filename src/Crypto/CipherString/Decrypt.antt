-- ===== src/Crypto/CipherString/Decrypt.antt =====
-- When `CipherString::decrypt` of src/vault/crypto.rs succeeds, and how it stands to encryption.
use vaultwarden_operator.Prelude.{
  ◌-◌, ◌%◌, ◌<◌, ◌≡◌, refl, ap, ◌≢◌, ◌↔◌, ◌⊎◌, inl, inr, some, [], ◌++◌, arith, length, replicate,
  length-append, length-replicate, Result, ok, err, panic, ◌>>=◌, >>=-eq-ok, Str, Bytes, str_eq_iff,
  from_utf8,
}
use vaultwarden_operator.Crypto.{SymmetricKey, Crates, IsBase64}
use vaultwarden_operator.Crypto.CipherString.{
  CipherString, verify_mac, decrypt_blocks, decrypt, decrypt_to_string, decrypt_str,
}
use vaultwarden_operator.Crypto.Unpad.{
  pkcs7_unpad, IsPadded, pkcs7_unpad_sound, pkcs7_unpad_complete,
}
use vaultwarden_operator.Crypto.CipherString.Print.{print, parse-print}

module _ {K : Type 0} (c : Crates K) where
  -- For type 2, the MAC that was sent is that of the vector and the ciphertext.
  abbrev pub IsAuthentic : CipherString → SymmetricKey → Type 0
  IsAuthentic cs key =
      (cs.enc_type ≢ 2)
      ⊎ ((key.mac_key ≢ []) × (c.hmac_sha256 key.mac_key (cs.iv ++ cs.ct) ≡ cs.mac))

  -- what it takes for `out` to be the plaintext
  pub record IsDecryption (cs : CipherString) (key : SymmetricKey) (out : Bytes) : Type 0 where
    pub iv_length : length cs.iv ≡ 16
    pub ct_nonempty : cs.ct ≢ []
    pub ct_aligned : length cs.ct % 16 ≡ 0
    pub authentic : IsAuthentic cs key
    pub key_length : length key.enc_key ≡ 32
    pub blocks : Bytes
    pub decrypted : c.aes256_cbc_decrypt key.enc_key cs.iv cs.ct ≡ ok blocks
    pub padded : IsPadded blocks out 16

  pub verify_mac_sound :
      (cs : CipherString) (key : SymmetricKey) {u : Unit {0}}
      → verify_mac c cs key ≡ ok u
      → IsAuthentic cs key
  unfolding verify_mac
  verify_mac_sound cs key e =
      ground (arith, str_eq_iff (c.hmac_sha256 key.mac_key (cs.iv ++ cs.ct)) cs.mac)

  verify_mac_complete :
      (cs : CipherString) (key : SymmetricKey) → IsAuthentic cs key → verify_mac c cs key ≡ ok tt
  unfolding verify_mac
  verify_mac_complete cs key h =
      ground (arith, str_eq_iff (c.hmac_sha256 key.mac_key (cs.iv ++ cs.ct)) cs.mac)

  decrypt_blocks_sound :
      (cs : CipherString) (key : SymmetricKey) (out : Bytes)
      → decrypt_blocks c cs key ≡ ok out
      → (length key.enc_key ≡ 32)
        × ((blocks : Bytes) × (c.aes256_cbc_decrypt key.enc_key cs.iv cs.ct ≡ ok blocks)
            × (pkcs7_unpad blocks 16 ≡ ok out))
  unfolding decrypt_blocks
  decrypt_blocks_sound cs key out e =
      (ground arith, go (c.aes256_cbc_decrypt key.enc_key cs.iv cs.ct) refl)
    where
      go :
          (r : Result Str Bytes)
          → c.aes256_cbc_decrypt key.enc_key cs.iv cs.ct ≡ r
          → (blocks : Bytes) × (c.aes256_cbc_decrypt key.enc_key cs.iv cs.ct ≡ ok blocks)
            × (pkcs7_unpad blocks 16 ≡ ok out)
      go (ok blocks) found = (blocks, found, ground arith)
      go (err why) found = absurd (ground arith)
      go panic found = absurd (ground arith)

  decrypt_sound :
      (cs : CipherString) (key : SymmetricKey) (out : Bytes)
      → decrypt c cs key ≡ ok out
      → IsDecryption cs key out
  unfolding decrypt
  decrypt_sound cs key out e =
      let iv_ok : length cs.iv ≡ 16 = ground arith in
      let ct_some : cs.ct ≢ [] = ground arith in
      let ct_ok : length cs.ct % 16 ≡ 0 = ground arith in
      let rest : (verify_mac c cs key >>= λ _. decrypt_blocks c cs key) ≡ ok out = ground arith in
      let (u, verified, blocks_eq) = >>=-eq-ok (verify_mac c cs key) _ rest in
      let (key_ok, (blocks, decrypted, unpadded)) = decrypt_blocks_sound cs key out blocks_eq in
      record {
        iv_length = iv_ok;
        ct_nonempty = ct_some;
        ct_aligned = ct_ok;
        authentic = verify_mac_sound cs key verified;
        key_length = key_ok;
        blocks = blocks;
        decrypted = decrypted;
        padded = pkcs7_unpad_sound blocks out 16 unpadded;
      }

  decrypt_complete :
      (cs : CipherString) (key : SymmetricKey) (out : Bytes)
      → IsDecryption cs key out
      → decrypt c cs key ≡ ok out
  unfolding decrypt decrypt_blocks
  decrypt_complete cs key out d = ground (
    arith,
    d.iv_length,
    d.ct_nonempty,
    d.ct_aligned,
    d.key_length,
    d.decrypted,
    verify_mac_complete cs key d.authentic,
    pkcs7_unpad_complete d.blocks out 16 d.padded,
  )

  -- Decryption succeeds with `out` exactly if the vector has 16 bytes, the ciphertext is whole
  -- blocks, a type 2 string carries the MAC of its vector and ciphertext, the key has 32 bytes, and
  -- AES-CBC gives `out` with PKCS#7 padding.
  pub decrypt_iff :
      (cs : CipherString) (key : SymmetricKey) (out : Bytes)
      → (decrypt c cs key ≡ ok out) ↔ IsDecryption cs key out
  decrypt_iff cs key out = (decrypt_sound cs key out, decrypt_complete cs key out)

  -- PKCS#7 padding to blocks of 16, as the encrypting side writes it
  unfoldable pub pad : Bytes → Bytes
  pad text = let p = 16 - length text % 16 in text ++ replicate p p

  length-pad : (text : Bytes) → 0 < length (pad text)
  unfolding pad
  length-pad text = omega (
    arith,
    length-append text (replicate (16 - length text % 16) (16 - length text % 16)),
    length-replicate (16 - length text % 16) (16 - length text % 16),
  )

  pub pad-IsPadded : (text : Bytes) → IsPadded (pad text) text 16
  unfolding pad
  pad-IsPadded text = record {
    pad = 16 - length text % 16;
    at_least = omega arith;
    at_most = omega arith;
    aligned = omega (
      arith,
      length-append text (replicate (16 - length text % 16) (16 - length text % 16)),
      length-replicate (16 - length text % 16) (16 - length text % 16),
    );
    spelled = refl;
  }

  -- What AES-256-CBC promises, for the encryption that belongs to the decryption.
  pub record IsCipher (aes256_cbc_encrypt : Bytes → Bytes → Bytes → Bytes) : Type 0 where
    pub decrypt-encrypt :
        (key iv text : Bytes)
        → length text % 16 ≡ 0
        → c.aes256_cbc_decrypt key iv (aes256_cbc_encrypt key iv text) ≡ ok text
    pub length-encrypt :
        (key iv text : Bytes) → length (aes256_cbc_encrypt key iv text) ≡ length text

  module _ (aes256_cbc_encrypt : Bytes → Bytes → Bytes → Bytes) where
    -- pad, encrypt, then authenticate: a type 2 cipher string
    unfoldable pub encrypt : Bytes → SymmetricKey → Bytes → CipherString
    encrypt iv key text =
        let ct = aes256_cbc_encrypt key.enc_key iv (pad text) in
        record { enc_type = 2; iv = iv; ct = ct; mac = c.hmac_sha256 key.mac_key (iv ++ ct) }

    module _ (aes : IsCipher aes256_cbc_encrypt) where
      -- With a 16-byte vector, a 32-byte key and a MAC key, what was encrypted is decrypted.
      pub decrypt-encrypt :
          (iv : Bytes) (key : SymmetricKey) (text : Bytes)
          → length iv ≡ 16
          → length key.enc_key ≡ 32
          → key.mac_key ≢ []
          → decrypt c (encrypt iv key text) key ≡ ok text
      unfolding encrypt
      decrypt-encrypt iv key text iv_ok key_ok mac_ok =
          let padded = pad-IsPadded text in
          let size = aes.length-encrypt key.enc_key iv (pad text) in
          decrypt_complete (encrypt iv key text) key text (record {
            iv_length = iv_ok;
            ct_nonempty = λ e. omega (arith, ap length e, size, length-pad text);
            ct_aligned = omega (arith, size, padded.aligned);
            authentic = inr (mac_ok, refl);
            key_length = key_ok;
            blocks = pad text;
            decrypted = aes.decrypt-encrypt key.enc_key iv (pad text) padded.aligned;
            padded = padded;
          })

      -- The written form of an encrypted text is parsed and decrypted to that text.
      pub decrypt_str-print-encrypt :
          (base64_laws : IsBase64 c) (iv : Bytes) (key : SymmetricKey) (text : Bytes) (s : Str)
          → length iv ≡ 16
          → length key.enc_key ≡ 32
          → key.mac_key ≢ []
          → from_utf8 text ≡ some s
          → decrypt_str c (print c (encrypt iv key text)) key ≡ ok s
      unfolding decrypt_str decrypt_to_string encrypt print
      decrypt_str-print-encrypt base64_laws iv key text s iv_ok key_ok mac_ok utf8 = rw (
        parse-print c base64_laws (encrypt iv key text) (inr (inl refl)),
        decrypt-encrypt iv key text iv_ok key_ok mac_ok,
        utf8,
      )
