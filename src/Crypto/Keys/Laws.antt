-- ===== src/Crypto/Keys/Laws.antt =====
-- The keys that src/vault/crypto.rs decrypts, and when its legacy fallback can serve.
use vaultwarden_operator.Prelude.{
  ℕ, ◌≡◌, refl, subst, ◌≢◌, ◌⊎◌, inl, inr, [], ◌∷◌, ◌++◌, arith, length, take, drop,
  take-append-drop, length-take, length-drop, Result, ok, err, panic, >>=-eq-ok, Str, Bytes,
}
use vaultwarden_operator.Crypto.{CryptoError, org_key_length, sym_key_length, SymmetricKey, Crates}
use vaultwarden_operator.Crypto.CipherString.{CipherString, parse, decrypt, decrypt_rsa}
use vaultwarden_operator.Crypto.Keys.{
  stretch_key, legacy, decrypt_with_fallback, split_key, decrypt_symmetric_key, decrypt_org_key,
}
use vaultwarden_operator.Crypto.CipherString.Decrypt.{IsAuthentic, IsDecryption, decrypt_iff}

-- both halves of a 64-byte key
pub record IsHalves (key : SymmetricKey) (whole : Bytes) : Type 0 where
  pub enc_length : length key.enc_key ≡ 32
  pub mac_length : length key.mac_key ≡ 32
  pub joined : key.enc_key ++ key.mac_key ≡ whole

pub split_key_sound :
    (wrong : ℕ → CryptoError) (whole : Bytes) (key : SymmetricKey)
    → split_key wrong whole ≡ ok key
    → IsHalves key whole
split_key_sound wrong whole key e =
    let size : length whole ≡ 64 = ground arith in
    let halves : record { enc_key = take 32 whole; mac_key = drop 32 whole } ≡ key = ground arith in
    subst (λ k. IsHalves k whole) halves
      (record {
        enc_length = omega (arith, length-take 32 whole);
        mac_length = omega (arith, length-drop 32 whole);
        joined = take-append-drop 32 whole;
      })

module _ {K : Type 0} (c : Crates K) where
  -- The legacy key has no MAC key, so it decrypts no type 2 string.
  legacy_needs_no_mac :
      (cs : CipherString) (master_key out : Bytes)
      → decrypt c cs (legacy master_key) ≡ ok out
      → cs.enc_type ≢ 2
  legacy_needs_no_mac cs master_key out e =
      go ((decrypt_iff c cs (legacy master_key) out).0 e).authentic
    where
      go : IsAuthentic c cs (legacy master_key) → cs.enc_type ≢ 2
      go (inl other) = other
      go (inr (some_key, _)) = absurd (some_key refl)

  -- how the 64 bytes of the user's key were decrypted
  pub record IsUnlocked (encrypted_key : Str) (master_key : Bytes) (key : SymmetricKey)
      : Type 0 where
    pub cs : CipherString
    pub parsed : parse c encrypted_key ≡ ok cs
    pub whole : Bytes
    pub halves : IsHalves key whole
    pub stretched : SymmetricKey
    pub derived : stretch_key c master_key ≡ ok stretched
    pub decrypted :
        IsDecryption c cs stretched whole
        ⊎ ((cs.enc_type ≢ 2) × IsDecryption c cs (legacy master_key) whole)

  fallback_sound :
      (cs : CipherString) (stretched : SymmetricKey) (master_key out : Bytes)
      → decrypt_with_fallback c cs stretched master_key ≡ ok out
      → IsDecryption c cs stretched out
        ⊎ ((cs.enc_type ≢ 2) × IsDecryption c cs (legacy master_key) out)
  unfolding decrypt_with_fallback
  fallback_sound cs stretched master_key out e = go (decrypt c cs stretched) refl
    where
      go :
          (r : Result CryptoError Bytes)
          → decrypt c cs stretched ≡ r
          → IsDecryption c cs stretched out
            ⊎ ((cs.enc_type ≢ 2) × IsDecryption c cs (legacy master_key) out)
      go (ok d) found = inl ((decrypt_iff c cs stretched out).0 (ground arith))
      go (err why) found =
          let second : decrypt c cs (legacy master_key) ≡ ok out = ground arith in
          inr (
            legacy_needs_no_mac cs master_key out second,
            (decrypt_iff c cs (legacy master_key) out).0 second,
          )
      go panic found = absurd (ground arith)

  -- A decrypted user key is two halves of 32 bytes of what the stretched key decrypts, or, for a
  -- string that is not of type 2, of what the master key itself decrypts.
  pub decrypt_symmetric_key_sound :
      (encrypted_key : Str) (master_key : Bytes) (key : SymmetricKey)
      → decrypt_symmetric_key c encrypted_key master_key ≡ ok key
      → IsUnlocked encrypted_key master_key key
  unfolding decrypt_symmetric_key
  decrypt_symmetric_key_sound [] master_key key e = absurd (ground arith)
  decrypt_symmetric_key_sound (d ∷ s) master_key key e =
      let (cs, parsed, e1) = >>=-eq-ok (parse c (d ∷ s)) _ e in
      let (stretched, derived, e2) = >>=-eq-ok (stretch_key c master_key) _ e1 in
      let (whole, decrypted, e3) =
        >>=-eq-ok (decrypt_with_fallback c cs stretched master_key) _ e2 in
      record {
        cs = cs;
        parsed = parsed;
        whole = whole;
        halves = split_key_sound sym_key_length whole key e3;
        stretched = stretched;
        derived = derived;
        decrypted = fallback_sound cs stretched master_key whole decrypted;
      }

  -- how an organisation's key was decrypted
  pub record IsOrgKey (encrypted : Str) (private_key : K) (key : SymmetricKey) : Type 0 where
    pub cs : CipherString
    pub parsed : parse c encrypted ≡ ok cs
    pub whole : Bytes
    pub halves : IsHalves key whole
    pub decrypted :
        ((cs.enc_type ≡ 3) × (c.rsa_oaep_sha256 private_key cs.ct ≡ ok whole))
        ⊎ ((cs.enc_type ≡ 4) × (c.rsa_oaep_sha1 private_key cs.ct ≡ ok whole))

  decrypt_rsa_sound :
      (cs : CipherString) (private_key : K) (whole : Bytes)
      → decrypt_rsa c cs private_key ≡ ok whole
      → ((cs.enc_type ≡ 3) × (c.rsa_oaep_sha256 private_key cs.ct ≡ ok whole))
        ⊎ ((cs.enc_type ≡ 4) × (c.rsa_oaep_sha1 private_key cs.ct ≡ ok whole))
  unfolding decrypt_rsa
  decrypt_rsa_sound cs private_key whole e = ground arith

  -- A decrypted organisation key is two halves of 32 bytes of what RSA-OAEP decrypts, with SHA-256
  -- for type 3 and SHA-1 for type 4.
  pub decrypt_org_key_sound :
      (encrypted : Str) (private_key : K) (key : SymmetricKey)
      → decrypt_org_key c encrypted private_key ≡ ok key
      → IsOrgKey encrypted private_key key
  unfolding decrypt_org_key
  decrypt_org_key_sound [] private_key key e = absurd (ground arith)
  decrypt_org_key_sound (d ∷ s) private_key key e =
      let (cs, parsed, e1) = >>=-eq-ok (parse c (d ∷ s)) _ e in
      let (whole, decrypted, e2) = >>=-eq-ok (decrypt_rsa c cs private_key) _ e1 in
      record {
        cs = cs;
        parsed = parsed;
        whole = whole;
        halves = split_key_sound org_key_length whole key e2;
        decrypted = decrypt_rsa_sound cs private_key whole decrypted;
      }
