-- ===== src/Crypto/CipherString/Print.antt =====
-- The written form of a cipher string, which the documentation of `CipherString` gives, and its
-- parser.
use vaultwarden_operator.Prelude.{
  ℕ, ◌+◌, ◌≡◌, refl, sym, subst, ◌⊎◌, inl, inr, [], ◌∷◌, ◌++◌, arith, ◌==◌, if◌then◌else◌, ok, Str,
  Bytes, split_once, Lacks, splitn_two, splitn_three, parse_u8,
}
use vaultwarden_operator.Crypto.{Crates, IsBase64}
use vaultwarden_operator.Crypto.CipherString.{
  CipherString, without_pipes, decode, parse_typed, parse,
}

-- what a parsed cipher string of each type holds
abbrev pub IsWellFormed : CipherString → Type 0
IsWellFormed cs =
    ((cs.enc_type ≡ 0) × (cs.mac ≡ []))
    ⊎ ((cs.enc_type ≡ 2) ⊎ (((cs.enc_type ≡ 3) ⊎ (cs.enc_type ≡ 4)) × (cs.iv ≡ []) × (cs.mac ≡ [])))

abbrev make : ℕ → Bytes → Bytes → Bytes → CipherString
make enc_type iv ct mac = record { enc_type = enc_type; iv = iv; ct = ct; mac = mac }

module _ {K : Type 0} (c : Crates K) where
  -- `<iv_b64>|<ct_b64>`, `<iv_b64>|<ct_b64>|<mac_b64>` or `<ct_b64>`
  unfoldable pub print_body : CipherString → Str
  print_body cs =
      if cs.enc_type == 0
      then c.base64_encode cs.iv ++ b'|' ∷ c.base64_encode cs.ct
      else if cs.enc_type == 2
      then c.base64_encode cs.iv ++ b'|' ∷ (c.base64_encode cs.ct ++ b'|' ∷ c.base64_encode cs.mac)
      else c.base64_encode cs.ct

  -- the type's digit and a dot in front
  unfoldable pub print : CipherString → Str
  unfolding print_body
  print cs = (b'0' + cs.enc_type) ∷ b'.' ∷ print_body cs

  module _ (base64_laws : IsBase64 c) where
    -- decoding what was encoded
    decode-encode : (bs : Bytes) → decode c (c.base64_encode bs) ≡ ok bs
    decode-encode bs = rw (base64_laws.decode-encode bs)

    parse-print_aes : (iv ct : Bytes) → parse c (print (make 0 iv ct [])) ≡ ok (make 0 iv ct [])
    unfolding parse print split_once parse_u8
    parse-print_aes iv ct = rw (
      splitn_two 0 b'|' (c.base64_encode iv) (c.base64_encode ct) (base64_laws.no_pipe iv)
          (base64_laws.no_pipe ct),
      base64_laws.decode-encode iv,
      base64_laws.decode-encode ct,
    )

    parse-print_aes_hmac :
        (iv ct mac : Bytes) → parse c (print (make 2 iv ct mac)) ≡ ok (make 2 iv ct mac)
    unfolding parse print split_once parse_u8
    parse-print_aes_hmac iv ct mac = rw (
      splitn_three 0 b'|' (c.base64_encode iv) (c.base64_encode ct) (c.base64_encode mac)
          (base64_laws.no_pipe iv) (base64_laws.no_pipe ct) (base64_laws.no_pipe mac),
      base64_laws.decode-encode iv,
      base64_laws.decode-encode ct,
      base64_laws.decode-encode mac,
    )

    without_pipes-Lacks : (s : Str) → Lacks b'|' s → without_pipes s ≡ s
    without_pipes-Lacks [] h = refl
    without_pipes-Lacks (d ∷ s) (n, h) = rw (n, without_pipes-Lacks s h)

    parse-print_rsa :
        (t : ℕ) (ct : Bytes)
        → (t ≡ 3) ⊎ (t ≡ 4)
        → parse c (print (make t [] ct [])) ≡ ok (make t [] ct [])
    unfolding parse print split_once parse_u8
    parse-print_rsa t ct (inl e) = rw (
      e,
      without_pipes-Lacks (c.base64_encode ct) (base64_laws.no_pipe ct),
      base64_laws.decode-encode ct,
    )
    parse-print_rsa t ct (inr e) = rw (
      e,
      without_pipes-Lacks (c.base64_encode ct) (base64_laws.no_pipe ct),
      base64_laws.decode-encode ct,
    )

    -- A well-formed cipher string, of any of the four types, is read back from its written form.
    pub parse-print : (cs : CipherString) → IsWellFormed cs → parse c (print cs) ≡ ok cs
    parse-print cs (inl (t, m)) =
        let e : cs ≡ make 0 cs.iv cs.ct [] = ground arith in
        subst (λ x. parse c (print x) ≡ ok x) (sym e) (parse-print_aes cs.iv cs.ct)
    parse-print cs (inr (inl t)) =
        let e : cs ≡ make 2 cs.iv cs.ct cs.mac = ground arith in
        subst (λ x. parse c (print x) ≡ ok x) (sym e) (parse-print_aes_hmac cs.iv cs.ct cs.mac)
    parse-print cs (inr (inr (t, v, m))) =
        let e : cs ≡ make cs.enc_type [] cs.ct [] = ground arith in
        subst (λ x. parse c (print x) ≡ ok x) (sym e) (parse-print_rsa cs.enc_type cs.ct t)

  parse_typed-IsWellFormed :
      (enc_type : ℕ) (rest : Str) (cs : CipherString)
      → parse_typed c enc_type rest ≡ ok cs
      → IsWellFormed cs
  unfolding parse_typed
  parse_typed-IsWellFormed enc_type rest cs e = ground arith

  -- What is parsed has one of the four types, and the parts that its type has.
  pub parse-IsWellFormed : (s : Str) (cs : CipherString) → parse c s ≡ ok cs → IsWellFormed cs
  unfolding parse
  parse-IsWellFormed s cs e = ground arith
