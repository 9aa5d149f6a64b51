-- ===== src/Auth/Tests.antt =====
-- A login of src/vault/auth.rs at a concrete account.
use vaultwarden_operator.Prelude.{
  ◌≡◌, refl, none, [], ok, codes, str_eq, is_whitespace, trim_start, trim, split_once, splitn,
  parse_u8, small_decimal,
}
use vaultwarden_operator.Http.{Trace}
use vaultwarden_operator.Auth.{Login, authenticate}
use vaultwarden_operator.Auth.Requests.{IsLogin, authenticate_sound}
use vaultwarden_operator.Fixtures.{services, user_key}

abbrev logged_in : Login
logged_in = (codes "at", codes "rt", 3600, user_key)

abbrev end_trace : Trace
end_trace =
    (authenticate services (codes "https://v") (codes "a@b.c") (codes "pw") none none (codes "d")
      []).1

authenticate_test :
    authenticate services (codes "https://v") (codes "a@b.c") (codes "pw") none none (codes "d") []
    ≡ (ok logged_in, end_trace)
unfolding authenticate vaultwarden_operator.Auth.prelogin
    vaultwarden_operator.Crypto.Keys.make_master_key vaultwarden_operator.Auth.login
    vaultwarden_operator.Auth.login_with_password vaultwarden_operator.Auth.do_token_request
    vaultwarden_operator.Auth.encrypted_key vaultwarden_operator.Crypto.CipherString.Print.print
    vaultwarden_operator.Crypto.Keys.decrypt_symmetric_key
    vaultwarden_operator.Crypto.CipherString.parse split_once
    vaultwarden_operator.Crypto.CipherString.Decrypt.encrypt parse_u8 splitn
    vaultwarden_operator.Fixtures.shift vaultwarden_operator.Crypto.CipherString.Decrypt.pad
    vaultwarden_operator.Crypto.Keys.stretch_key
    vaultwarden_operator.Crypto.Keys.decrypt_with_fallback
    vaultwarden_operator.Auth.fetch_profile_key vaultwarden_operator.Auth.login_with_api_key
    vaultwarden_operator.Crypto.CipherString.Print.print_body
    vaultwarden_operator.Crypto.CipherString.decrypt
    vaultwarden_operator.Crypto.CipherString.decrypt_blocks
    vaultwarden_operator.Crypto.CipherString.parse_typed
    vaultwarden_operator.Crypto.CipherString.verify_mac
    vaultwarden_operator.Crypto.Keys.hash_password vaultwarden_operator.Crypto.Unpad.pkcs7_unpad
    small_decimal is_whitespace str_eq trim trim_start vaultwarden_operator.Fixtures.unshift
authenticate_test = refl

authenticate_sound_example :
    IsLogin services
      (codes "https://v")
      (codes "a@b.c")
      (codes "pw")
      none
      none
      (codes "d")
      logged_in
      []
      end_trace
authenticate_sound_example =
    authenticate_sound services (codes "https://v") (codes "a@b.c") (codes "pw") none none
      (codes "d") logged_in [] end_trace authenticate_test
