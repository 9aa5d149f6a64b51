-- ===== src/Health/Tests.antt =====
-- The answer of src/health.rs to concrete requests.
use vaultwarden_operator.Prelude.{◌≡◌, refl, true, ok, [], ◌∷◌, codes, is_whitespace, str_eq}
use vaultwarden_operator.Health.{
  accept_error, stream, serve, served, ok_response, not_found_response, line, end, failed,
  responded, closed, waiting, handle_connection,
}

handle_connection_tests :
    (handle_connection (line (codes "GET /readyz HTTP/1.1\r\n") ∷ line (codes "\r\n") ∷ [])
      ≡ responded ok_response)
    × (handle_connection (line (codes "GET /\r\n") ∷ end ∷ []) ≡ responded not_found_response)
    × (handle_connection (line (codes "GET /\r\n") ∷ line (codes "Host: x\r\n") ∷ []) ≡ waiting)
    × (handle_connection (failed ∷ []) ≡ closed)
unfolding handle_connection is_whitespace str_eq
handle_connection_tests = (refl, refl, refl, refl)

serve_test :
    serve true (accept_error ∷ stream (failed ∷ []) ∷ stream [] ∷ []) ≡ ok (closed ∷ waiting ∷ [])
unfolding serve served handle_connection
serve_test = refl
