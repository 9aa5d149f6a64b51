-- ===== src/Vault/Background/Tests.antt =====
-- The background tasks of src/vault/mod.rs at concrete signals.
use vaultwarden_operator.Prelude.{◌≡◌, refl, false, some, [], ◌∷◌, replicate, ok}
use vaultwarden_operator.Http.{read_clock}
use vaultwarden_operator.Vault.{World}
use vaultwarden_operator.Vault.Background.{
  elapsed, cancelled, start_token_refresh, start_vault_cache_refresh,
}
use vaultwarden_operator.Fixtures.{cache, services, client, world}

abbrev begun : World
begun = world (some cache) (replicate 20 read_clock)

-- A task that is cancelled in its first wait does nothing.
cancelled_tests :
    (start_vault_cache_refresh services client (cancelled ∷ elapsed ∷ []) begun ≡ (ok tt, begun))
    × (start_token_refresh services client false (cancelled ∷ elapsed ∷ []) begun ≡ (ok tt, begun))
unfolding start_vault_cache_refresh start_token_refresh
cancelled_tests = (refl, refl)
