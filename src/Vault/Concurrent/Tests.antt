-- ===== src/Vault/Concurrent/Tests.antt =====
-- The tasks of src/vault/mod.rs at concrete turns.
use vaultwarden_operator.Prelude.{
  ℕ, ◌+◌, ◌*◌, ◌≤◌, ◌≡◌, ◌↔◌, ◌⊎◌, refl, true, false, none, some, List, [], ◌∷◌, arith, ◌==◌,
  Result, ok, err, Str, codes, str_eq, ascii_lower, contains,
}
use vaultwarden_operator.Duration.{from_secs}
use vaultwarden_operator.Http.{read_clock}
use vaultwarden_operator.Sync.{SyncResponse, VaultCache, LookupError, not_found, is_stale_miss}
use vaultwarden_operator.Sync.Decrypt.{decrypt_vault}
use vaultwarden_operator.Vault.{VaultError, SecretRequest, Session, World}
use vaultwarden_operator.Vault.Fetch.{lookup_all, fetch_secrets}
use vaultwarden_operator.Vault.Tasks.{
  on_demand, background, asking, idle, answered, nothing, fetch, sync, fetched, stored, Shared, Pc,
  Choice, posting, logging_in, syncing, resyncing, tokens, login,
}
use vaultwarden_operator.Vault.Concurrent.{Turn, tick, move, run, at_rest}
use vaultwarden_operator.Vault.Concurrent.Locking.{holding}
use vaultwarden_operator.Vault.Concurrent.Exclusive.{refresh_lock_exclusive}
use vaultwarden_operator.Auth.{http}
use vaultwarden_operator.Vault.Concurrent.Ranks.{fits}
use vaultwarden_operator.Vault.Concurrent.Progress.{Ends, fetch_secrets-Ends}
use vaultwarden_operator.Vault.Concurrent.Cooling.{successes}
use vaultwarden_operator.Vault.Concurrent.Cooldown.{on_demand_spaced}
use vaultwarden_operator.Vault.Concurrent.Explained.{HasHeld, IsExplained}
use vaultwarden_operator.Vault.Concurrent.Answers.{fetch_secrets-IsExplained}
use vaultwarden_operator.Vault.Concurrent.Solo.{alone}
use vaultwarden_operator.Vault.Concurrent.Served.{IsServed}
use vaultwarden_operator.Vault.Concurrent.Calls.{fetch_end, fetch_secrets_refines}
use vaultwarden_operator.Vault.Concurrent.Races.{race, older_response_overwrites}
use vaultwarden_operator.Fixtures.{cache, services, client, world, ask, sync_response}

abbrev unknown : List SecretRequest
unknown = ask (codes "nowhere") none ∷ []

abbrev rested : Session
rested = (world (some cache) []).session

abbrev instant : ℕ
instant = from_secs 40

-- two callers that miss; the first takes the lock
abbrev contended : List Turn
contended =
    move 0 (fetch unknown)
    ∷ move 1 (fetch unknown)
    ∷ move 0 nothing
    ∷ move 1 nothing
    ∷ move 0 nothing
    ∷ move 1 nothing
    ∷ []

-- the first one holds the lock, the second waits for it
contended_test :
    (holding ((run services client contended (at_rest rested instant)).tasks 0) ≡ true)
    × (holding ((run services client contended (at_rest rested instant)).tasks 1) ≡ false)
    × ((run services client contended (at_rest rested instant)).shared.refresh_lock ≡ some 0)
unfolding run vaultwarden_operator.Vault.Concurrent.turn
    vaultwarden_operator.Vault.Concurrent.advance lookup_all
    vaultwarden_operator.Sync.Lookup.lookup_item vaultwarden_operator.Sync.Lookup.find_item
    vaultwarden_operator.Sync.Lookup.in_scope str_eq ascii_lower contains is_stale_miss
contended_test = (refl, refl, refl)

refresh_lock_exclusive_example :
    let s = run services client contended (at_rest rested instant) in
    ((holding (s.tasks 0) ≡ true) ↔ (s.shared.refresh_lock ≡ some 0))
    × (((◌≡◌ {A = ℕ} 0 1)) ⊎ (holding (s.tasks 0) ≡ false) ⊎ (holding (s.tasks 1) ≡ false))
refresh_lock_exclusive_example = refresh_lock_exclusive services client contended rested instant 0 1

-- the refresh of the first, up to its cache
abbrev refreshed : List Turn
refreshed =
    move 0 (fetch unknown)
    ∷ tick 5
    ∷ move 0 nothing
    ∷ move 0 nothing
    ∷ move 0 nothing
    ∷ move 0 nothing
    ∷ move 0 nothing
    ∷ move 0 nothing
    ∷ move 0 nothing
    ∷ move 0 nothing
    ∷ move 0 (sync (ok sync_response))
    ∷ move 0 nothing
    ∷ []

on_demand_spaced_example :
    (successes (run services client refreshed (at_rest rested instant)).shared.log * from_secs 30
        + 0
      ≤ (run services client refreshed (at_rest rested instant)).shared.session.last_refresh_at)
    × ((run services client refreshed (at_rest rested instant)).shared.session.last_refresh_at
        ≤ (run services client refreshed (at_rest rested instant)).shared.clock)
on_demand_spaced_example = on_demand_spaced services client refreshed rested instant (omega arith)

fetch_secrets-IsExplained_example :
    HasHeld services cache (run services client refreshed (at_rest rested instant)).shared
    × ((i : ℕ) (requests : List SecretRequest) (r : Result VaultError (List Str))
        → (run services client refreshed (at_rest rested instant)).tasks i ≡ answered requests r
        → IsExplained services cache
            (run services client refreshed (at_rest rested instant)).shared.log
            requests
            r)
fetch_secrets-IsExplained_example =
    fetch_secrets-IsExplained services client refreshed rested instant cache refl

abbrev calling : World
calling = world (some cache) (read_clock ∷ [])

fetch_secrets_refines_example :
    (cs : List (ℕ × Choice)) × IsServed services client 2 cs calling.trace
      ((at_rest calling.session (from_secs 1)).shared, asking unknown)
      (fetch_secrets services client unknown calling).1.trace
    × (((run services client
            (move 2 (fetch unknown) ∷ alone 2 cs)
            (at_rest calling.session (from_secs 1))).shared.session
          ≡ (fetch_secrets services client unknown calling).1.session)
        × ((run services client
                (move 2 (fetch unknown) ∷ alone 2 cs)
                (at_rest calling.session (from_secs 1))).tasks
              2
            ≡ fetch_end unknown (fetch_secrets services client unknown calling).0)
        × ((j : ℕ)
            → (2 == j) ≡ false
            → (run services client
                  (move 2 (fetch unknown) ∷ alone 2 cs)
                  (at_rest calling.session (from_secs 1))).tasks
                j
              ≡ idle))
fetch_secrets_refines_example =
    fetch_secrets_refines services client (λ e t. omega arith) 2 unknown calling

-- accounts with nothing in them, before and after a change of the user's name
abbrev account : Str → SyncResponse
account email = record {
  profile = record {
    id = codes "u1";
    email = email;
    key = [];
    private_key = [];
    organizations = [];
  };
  ciphers = [];
}

abbrev empty : VaultCache
empty = record { items = []; orgs_by_name = [] }

abbrev missing : LookupError
missing = not_found (codes "nowhere") 2

older_response_overwrites_example :
    ((run services client
        (race unknown (account (codes "a")) (account (codes "b")))
        (at_rest rested instant)).shared.log
      ≡ stored background empty
        ∷ stored (on_demand unknown missing) empty
        ∷ fetched (account (codes "b"))
        ∷ fetched (account (codes "a"))
        ∷ [])
    × ((run services client
          (race unknown (account (codes "a")) (account (codes "b")))
          (at_rest rested instant)).shared.session.vault
        ≡ some empty)
unfolding lookup_all decrypt_vault vaultwarden_operator.Sync.Lookup.lookup_item
    vaultwarden_operator.Sync.Lookup.find_item vaultwarden_operator.Sync.Lookup.in_scope str_eq
    ascii_lower contains is_stale_miss vaultwarden_operator.Sync.Decrypt.org_keys_of
    vaultwarden_operator.Sync.Decrypt.decrypt_ciphers vaultwarden_operator.Sync.Decrypt.index_orgs
older_response_overwrites_example =
    older_response_overwrites services client cache empty empty unknown missing rested instant
      (account (codes "a")) (account (codes "b")) (record { no_org_key = 0; decrypt_failed = 0 })
      (record { no_org_key = 0; decrypt_failed = 0 }) (refl, refl) (refl, refl, refl, refl) refl
      refl

-- a server that answers syncs only
abbrev syncs_only : Shared → Pc → Choice
syncs_only m (posting who rt) = tokens (err (http []))
syncs_only m (logging_in who) = login (err (http []))
syncs_only m (syncing g token key) = sync (ok sync_response)
syncs_only m (resyncing g token key) = sync (ok sync_response)
syncs_only m _ = nothing

fits-syncs_only : (m : Shared) (p : Pc) → fits p (syncs_only m p) ≡ true
fits-syncs_only m idle = refl
fits-syncs_only m _ = refl

fetch_secrets-Ends_example :
    Ends services client syncs_only 1 (run services client contended (at_rest rested instant))
fetch_secrets-Ends_example =
    fetch_secrets-Ends services client syncs_only fits-syncs_only contended rested instant 1
