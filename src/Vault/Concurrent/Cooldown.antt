-- ===== src/Vault/Concurrent/Cooldown.antt =====
-- The cooldown of `refresh_if_due` of src/vault/mod.rs among concurrent callers.
use vaultwarden_operator.Prelude.{
  ℕ, ◌+◌, ◌*◌, ◌≤◌, ◌≡◌, refl, ◌≢◌, ◌⊎◌, inl, inr, true, false, List, [], ◌∷◌, arith, ◌==◌, ==_iff,
  Bool-cases,
}
use vaultwarden_operator.Auth.{Services}
use vaultwarden_operator.Vault.{Session, VaultClient}
use vaultwarden_operator.Vault.Tasks.{Pc, Shared}
use vaultwarden_operator.Vault.Concurrent.{
  advance, System, Turn, tick, move, moved, turn, run, at_rest,
}
use vaultwarden_operator.Vault.Concurrent.Locking.{holding}
use vaultwarden_operator.Vault.Concurrent.Exclusive.{IsLocked, turn-IsLocked}
use vaultwarden_operator.Vault.Concurrent.Moves.{free-Continues}
use vaultwarden_operator.Vault.Concurrent.Cooling.{
  successes, IsSpaced, IsDue, CoolStep, advance-CoolStep,
}

module _ (k start : ℕ) where
  -- The lock is kept and so is the cooldown, and what the tasks rely on holds.
  record IsCool (s : System) : Type 0 where
    locks : IsLocked s
    spaced : IsSpaced k start s.shared
    due : (i : ℕ) → IsDue k start s.shared (s.tasks i)

  -- what a task relies on while another moves
  other-IsDue :
      (m m' : Shared) (q : Pc)
      → m'.clock ≡ m.clock
      → (successes m'.log ≡ successes m.log) ⊎ (holding q ≡ false)
      → IsDue k start m q
      → IsDue k start m' q
  other-IsDue m m' q same (inl log) due = rw (log, same) due
  other-IsDue m m' q same (inr free) due =
      let (over, read) = free-Continues q free in ((λ h. let x = over h in cc), (λ at h. cc))

  -- a task cannot hold the lock beside the one that does
  unlocked :
      (s : System) (i j : ℕ)
      → IsLocked s
      → i ≢ j
      → holding (s.tasks i) ≡ true
      → holding (s.tasks j) ≡ false
  unlocked s i j locks ne hi = elim (Bool-cases (holding (s.tasks j))) [
    | inl hj ↦
        let li = (locks i).0 hi in let lj = (locks j).0 hj in let e : i ≡ j = cc in absurd (ne e)
    | inr free ↦ free
  ]

  moved-IsDue :
      (s : System) (i : ℕ) (r : Shared × Pc)
      → IsCool s
      → CoolStep k start s.shared (s.tasks i) r
      → (j : ℕ) → IsDue k start (moved s i r).shared ((moved s i r).tasks j)
  moved-IsDue s i (m', p') cool (spaced, due, same, log) j = elim (Bool-cases (i == j)) [
    | inl own ↦ rw own due
    | inr other ↦
        let ne : i ≢ j = λ e. let x = (==_iff i j).1 e in cc in
        rw other (
          other-IsDue s.shared m' (s.tasks j) same
            (elim log [ inl l ↦ inl l | inr h ↦ inr (unlocked s i j cool.locks ne h) ])
            (cool.due j))
  ]

  module _ {RsaPrivateKey : Type 0} (services : Services RsaPrivateKey) (client : VaultClient) where
    turn-IsCool :
        (t : Turn) (s : System)
        → client.min_refresh_interval ≡ k
        → IsCool s
        → IsCool (turn services client t s)
    unfolding turn
    turn-IsCool (tick n) s e cool = record {
      locks = cool.locks;
      spaced = (cool.spaced.0, omega (arith, cool.spaced));
      due = λ i. (
        (λ h. let o = (cool.due i).0 h in omega arith),
        (λ at h. let r = (cool.due i).1 at h in (omega arith, omega arith)),
      );
    }
    turn-IsCool (move i c) s e cool =
        let step =
          advance-CoolStep k start services client i c s.shared (s.tasks i) e cool.spaced
            (cool.due i) in
        record {
          locks = turn-IsLocked services client (move i c) s cool.locks;
          spaced = step.0;
          due = moved-IsDue s i (advance services client i c s.shared (s.tasks i)) cool step;
        }

    run-IsCool :
        (turns : List Turn) (s : System)
        → client.min_refresh_interval ≡ k
        → IsCool s
        → IsCool (run services client turns s)
    unfolding run
    run-IsCool [] s e cool = cool
    run-IsCool (t ∷ turns) s e cool =
        run-IsCool turns (turn services client t s) e (turn-IsCool t s e cool)

module _ {RsaPrivateKey : Type 0} (services : Services RsaPrivateKey) (client : VaultClient) where
  -- Among any tasks, with any answers of the server, the number of the refreshes on a miss that have
  -- stored a cache, times the cooldown, is at most the time from the refresh before the run to the
  -- last one; and the last refresh is not in the future, if the one before the run is not.
  pub on_demand_spaced :
      (turns : List Turn) (session : Session) (clock : ℕ)
      → session.last_refresh_at ≤ clock
      → let m = (run services client turns (at_rest session clock)).shared in
        (successes m.log * client.min_refresh_interval + session.last_refresh_at
          ≤ m.session.last_refresh_at)
        × (m.session.last_refresh_at ≤ m.clock)
  unfolding successes
  on_demand_spaced turns session clock past =
      let start : System = at_rest session clock in
      (run-IsCool client.min_refresh_interval session.last_refresh_at services client turns start
        refl
        (record {
          locks = λ i. ((λ h. cc), (λ h. cc));
          spaced = (omega arith, past);
          due = λ i. ((λ h. cc), (λ at h. cc));
        })).spaced
