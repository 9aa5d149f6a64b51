-- ===== src/Vault/Concurrent/Exclusive.antt =====
-- refresh_lock of src/vault/mod.rs: which task holds it.
use vaultwarden_operator.Prelude.{
  ℕ, ◌≡◌, ◌↔◌, ◌≢◌, refl, ◌⊎◌, Bool, false, Option, subst, inl, inr, true, some, List, [], ◌∷◌,
  ◌==◌, ==_iff, Bool-cases,
}
use vaultwarden_operator.Auth.{Services}
use vaultwarden_operator.Vault.{Session, VaultClient}
use vaultwarden_operator.Vault.Tasks.{Pc, Shared}
use vaultwarden_operator.Vault.Concurrent.{
  advance, System, Turn, tick, move, moved, turn, run, at_rest,
}
use vaultwarden_operator.Vault.Concurrent.Locking.{holding, LockStep, advance-LockStep}

-- The task that the lock names is the one that holds it.
abbrev pub IsLocked : System → Type 0
IsLocked s = (i : ℕ) → (holding (s.tasks i) ≡ true) ↔ (s.shared.refresh_lock ≡ some i)

-- how the moving task, and another one, stand to the lock after a move
own-locked :
    (i : ℕ) (m : Shared) (p : Pc) (r : Shared × Pc)
    → LockStep i m p r
    → (holding p ≡ true) ↔ (m.refresh_lock ≡ some i)
    → (holding r.1 ≡ true) ↔ (r.0.refresh_lock ≡ some i)
own-locked i m p r (inl (l, h)) locks = rw (l, h) locks
own-locked i m p r (inr (inl (free, taken, h, h'))) locks = (λ x. taken, λ x. h')
own-locked i m p r (inr (inr (given, h, h'))) locks = (λ x. cc, λ x. cc)

other-locked :
    (i j : ℕ) (m : Shared) (p q : Pc) (r : Shared × Pc)
    → i ≢ j
    → LockStep i m p r
    → (holding p ≡ true) ↔ (m.refresh_lock ≡ some i)
    → (holding q ≡ true) ↔ (m.refresh_lock ≡ some j)
    → (holding q ≡ true) ↔ (r.0.refresh_lock ≡ some j)
other-locked i j m p q r ne (inl (l, h)) mine locks = rw l locks
other-locked i j m p q r ne (inr (inl (free, taken, h, h'))) mine locks =
    (λ x. let y = locks.0 x in cc, λ x. let e : i ≡ j = cc in absurd (ne e))
other-locked i j m p q r ne (inr (inr (given, h, h'))) mine locks =
    (λ x. let y = locks.0 x in let z = mine.0 h in let e : i ≡ j = cc in absurd (ne e), λ x. cc)

moved-IsLocked :
    (s : System) (i : ℕ) (r : Shared × Pc)
    → LockStep i s.shared (s.tasks i) r
    → IsLocked s
    → IsLocked (moved s i r)
moved-IsLocked s i r step locks j = elim (Bool-cases (i == j)) [
  | inl same ↦ rw same (
      subst (λ k. (holding r.1 ≡ true) ↔ (r.0.refresh_lock ≡ some k)) ((==_iff i j).0 same)
        (own-locked i s.shared (s.tasks i) r step (locks i)))
  | inr other ↦ rw other (
      other-locked i j s.shared (s.tasks i) (s.tasks j) r
        (λ e. let same : (i == j) ≡ true = (==_iff i j).1 e in cc) step (locks i) (locks j))
]

module _ {RsaPrivateKey : Type 0} (services : Services RsaPrivateKey) (client : VaultClient) where
  pub turn-IsLocked : (t : Turn) (s : System) → IsLocked s → IsLocked (turn services client t s)
  unfolding turn
  turn-IsLocked (tick n) s locks = locks
  turn-IsLocked (move i c) s locks =
      moved-IsLocked s i (advance services client i c s.shared (s.tasks i))
        (advance-LockStep services client i c s.shared (s.tasks i)) locks

  pub run-IsLocked :
      (turns : List Turn) (s : System) → IsLocked s → IsLocked (run services client turns s)
  unfolding run
  run-IsLocked [] s locks = locks
  run-IsLocked (t ∷ turns) s locks =
      run-IsLocked turns (turn services client t s) (turn-IsLocked t s locks)

  not_both :
      (a b : Bool) (i j : ℕ) (l : Option ℕ)
      → (a ≡ true) ↔ (l ≡ some i)
      → (b ≡ true) ↔ (l ≡ some j)
      → (i ≡ j) ⊎ (a ≡ false) ⊎ (b ≡ false)
  not_both false b i j l ha hb = inr (inl refl)
  not_both true false i j l ha hb = inr (inr refl)
  not_both true true i j l ha hb = let li = ha.0 refl in let lj = hb.0 refl in inl (cc)

  -- Whatever the turns, a task is between the `lock()` of refresh_lock and the drop of its guard, in
  -- a panic too, exactly if the lock names it; so of two different tasks one is not.
  pub refresh_lock_exclusive :
      (turns : List Turn) (session : Session) (clock : ℕ) (i j : ℕ)
      → let s = run services client turns (at_rest session clock) in
        ((holding (s.tasks i) ≡ true) ↔ (s.shared.refresh_lock ≡ some i))
        × ((i ≡ j) ⊎ (holding (s.tasks i) ≡ false) ⊎ (holding (s.tasks j) ≡ false))
  refresh_lock_exclusive turns session clock i j =
      let s = run services client turns (at_rest session clock) in
      let locks = run-IsLocked turns (at_rest session clock) (λ k. (λ x. cc, λ x. cc)) in
      (
        locks i,
        not_both (holding (s.tasks i)) (holding (s.tasks j)) i j s.shared.refresh_lock (locks i)
            (locks j),
      )
