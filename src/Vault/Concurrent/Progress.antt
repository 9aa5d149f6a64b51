-- ===== src/Vault/Concurrent/Progress.antt =====
-- Whether the tasks of src/vault/mod.rs come to their ends, with refresh_lock among them.
use vaultwarden_operator.Prelude.{
  ℕ, zero, suc, ◌≤◌, ◌<◌, ◌≡◌, refl, ap, ◌∙◌, ◌≢◌, ◌⊎◌, inl, inr, ◌↔◌, true, false, Option, none,
  some, List, arith, ◌==◌, ==_iff, ==_refl, Bool-cases,
}
use vaultwarden_operator.Auth.{Services}
use vaultwarden_operator.Vault.{Session, VaultClient}
use vaultwarden_operator.Vault.Tasks.{Pc, idle, crashed, missed, answered, Choice, Shared}
use vaultwarden_operator.Vault.Concurrent.{advance, System, Turn, move, turn, run, at_rest}
use vaultwarden_operator.Vault.Concurrent.Locking.{holding, LockStep, advance-LockStep}
use vaultwarden_operator.Vault.Concurrent.Exclusive.{IsLocked, turn-IsLocked, run-IsLocked}
use vaultwarden_operator.Vault.Concurrent.Ranks.{is_end, fits, is_waiting, rank, rank-bound}
use vaultwarden_operator.Vault.Concurrent.Nearer.{rank-advance}

-- A task that holds the lock is at work, and does not wait for it.
holding-is_end : (p : Pc) → holding p ≡ true → is_end p ≡ false
holding-is_end idle h = cc
holding-is_end crashed h = cc
holding-is_end (answered requests r) h = cc
holding-is_end _ h = refl

holding-is_waiting : (m : Shared) (p : Pc) → holding p ≡ true → is_waiting m p ≡ false
holding-is_waiting m (missed requests e) h = cc
holding-is_waiting m _ h = refl

-- Where nobody or the task itself has the lock, it does not wait.
free-is_waiting :
    (i : ℕ) (m : Shared) (p : Pc)
    → ((holding p ≡ true) ↔ (m.refresh_lock ≡ some i))
    → (m.refresh_lock ≡ none) ⊎ (m.refresh_lock ≡ some i)
    → is_waiting m p ≡ false
free-is_waiting i m p locks (inr mine) = holding-is_waiting m p (locks.1 mine)
free-is_waiting i m (missed requests e) locks (inl free) = rw free
free-is_waiting i m _ locks (inl free) = refl

-- What a move leaves of the lock, for the task that moves.
step-free :
    (i : ℕ) (m : Shared) (p : Pc) (r : Shared × Pc)
    → LockStep i m p r
    → (m.refresh_lock ≡ none) ⊎ (m.refresh_lock ≡ some i)
    → (r.0.refresh_lock ≡ none) ⊎ (r.0.refresh_lock ≡ some i)
step-free i m p r (inl (l, h)) (inl free) = inl (l ∙ free)
step-free i m p r (inl (l, h)) (inr mine) = inr (l ∙ mine)
step-free i m p r (inr (inl (was, taken, h, h'))) free = inr taken
step-free i m p r (inr (inr (given, h, h'))) free = inl given

step-mine :
    (i : ℕ) (m : Shared) (p : Pc) (r : Shared × Pc)
    → LockStep i m p r
    → m.refresh_lock ≡ some i
    → (r.0.refresh_lock ≡ some i) ⊎ (r.0.refresh_lock ≡ none)
step-mine i m p r (inl (l, h)) mine = inl (l ∙ mine)
step-mine i m p r (inr (inl (was, taken, h, h'))) mine = inl taken
step-mine i m p r (inr (inr (given, h, h'))) mine = inr given

module _ {RsaPrivateKey : Type 0} (services : Services RsaPrivateKey) (client : VaultClient)
    (outcome : Shared → Pc → Choice) where
  -- The task `i` moves, with the outcome of what it waits for; and `n` times.
  abbrev pub attended : ℕ → System → System
  attended i s = turn services client (move i (outcome s.shared (s.tasks i))) s

  abbrev pub attend : ℕ → ℕ → System → System
  attend i zero s = s
  attend i (suc n) s = attend i n (attended i s)

  -- The task `i` comes to an end by at most 25 moves of another that has refresh_lock, where one
  -- has it, and then at most 25 of its own.
  abbrev pub Ends : ℕ → System → Type 0
  Ends i s =
      (j k n : ℕ) × ((k ≡ 0) ⊎ ((s.shared.refresh_lock ≡ some j) × (j ≢ i)))
      × (k ≤ 25)
      × (n ≤ 25)
      × (is_end ((attend i n (attend j k s)).tasks i) ≡ true)

  module _ (fit : (m : Shared) (p : Pc) → fits p (outcome m p) ≡ true) where
    own :
        (i : ℕ) (s : System)
        → (attended i s).tasks i
          ≡ (advance services client i (outcome s.shared (s.tasks i)) s.shared (s.tasks i)).1
    unfolding turn
    own i s = rw (==_refl i)

    attended-rank :
        (i : ℕ) (s : System)
        → is_end (s.tasks i) ≡ false
        → is_waiting s.shared (s.tasks i) ≡ false
        → rank ((attended i s).tasks i) < rank (s.tasks i)
    attended-rank i s going free = rw (own i s) (
        rank-advance services client i (outcome s.shared (s.tasks i)) s.shared (s.tasks i) going
          free (fit s.shared (s.tasks i)))

    mine-after :
        (i : ℕ) (s : System)
        → s.shared.refresh_lock ≡ some i
        → ((attended i s).shared.refresh_lock ≡ some i)
          ⊎ ((attended i s).shared.refresh_lock ≡ none)
    unfolding turn
    mine-after i s =
        let c = outcome s.shared (s.tasks i) in
        step-mine i s.shared (s.tasks i) (advance services client i c s.shared (s.tasks i))
          (advance-LockStep services client i c s.shared (s.tasks i))

    free-after :
        (i : ℕ) (s : System)
        → (s.shared.refresh_lock ≡ none) ⊎ (s.shared.refresh_lock ≡ some i)
        → ((attended i s).shared.refresh_lock ≡ none)
          ⊎ ((attended i s).shared.refresh_lock ≡ some i)
    unfolding turn
    free-after i s =
        let c = outcome s.shared (s.tasks i) in
        step-free i s.shared (s.tasks i) (advance services client i c s.shared (s.tasks i))
          (advance-LockStep services client i c s.shared (s.tasks i))

    held-rank :
        (j : ℕ) (s : System)
        → IsLocked s
        → s.shared.refresh_lock ≡ some j
        → rank ((attended j s).tasks j) < rank (s.tasks j)
    held-rank j s locks mine =
        let held = (locks j).1 mine in
        attended-rank j s (holding-is_end (s.tasks j) held)
          (holding-is_waiting s.shared (s.tasks j) held)

    attended-IsLocked : (i : ℕ) (s : System) → IsLocked s → IsLocked (attended i s)
    attended-IsLocked i s = turn-IsLocked services client (move i (outcome s.shared (s.tasks i))) s

    -- The lock that a task holds is given back.
    attend-releases :
        (j n : ℕ) (s : System)
        → IsLocked s
        → s.shared.refresh_lock ≡ some j
        → rank (s.tasks j) ≤ n
        → (k : ℕ) × (k ≤ n) × ((attend j k s).shared.refresh_lock ≡ none)
    attend-releases j zero s locks mine bound =
        let less = held-rank j s locks mine in let e : ⊥ = omega arith in absurd e
    attend-releases j (suc n) s locks mine bound =
        let less = held-rank j s locks mine in
        elim (mine-after j s mine) [
          | inr given ↦ (1, omega arith, given)
          | inl kept ↦
              let (k, le, given) =
                attend-releases j n (attended j s) (attended-IsLocked j s locks) kept
                  (omega arith) in
              (suc k, omega arith, given)
        ]

    free-rank :
        (i : ℕ) (s : System)
        → IsLocked s
        → (s.shared.refresh_lock ≡ none) ⊎ (s.shared.refresh_lock ≡ some i)
        → is_end (s.tasks i) ≡ false
        → rank ((attended i s).tasks i) < rank (s.tasks i)
    free-rank i s locks free going =
        attended-rank i s going (free-is_waiting i s.shared (s.tasks i) (locks i) free)

    -- A task that need not wait comes to its end.
    attend-ends :
        (i n : ℕ) (s : System)
        → IsLocked s
        → (s.shared.refresh_lock ≡ none) ⊎ (s.shared.refresh_lock ≡ some i)
        → rank (s.tasks i) ≤ n
        → (k : ℕ) × (k ≤ n) × (is_end ((attend i k s).tasks i) ≡ true)
    attend-ends i zero s locks free bound = elim (Bool-cases (is_end (s.tasks i))) [
      | inl done ↦ (0, omega arith, done)
      | inr going ↦ let less = free-rank i s locks free going in let e : ⊥ = omega arith in absurd e
    ]
    attend-ends i (suc n) s locks free bound = elim (Bool-cases (is_end (s.tasks i))) [
      | inl done ↦ (0, omega arith, done)
      | inr going ↦
          let less = free-rank i s locks free going in
          let (k, le, done) =
            attend-ends i n (attended i s) (attended-IsLocked i s locks) (free-after i s free)
              (omega arith) in
          (suc k, omega arith, done)
    ]

    attend-IsLocked : (j k : ℕ) (s : System) → IsLocked s → IsLocked (attend j k s)
    attend-IsLocked j zero s locks = locks
    attend-IsLocked j (suc k) s locks =
        attend-IsLocked j k (attended j s) (attended-IsLocked j s locks)

    locked_end :
        (i : ℕ) (s : System) (l : Option ℕ) → s.shared.refresh_lock ≡ l → IsLocked s → Ends i s
    locked_end i s none free locks =
        let (n, le, done) = attend-ends i 25 s locks (inl free) (rank-bound (s.tasks i)) in
        (i, 0, n, inl refl, omega arith, le, done)
    locked_end i s (some j) taken locks = elim (Bool-cases (j == i)) [
      | inl same ↦
          let mine : s.shared.refresh_lock ≡ some i = taken ∙ ap some ((==_iff j i).0 same) in
          let (n, le, done) = attend-ends i 25 s locks (inr mine) (rank-bound (s.tasks i)) in
          (i, 0, n, inl refl, omega arith, le, done)
      | inr other ↦
          let (k, le, given) = attend-releases j 25 s locks taken (rank-bound (s.tasks j)) in
          let s1 = attend j k s in
          let (n, le', done) =
            attend-ends i 25 s1 (attend-IsLocked j k s locks) (inl given)
              (rank-bound (s1.tasks i)) in
          (j, k, n, inr (taken, λ e. let x = (==_iff j i).1 e in cc), le, le', done)
    ]

    -- From every state that the tasks can reach, each task comes to an end, which is an answer, a
    -- panic or rest, by at most 25 moves of another task that has refresh_lock, where one has it, and
    -- then at most 25 of its own, whatever the outcomes are of what these two wait for.
    pub fetch_secrets-Ends :
        (turns : List Turn) (session : Session) (clock i : ℕ)
        → Ends i (run services client turns (at_rest session clock))
    fetch_secrets-Ends turns session clock i =
        let s = run services client turns (at_rest session clock) in
        locked_end i s s.shared.refresh_lock refl
          (run-IsLocked services client turns (at_rest session clock) (λ k. (λ x. cc, λ x. cc)))
