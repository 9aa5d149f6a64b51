-- ===== src/Vault/Concurrent/Solo.antt =====
-- One task of src/vault/mod.rs that moves alone for a while, with time going by.
use vaultwarden_operator.Prelude.{ℕ, ◌≡◌, refl, ◌∙◌, ap, false, List, [], ◌∷◌, ◌++◌, ◌==◌, ==_refl}
use vaultwarden_operator.Auth.{Services}
use vaultwarden_operator.Vault.{VaultClient}
use vaultwarden_operator.Vault.Tasks.{Pc, Choice, Shared}
use vaultwarden_operator.Vault.Concurrent.{
  advance, System, Turn, tick, move, later, moved, turn, run,
}

-- The turns of task `i` alone: before each move some time goes by.
abbrev pub alone : ℕ → List (ℕ × Choice) → List Turn
alone i [] = []
alone i ((n, c) ∷ cs) = tick n ∷ move i c ∷ alone i cs

module _ {RsaPrivateKey : Type 0} (services : Services RsaPrivateKey) (client : VaultClient) where
  unfoldable pub solo : ℕ → List (ℕ × Choice) → Shared × Pc → Shared × Pc
  solo i [] r = r
  solo i ((n, c) ∷ cs) (m, p) = solo i cs (advance services client i c (later n m) p)

  pub solo-append :
      (i : ℕ) (cs ds : List (ℕ × Choice)) (r : Shared × Pc)
      → solo i (cs ++ ds) r ≡ solo i ds (solo i cs r)
  unfolding solo
  solo-append i [] ds r = refl
  solo-append i ((n, c) ∷ cs) ds (m, p) =
      solo-append i cs ds (advance services client i c (later n m) p)

  -- Two runs, one after the other.
  pub solo_trans :
      (i : ℕ) (cs ds : List (ℕ × Choice)) (r r1 r2 : Shared × Pc)
      → solo i cs r ≡ r1
      → solo i ds r1 ≡ r2
      → solo i (cs ++ ds) r ≡ r2
  solo_trans i cs ds r r1 r2 e f = solo-append i cs ds r ∙ ap (solo i ds) e ∙ f

  pub run-append :
      (xs ys : List Turn) (s : System)
      → run services client (xs ++ ys) s ≡ run services client ys (run services client xs s)
  unfolding run
  run-append [] ys s = refl
  run-append (x ∷ xs) ys s = run-append xs ys (turn services client x s)

  -- A run of one task changes what is shared and the task as `solo` does, and no other task.
  abbrev pub IsSolo : ℕ → System → Shared × Pc → System → Type 0
  IsSolo i s r s' =
      (s'.shared ≡ r.0) × (s'.tasks i ≡ r.1) × ((j : ℕ) → (i == j) ≡ false → s'.tasks j ≡ s.tasks j)

  pub run-solo :
      (i : ℕ) (cs : List (ℕ × Choice)) (s : System)
      → IsSolo i s (solo i cs (s.shared, s.tasks i)) (run services client (alone i cs) s)
  unfolding run turn solo
  run-solo i [] s = (refl, refl, λ j ne. refl)
  run-solo i ((n, c) ∷ cs) s =
      let r = advance services client i c (later n s.shared) (s.tasks i) in
      let s1 = moved (record { shared = later n s.shared; tasks = s.tasks }) i r in
      let own : s1.tasks i ≡ r.1 = rw (==_refl i) in
      let (shared, task, others) = run-solo i cs s1 in
      (
        shared ∙ ap (λ p. (solo i cs (r.0, p)).0) own,
        task ∙ ap (λ p. (solo i cs (r.0, p)).1) own,
        λ j ne. others j ne ∙ rw ne,
      )
