-- ===== src/Base/Runs.antt =====
-- The steps of one thread, one after another.
use Prim.Native.Nat.{ℕ, zero, suc, ◌+◌}
use native.Mathlib.Omega.{arith}
use mathlib.Core.Path.{◌≡◌, ap, ◌∙◌}
use mathlib.Core.Option.{none, some}
use network_disk_server.Base.{inl, inr, Option-cases}
use network_disk_server.Base.Fallible.{M, pure, ◌>>=◌, >>=-run, >>=-fault}

module _ {S P : Type 0} (step : P → M S P) where
  -- So many steps.
  unfoldable pub runs : ℕ → P → M S P
  runs zero p = pure p
  runs (suc n) p = do p' ← step p; runs n p'

  pub runs-step :
      (n : ℕ) (p p' : P) (s t : S) → step p s ≡ some (p', t) → runs (suc n) p s ≡ runs n p' t
  unfolding runs
  runs-step n p p' s t e = >>=-run (step p) (runs n) e

  pub runs-stuck : (n : ℕ) (p : P) (s : S) → step p s ≡ none → runs (suc n) p s ≡ none
  unfolding runs
  runs-stuck n p s e = >>=-fault (step p) (runs n) e

  pub runs_add : (n k : ℕ) (p : P) (s : S) → runs (n + k) p s ≡ (runs n p >>= runs k) s
  unfolding runs
  runs_add zero k p s = let e : 0 + k ≡ k = omega arith in ap (λ m. runs m p s) e
  runs_add (suc n) k p s =
      let e : suc n + k ≡ suc (n + k) = omega arith in
      ap (λ m. runs m p s) e ∙ elim (Option-cases (step p s)) [
        | inl stop ↦ runs-stuck (n + k) p s stop ∙ ground arith
        | inr ((p', u), e) ↦ runs-step (n + k) p p' s u e ∙ runs_add n k p' u ∙ ground arith
      ]
