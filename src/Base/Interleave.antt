-- ===== src/Base/Interleave.antt =====
-- Two threads that share a state and run step by step, in the order that a schedule gives.
use Prim.Native.Nat.{ℕ, zero, suc, ◌-◌, ◌≤◌}
use native.Mathlib.Omega.{arith}
use mathlib.Core.Path.{◌≡◌, refl, ap, subst, ◌∙◌}
use mathlib.Core.Bool.{Bool, true, false}
use mathlib.Core.Option.{Option, none, some}
use mathlib.Core.List.{List, [], ◌∷◌}
use network_disk_server.Base.Runs.{runs}
use network_disk_server.Base.Fallible.{M, pure, ◌>>=◌, >>=-run, >>=-eq-some}

-- The state that a run ends in, if it ends.
abbrev state_of : {S R : Type 0} → Option (R × S) → S → S
state_of none s = s
state_of (some (r, t)) s = t

module _ {S P Q : Type 0} (step : P → M S P) (step' : Q → M S Q) where
  -- `true` lets the first thread make its next step, `false` the second.
  unfoldable pub interleave : List Bool → P → Q → M S (P × Q)
  interleave [] p q = pure (p, q)
  interleave (true ∷ schedule) p q = do p' ← step p; interleave schedule p' q
  interleave (false ∷ schedule) p q = do q' ← step' q; interleave schedule p q'

  -- What every step can make and keeps holds after every schedule, and none gets stuck.
  pub interleave-Keeps :
      (I : P → Q → S → Type 0)
      → ((p : P) (q : Q) (s : S)
          → I p q s
          → (p' : P) × (t : S) × (step p s ≡ some (p', t)) × I p' q t)
      → ((p : P) (q : Q) (s : S)
          → I p q s
          → (q' : Q) × (t : S) × (step' q s ≡ some (q', t)) × I p q' t)
      → (schedule : List Bool) (p : P) (q : Q) (s : S) → I p q s
      → (p' : P) × (q' : Q) × (t : S) × (interleave schedule p q s ≡ some ((p', q'), t)) × I p' q' t
  unfolding interleave
  interleave-Keeps I keep keep' [] p q s i = (p, q, s, refl, i)
  interleave-Keeps I keep keep' (true ∷ schedule) p q s i =
      let (p1, s1, run, i1) = keep p q s i in
      let (p', q', t, rest, j) = interleave-Keeps I keep keep' schedule p1 q s1 i1 in
      (p', q', t, >>=-run (step p) _ run ∙ rest, j)
  interleave-Keeps I keep keep' (false ∷ schedule) p q s i =
      let (q1, s1, run, i1) = keep' p q s i in
      let (p', q', t, rest, j) = interleave-Keeps I keep keep' schedule p q1 s1 i1 in
      (p', q', t, >>=-run (step' q) _ run ∙ rest, j)

  -- What every step that ends keeps holds after every schedule that ends.
  pub interleave-Stays :
      (I : S → Type 0)
      → ((p p' : P) (s t : S) → step p s ≡ some (p', t) → I s → I t)
      → ((q q' : Q) (s t : S) → step' q s ≡ some (q', t) → I s → I t)
      → (schedule : List Bool) (p : P) (q : Q) (s t : S) (r : P × Q)
      → interleave schedule p q s ≡ some (r, t)
      → I s
      → I t
  unfolding interleave
  interleave-Stays I keep keep' [] p q s t r run i = subst I (ap (λ o. state_of o s) run) i
  interleave-Stays I keep keep' (true ∷ schedule) p q s t r run i =
      let (p1, u, first, rest) = >>=-eq-some (step p) (λ p'. interleave schedule p' q) run in
      interleave-Stays I keep keep' schedule p1 q u t r rest (keep p p1 s u first i)
  interleave-Stays I keep keep' (false ∷ schedule) p q s t r run i =
      let (q1, u, first, rest) = >>=-eq-some (step' q) (λ q'. interleave schedule p q') run in
      interleave-Stays I keep keep' schedule p q1 u t r rest (keep' q q1 s u first i)

-- How many turns a schedule gives to the first thread, or to the second.
abbrev pub turns : Bool → List Bool → ℕ
turns who [] = 0
turns true (true ∷ schedule) = suc (turns true schedule)
turns true (false ∷ schedule) = turns true schedule
turns false (true ∷ schedule) = turns false schedule
turns false (false ∷ schedule) = suc (turns false schedule)

module _ {S P Q : Type 0} (step : P → M S P) (step' : Q → M S Q) (left : P → ℕ)
    (left' : Q → ℕ) where
  -- Where each step takes one off what is left to a thread, until nothing is, a schedule takes off as
  -- many as it gives turns.
  pub interleave-Falls :
      ((p p' : P) (s t : S) → step p s ≡ some (p', t) → left p' ≤ left p - 1)
      → ((q q' : Q) (s t : S) → step' q s ≡ some (q', t) → left' q' ≤ left' q - 1)
      → (schedule : List Bool) (p p' : P) (q q' : Q) (s t : S)
      → interleave step step' schedule p q s ≡ some ((p', q'), t)
      → (left p' ≤ left p - turns true schedule) × (left' q' ≤ left' q - turns false schedule)
  unfolding interleave
  interleave-Falls falls falls' [] p p' q q' s t run =
      let e : p ≡ p' = ground arith in
      let e' : q ≡ q' = ground arith in (omega (arith, ap left e), omega (arith, ap left' e'))
  interleave-Falls falls falls' (true ∷ schedule) p p' q q' s t run =
      let (p1, u, first, rest) =
        >>=-eq-some (step p) (λ p'. interleave step step' schedule p' q) run in
      let (a, b) = interleave-Falls falls falls' schedule p1 p' q q' u t rest in
      (omega (arith, a, falls p p1 s u first), b)
  interleave-Falls falls falls' (false ∷ schedule) p p' q q' s t run =
      let (q1, u, first, rest) =
        >>=-eq-some (step' q) (λ q'. interleave step step' schedule p q') run in
      let (a, b) = interleave-Falls falls falls' schedule p p' q1 q' u t rest in
      (a, omega (arith, b, falls' q q1 s u first))

-- A schedule that begins with so many turns of one thread.
abbrev pub again : ℕ → Bool → List Bool → List Bool
again zero who schedule = schedule
again (suc n) who schedule = who ∷ again n who schedule

module _ {S P Q : Type 0} (step : P → M S P) (step' : Q → M S Q) where
  pub interleave-true :
      (n : ℕ) (schedule : List Bool) (p p' : P) (q : Q) (s t : S)
      → runs step n p s ≡ some (p', t)
      → interleave step step' (again n true schedule) p q s ≡ interleave step step' schedule p' q t
  unfolding interleave runs
  interleave-true zero schedule p p' q s t run = ground arith
  interleave-true (suc n) schedule p p' q s t run =
      let (p1, u, first, rest) = >>=-eq-some (step p) (runs step n) run in
      >>=-run (step p) (λ p'. interleave step step' (again n true schedule) p' q) first
      ∙ interleave-true n schedule p1 p' q u t rest

  pub interleave-false :
      (n : ℕ) (schedule : List Bool) (p : P) (q q' : Q) (s t : S)
      → runs step' n q s ≡ some (q', t)
      → interleave step step' (again n false schedule) p q s ≡ interleave step step' schedule p q' t
  unfolding interleave runs
  interleave-false zero schedule p q q' s t run = ground arith
  interleave-false (suc n) schedule p q q' s t run =
      let (q1, u, first, rest) = >>=-eq-some (step' q) (runs step' n) run in
      >>=-run (step' q) (λ q'. interleave step step' (again n false schedule) p q') first
      ∙ interleave-false n schedule p q1 q' u t rest
