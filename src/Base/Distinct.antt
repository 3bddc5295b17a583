-- ===== src/Base/Distinct.antt =====
-- Lists of numbers as sets.
use Prim.Native.Nat.{ℕ, zero, suc}
use mathlib.Core.Path.{◌≡◌}
use mathlib.Core.Bool.{Bool, true, false, not, ◌&&◌, ◌||◌}
use mathlib.Core.List.{List, [], ◌∷◌}
use mathlib.Core.Option.{some}
use native.Mathlib.Omega.{arith}
use network_disk_server.Base.Tests.{◌==◌}
use network_disk_server.Base.Lists.{get_elem?}

abbrev pub has : ℕ → List ℕ → Bool
has i [] = false
has i (x ∷ xs) = i == x || has i xs

abbrev pub distinct : List ℕ → Bool
distinct [] = true
distinct (x ∷ xs) = not (has x xs) && distinct xs

pub has-get_elem? : (xs : List ℕ) (i x : ℕ) → get_elem? xs i ≡ some x → has x xs ≡ true
has-get_elem? [] i x e = cc
has-get_elem? (y ∷ xs) zero x e = ground arith
has-get_elem? (y ∷ xs) (suc i) x e = ground (arith, has-get_elem? xs i x e)
