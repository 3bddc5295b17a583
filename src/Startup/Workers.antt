-- ===== src/Startup/Workers.antt =====
-- The workers that `ShortConnectionServer::Run` of code/src/short_connect/short_connection.cpp makes.
use network_disk_server.Base.{ℕ, ◌≡◌, Bool, true, Option, some, List, [], ◌∷◌, ◌==◌, if◌then◌else◌}
use network_disk_server.Control
use network_disk_server.Control.{Control}
use network_disk_server.Startup.{Sockets, new_mpthread}

module _ (n : Sockets) where
  open n use {State, host, pipe}

  -- Each control comes out of `Init`.
  abbrev pub AllStarted : List Control → Type 0
  AllStarted [] = Unit {0}
  AllStarted (control ∷ controls) =
      ((s t : State) × (done done' : Bool) × (Control.init host done s
          ≡ some ((control, true, done'), t)))
      × AllStarted controls

  -- The machine gave the two ends of a pipe, the reading one first, and a worker was made for that one.
  abbrev pub Given : ℕ → ℕ → Type 0
  Given read_end write_end =
      (u v : State) × (done : Bool) × (made : Control × Bool) × ((pipe u).0
        ≡ some (read_end, write_end))
      × (new_mpthread n read_end done (pipe u).1 ≡ some (made, v))

  abbrev pub AllGiven : (ℕ → Option (ℕ × ℕ)) → Type 0
  AllGiven f = (k r w : ℕ) → f k ≡ some (r, w) → Given r w

  -- Each of these descriptors is the writing end of such a pipe.
  abbrev pub AllWrite : List ℕ → Type 0
  AllWrite [] = Unit {0}
  AllWrite (w ∷ ws) = ((r : ℕ) × Given r w) × AllWrite ws

  -- The descriptors of this round, before those of the later ones.
  abbrev at_round : ℕ → ℕ × ℕ → (ℕ → Option (ℕ × ℕ)) → ℕ → Option (ℕ × ℕ)
  at_round i ends f k = if k == i then some ends else f k
