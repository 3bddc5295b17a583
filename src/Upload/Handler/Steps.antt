-- ===== src/Upload/Handler/Steps.antt =====
-- What a step of `UploadRpc::Do` of code/src/long_connect/upload_rpc.cpp does to the directories of an
-- upload, from the check of its part to the move of all parts.
use network_disk_server.Base.{sym, ℕ, ◌^◌, ◌<◌, ◌≡◌, refl, ◌∙◌, none, some, [], ◌∷◌, arith, length}
use network_disk_server.Base.Fallible.{>>=-run}
use network_disk_server.Base.Text.{Bytes, bytes_eq_self}
use network_disk_server.Shell.{md5_sum}
use network_disk_server.Upload.Handler.{HandlerPhase, verifies, arrives, handler_step}
use network_disk_server.Upload.Handler.Begins.{Passes}
use network_disk_server.Upload.Messages.{Response}
use network_disk_server.Upload.Publish.{looks, moves, joins, arrival_step}
use network_disk_server.Upload.Race.{links}
use network_disk_server.Upload.Store.{StartsEmpty, Parts, Stage, Acts, base, part, path_of, lookup}
use network_disk_server.Upload.Store.Calls.{md5_sum-part, all_part_arrived-part, shell_out-mv}
use network_disk_server.Upload.Store.Receive.{as_size-small}

module _ (g : Stage) (acts : Acts g) (i : ℕ) (body : Bytes) (response : Response) where
  open g use {State, host}

  -- The sign of a part that is there is right.
  pub verifies-Passes :
      (r : Response) (s : State)
      → lookup i (g.files s).parts ≡ some body
      → Passes g acts i body response (verifies r) (arrives r looks) s
  unfolding handler_step
  verifies-Passes r s there =
      let (t, summed, same) = md5_sum-part g acts s i body there in
      let agree = bytes_eq_self (g.digest body) in
      (t, >>=-run (md5_sum host (path_of g i) []) _ summed ∙ rw agree refl, same)

  -- The test of the parts when all are there.
  pub looks-All :
      g.shard < 2 ^ 31
      → (r : Response) (s : State) (k : ℕ) (b : Bytes) (tl : Parts)
      → (g.files s).parts ≡ (k, b) ∷ tl
      → g.shard ≡ length ((k, b) ∷ tl)
      → Passes g acts i body response (arrives r looks) (arrives r moves) s
  unfolding handler_step arrival_step
  looks-All small r s k b tl there full =
      let (t, looked, same) = all_part_arrived-part g acts s k b tl there in
      (t, ground (arith, looked, as_size-small g.shard small, full), same)

  -- The move of all parts to the store.
  abbrev pub Moves : HandlerPhase → HandlerPhase → Parts → State → Type 0
  Moves p r all s =
      (t : State) × (handler_step host g.flags (base g) (part g i body) response p s ≡ some (r, t))
      × (g.files t ≡ record (g.files s) { parts = []; stored = some all })
      × (g.references t ≡ g.references s)

  pub moves-Moves :
      StartsEmpty host
      → (r : Response) (s : State) (k : ℕ) (b : Bytes) (tl : Parts)
      → (g.files s).parts ≡ (k, b) ∷ tl
      → (g.files s).stored ≡ none
      → Moves (arrives r moves) (arrives r (joins links)) ((k, b) ∷ tl) s
  unfolding handler_step arrival_step
  moves-Moves empty r s k b tl there gone =
      let (text, t, ran, ends, moved, kept) = shell_out-mv g acts s k b tl gone there in
      let nothing : some text ≡ some [] = sym ends ∙ empty t in
      (t, ground (arith, ran, nothing), moved, kept)
