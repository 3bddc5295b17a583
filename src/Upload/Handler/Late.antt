-- ===== src/Upload/Handler/Late.antt =====
-- What a step of `UploadRpc::Do` of code/src/long_connect/upload_rpc.cpp does when the file is in the
-- store, moved by another request.
use network_disk_server.Base.{ℕ, ◌≡◌, refl, ◌∙◌, false, some, [], ◌∷◌, ◌++◌, arith, length}
use network_disk_server.Base.Fallible.{>>=-run}
use network_disk_server.Base.Text.{Bytes, bytes_eq, codes}
use network_disk_server.Shell.{md5_sum, shell_out}
use network_disk_server.Shell.Output.{shell_out-silent}
use network_disk_server.Upload.Handler.{verifies, replies, handler_step}
use network_disk_server.Upload.Handler.Begins.{Passes}
use network_disk_server.Upload.Handler.Situation.{Unsummed}
use network_disk_server.Upload.Messages.{Response, answer}
use network_disk_server.Upload.Store.{StartsEmpty, Parts, Stage, Acts, path_of}

no_digest : (d : Bytes) → length d ≡ 32 → bytes_eq [] d ≡ false
unfolding bytes_eq
no_digest [] size = absurd (omega (arith, size))
no_digest (c ∷ d) size = refl

module _ (g : Stage) (acts : Acts g) (i : ℕ) (body : Bytes) (response : Response) where
  open g use {State, host}

  -- A part that has gone to the store has no sign, and its request is refused.
  pub verifies-Refuses :
      Unsummed g
      → StartsEmpty host
      → (r : Response) (s : State) (all : Parts) → (g.files s).parts ≡ []
      → (g.files s).stored ≡ some all
      → Passes g acts i body response
          (verifies r)
          (replies (answer r false "part sign check error"))
          s
  unfolding handler_step md5_sum
  verifies-Refuses lost empty r s all gone there =
      let (t, quiet, same) = lost.sum_moved s all i there gone in
      let ran = shell_out-silent host _ [] [] s t quiet [] refl (empty t) in
      let wrong = no_digest (g.digest body) (acts.digest_size body).0 in
      (
        t,
        >>=-run (md5_sum host (path_of g i) []) _
              (>>=-run (shell_out host (codes "md5sum " ++ path_of g i) []) _ ran)
            ∙ rw wrong refl,
        same,
      )
