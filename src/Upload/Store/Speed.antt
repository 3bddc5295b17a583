-- ===== src/Upload/Store/Speed.antt =====
-- `UploadRpc::Do` of code/src/long_connect/upload_rpc.cpp on a file that is in the store already.
use network_disk_server.Base.{ℕ, ◌≡◌, ap, ◌∙◌, true, some, arith}
use network_disk_server.Base.Text.{Bytes}
use network_disk_server.FileSys.{exist_dir}
use network_disk_server.Upload.Messages.{Response, answer}
use network_disk_server.Upload.{do_upload, after_mkdir, speed_upload}
use network_disk_server.Upload.References.{IsQuotable, counted}
use network_disk_server.Upload.Store.{Parts, Stage, Acts, IsUploadDir, base, part}
use network_disk_server.Upload.Store.Calls.{mkdir-Same}
use network_disk_server.Upload.Store.Links.{link_file-Counts}

module _ (g : Stage) (acts : Acts g) (q : IsQuotable g.sign) (q' : IsQuotable g.file_name) where
  open g use {State, host}

  -- On a machine that keeps the parts of an upload (`Acts`), with a sign and a name without quotes
  -- and backslashes: the request for a part of a file that is in the store is answered with success
  -- whatever its body is. It changes no file, and counts the sign once more.
  pub do_upload-Speeds :
      (i : ℕ) (body : Bytes) (response : Response) (old : Parts) (s : State)
      → (g.files s).stored ≡ some old
      → (t : State) × (do_upload host g.flags (base g) (part g i body) response s
          ≡ some (answer response true "file already in server, speed", t))
        × (g.files t ≡ g.files s)
        × ((x : Bytes) → g.references t x ≡ counted (g.references s) g.sign x)
  unfolding do_upload after_mkdir speed_upload exist_dir
  do_upload-Speeds i body response old s there =
      let (s1, made, (same, kept)) = mkdir-Same g acts s _ IsUploadDir.links in
      let (d, s2, looked, (same', kept')) =
        acts.is_stored s1 old (ap (λ f. f.stored) same ∙ there) in
      let (t, linked, still, after) = link_file-Counts g acts s2 i body q q' in
      (
        t,
        ground (arith, made, looked, linked),
        still ∙ same' ∙ same,
        λ x. after x ∙ ap (λ f. counted f g.sign x) (kept' ∙ kept),
      )
