-- ===== src/Upload/Store/Refuse.antt =====
-- `UploadRpc::Do` of code/src/long_connect/upload_rpc.cpp on a new part whose sign is wrong.
use network_disk_server.Base.{
  ℕ, ◌≤◌, ◌≡◌, refl, ap, ◌∙◌, false, none, some, [], ◌∷◌, ==_self, length, if◌then◌else◌,
}
use network_disk_server.Base.Int.{pos}
use network_disk_server.Base.Distinct.{has}
use network_disk_server.Base.Fallible.{M, ◌>>=◌, >>=-run}
use network_disk_server.Base.Text.{Bytes, Lacks, bytes_eq}
use network_disk_server.FileSys.{write, write_len, mkdir, exist_dir, exist_file}
use network_disk_server.Shell.{md5_sum}
use network_disk_server.Upload.Messages.{Request, Response, answer}
use network_disk_server.Upload.{
  do_upload, after_mkdir, admit_part, make_upload_dirs, store_part, write_part, verify_part,
  usr_files_dir, file_dir,
}
use network_disk_server.Upload.Store.{
  Files, Stage, Acts, Same, IsUploadDir, base, part, path_of, indices, lookup,
}
use network_disk_server.Upload.Store.Calls.{
  mkdir-Same, make_upload_dirs-Same, write-part, md5_sum-part,
}

-- The request for part `i` with any sign.
abbrev pub forged : (g : Stage) → ℕ → Bytes → Bytes → Request
forged g i body sign = record (part g i body) { part_sign = sign }

module _ (g : Stage) (acts : Acts g) (i : ℕ) (body sign : Bytes)
    (wrong : bytes_eq (g.digest body) sign ≡ false) (clean : Lacks 0 body)
    (short : length body ≤ write_len) (response : Response) where
  open g use {State, host}

  abbrev with_part : Files → Files
  with_part f = record f { parts = (i, body) ∷ f.parts }

  -- A run that refuses the part and keeps it.
  abbrev Refuses : M State Response → State → Type 0
  Refuses m s =
      (t : State) × (m s ≡ some (answer response false "part sign check error", t))
      × (g.files t ≡ with_part (g.files s))
      × (g.references t ≡ g.references s)

  -- A step that changes nothing, before one that refuses the part.
  after_Same :
      {A : Type 0} (m : M State A) (f : A → M State Response) (a : A) (s u : State)
      → m s ≡ some (a, u)
      → Same g s u
      → Refuses (f a) u
      → Refuses (m >>= f) s
  after_Same m f a s u first (same, kept) (t, ran, made, still) =
      (t, >>=-run m f first ∙ ran, made ∙ ap with_part same, still ∙ kept)

  write_part-Refuses :
      (s : State)
      → has i (indices (g.files s).parts) ≡ false
      → Refuses (write_part host g.flags (base g) (forged g i body sign) response) s
  unfolding write_part verify_part
  write_part-Refuses s new =
      let (u, wrote, made, kept) = write-part g acts s i body new clean short in
      let found : lookup i (g.files u).parts ≡ some body =
        ap (λ f. lookup i f.parts) made
        ∙ ap (λ b. if b then some body else lookup i (g.files s).parts) (==_self i) in
      let (t, summed, (same, kept')) = md5_sum-part g acts u i body found in
      (
        t,
        >>=-run (write host body (path_of g i)) _ wrote
            ∙ >>=-run (md5_sum host (path_of g i) []) _ summed
            ∙ rw wrong refl,
        same ∙ made,
        kept' ∙ kept,
      )

  store_part-Refuses :
      (s : State)
      → has i (indices (g.files s).parts) ≡ false
      → Refuses (store_part host g.flags (base g) (forged g i body sign) response) s
  unfolding store_part exist_file
  store_part-Refuses s new =
      let (t, ran, made, still) = write_part-Refuses s new in
      let missing = acts.look_part s i ∙ new in (t, rw missing ran, made, still)

  admit_part-Refuses :
      (s : State)
      → has i (indices (g.files s).parts) ≡ false
      → Refuses (admit_part host g.flags (base g) (forged g i body sign) response) s
  unfolding admit_part make_upload_dirs
  admit_part-Refuses s new =
      let (u, made, same) = make_upload_dirs-Same g acts i body s in
      after_Same (make_upload_dirs host g.flags (base g) (forged g i body sign)) _ false s u made
        same (store_part-Refuses u (ap (λ f. has i (indices f.parts)) same.0 ∙ new))

  after_mkdir-Refuses :
      (s : State)
      → (g.files s).stored ≡ none
      → has i (indices (g.files s).parts) ≡ false
      → Refuses (after_mkdir host g.flags (base g) (forged g i body sign) response) s
  unfolding after_mkdir exist_dir
  after_mkdir-Refuses s gone new =
      let (u, looked, same) = acts.not_stored s gone in
      after_Same (exist_dir host (file_dir host g.flags (base g) (part g i body))) _ false s u
        (rw looked refl) same
        (admit_part-Refuses u (ap (λ f. has i (indices f.parts)) same.0 ∙ new))

  -- On a machine that keeps the parts of an upload (`Acts`), with the file not in the store: the
  -- request for a part that has not arrived before, with a body of at most 4096 bytes without a NUL
  -- and a wrong sign, is refused, and its body is among the parts of the file all the same.
  pub do_upload-Refuses :
      (s : State)
      → (g.files s).stored ≡ none
      → has i (indices (g.files s).parts) ≡ false
      → (t : State) × (do_upload host g.flags (base g) (forged g i body sign) response s
          ≡ some (answer response false "part sign check error", t))
        × (g.files t ≡ record (g.files s) { parts = (i, body) ∷ (g.files s).parts })
        × (g.references t ≡ g.references s)
  unfolding do_upload
  do_upload-Refuses s gone new =
      let (u, made, same) = mkdir-Same g acts s _ IsUploadDir.links in
      after_Same (mkdir host (usr_files_dir host g.flags (base g) (part g i body))) _ (pos 0) s u
        made same
        (after_mkdir-Refuses u (ap (λ f. f.stored) same.0 ∙ gone)
          (ap (λ f. has i (indices f.parts)) same.0 ∙ new))
