-- ===== src/Upload/Handler/Begins.antt =====
-- What a step of `UploadRpc::Do` of code/src/long_connect/upload_rpc.cpp does to the directories of an
-- upload, up to the write of a part that is new.
use network_disk_server.Base.{
  ap, arith, [], ge→ltb, take_all, ℕ, ◌≤◌, ◌≡◌, refl, ◌∙◌, false, none, some, ◌∷◌, length,
}
use network_disk_server.Base.Distinct.{has}
use network_disk_server.Base.Fallible.{>>=-run}
use network_disk_server.Base.Text.{Bytes, Lacks, c_str_lacking}
use network_disk_server.Base.Int.{to_int32-small}
use network_disk_server.Base.Runs.{runs}
use network_disk_server.FileSys.{write_len, mkdir, exist_dir, exist_file}
use network_disk_server.Upload.{make_upload_dirs, usr_files_dir}
use network_disk_server.Upload.Handler.{
  HandlerPhase, enters, checks, makes, finds, opens, verifies, handler_step,
}
use network_disk_server.Upload.Messages.{Response}
use network_disk_server.Upload.Store.{Files, Stage, Acts, Same, IsUploadDir, base, part, indices}
use network_disk_server.Upload.Store.Calls.{mkdir-Same, make_upload_dirs-Same}

module _ (g : Stage) (acts : Acts g) (i : ℕ) (body : Bytes) (response : Response) where
  open g use {State, host}

  -- A step that changes nothing of the upload.
  abbrev pub Passes : HandlerPhase → HandlerPhase → State → Type 0
  Passes p r s =
      (t : State) × (handler_step host g.flags (base g) (part g i body) response p s ≡ some (r, t))
      × Same g s t

  -- The steps up to the write of a part that is new, in a file that is not in the store.
  pub enters-Passes : (s : State) → Passes enters checks s
  unfolding handler_step
  enters-Passes s =
      let (t, made, same) = mkdir-Same g acts s _ IsUploadDir.links in
      (t, >>=-run (mkdir host (usr_files_dir host g.flags (base g) (part g i body))) _ made, same)

  pub checks-Passes : (s : State) → (g.files s).stored ≡ none → Passes checks makes s
  unfolding handler_step exist_dir
  checks-Passes s gone = let (t, looked, same) = acts.not_stored s gone in (t, rw looked refl, same)

  pub makes-Passes : (s : State) → Passes makes finds s
  unfolding handler_step
  makes-Passes s =
      let (t, made, same) = make_upload_dirs-Same g acts i body s in
      (t, >>=-run (make_upload_dirs host g.flags (base g) (part g i body)) _ made, same)

  pub finds-Passes :
      (s : State) → has i (indices (g.files s).parts) ≡ false → Passes finds (opens response) s
  unfolding handler_step exist_file
  finds-Passes s new = let missing = acts.look_part s i ∙ new in (s, rw missing refl, (refl, refl))

  -- The write of a new part of at most one block: the opening, one write, and the closing.
  pub writes-Adds :
      Lacks 0 body
      → length body ≤ write_len
      → (r : Response) (s : State) → has i (indices (g.files s).parts) ≡ false
      → (t : State) × (runs
            (handler_step host g.flags (base g) (part g i body) response)
            3
            (opens r)
            s
          ≡ some (verifies r, t))
        × (g.files t ≡ record (g.files s) { parts = (i, body) ∷ (g.files s).parts })
  unfolding runs handler_step
  writes-Adds clean short r s new =
      let (fd, s1, opened, made, kept1, at) = acts.open_part s i new in
      let (wrote, kept2) =
        acts.write_part s1 fd i [] body (g.files s).parts at (ap (λ f. f.parts) made) in
      let (closed, kept3) = acts.close_part (host.write fd body s1) fd in
      let text = c_str_lacking body clean in
      let fits = to_int32-small (length body) (omega (arith, short)) in
      let one_block = ge→ltb write_len (length body) short in
      let whole = take_all (length body) body (omega arith) in
      (
        host.close fd (host.write fd body s1),
        rw (opened, text, fits, one_block, text, whole) refl,
        closed
            ∙ wrote
            ∙ ap (λ (f : Files). record f { parts = (i, body) ∷ (g.files s).parts }) made,
      )
