-- ===== src/Upload/Store/Calls.antt =====
-- The steps of `UploadRpc::Do` of code/src/long_connect/upload_rpc.cpp on the parts of one upload.
use network_disk_server.Base.{
  ℕ, zero, suc, ◌≤◌, ◌≡◌, refl, ap, ◌∙◌, false, none, some, [], ◌∷◌, ◌++◌, arith, inl, inr, ◌==◌,
  ge→ltb, length, take, take_all, length-append,
}
use network_disk_server.Base.Int.{pos, to_int32-small}
use network_disk_server.Base.Distinct.{has}
use network_disk_server.Base.Text.{Bytes, c_str, Lacks, c_str_lacking}
use network_disk_server.Host.{Host}
use network_disk_server.Shell.{string_of, md5_sum, shell_out}
use network_disk_server.Shell.Output.{fresh_array, md5_sum-digest, shell_out-silent}
use network_disk_server.FileSys.{write, write_all, write_loop, write_len, mkdir, ls_dir}
use network_disk_server.Upload.{make_upload_dirs, all_part_arrived, as_size, mv_cmd}
use network_disk_server.Upload.Store.{
  Files, Parts, Stage, Acts, Same, IsUploadDir, base, part, path_of, temporary, indices, lookup,
}

-- A text of one block is written by one call.
write_loop-block :
    (h : Host) (fuel fd : ℕ) (b : Bytes) (len : ℕ) (s : h.State)
    → len ≤ write_len
    → write_loop h fuel fd b len s ≡ some (tt, h.write fd (take len b) s)
unfolding write_loop
write_loop-block h zero fd b len s short = refl
write_loop-block h (suc fuel) fd b len s short = rw (ge→ltb write_len len short) refl

pub write-block :
    (h : Host) (b path : Bytes) (fd : ℕ) (s t : h.State)
    → h.open_create (c_str path) s ≡ (some fd, t)
    → length b ≤ write_len
    → Lacks 0 b
    → write h b path s ≡ some (pos 0, h.close fd (h.write fd b t))
unfolding write write_all
write-block h b path fd s t opened short clean =
    let run =
      write_loop-block h (length (c_str b)) fd (c_str b) (length (c_str b)) t
        (rw (c_str_lacking b clean) short) in
    let whole : take (length (c_str b)) (c_str b) ≡ b =
      take_all (length (c_str b)) (c_str b) (omega arith) ∙ c_str_lacking b clean in
    let fits =
      to_int32-small (length (c_str b)) (rw (c_str_lacking b clean) (omega (arith, short))) in
    rw (opened, fits) (ground (arith, run, whole))

module _ (g : Stage) (acts : Acts g) where
  open g use {State, host}

  pub Same-trans : {s t u : State} → Same g s t → Same g t u → Same g s u
  Same-trans (f, r) (f', r') = (f' ∙ f, r' ∙ r)

  pub mkdir-Same :
      (s : State) (path : Bytes)
      → IsUploadDir g path
      → (t : State) × (mkdir host path s ≡ some (pos 0, t)) × Same g s t
  unfolding mkdir
  mkdir-Same s path known =
      let (t, made, kept) = acts.make_dir s path known in
      (t, elim made [ inl e ↦ ground (arith, e) | inr e ↦ ground (arith, e) ], kept)

  pub make_upload_dirs-Same :
      (i : ℕ) (body : Bytes) (s : State)
      → (t : State) × (make_upload_dirs host g.flags (base g) (part g i body) s ≡ some (false, t))
        × Same g s t
  unfolding make_upload_dirs
  make_upload_dirs-Same i body s =
      let (s1, a, k) = mkdir-Same s _ IsUploadDir.home in
      let (s2, b, k') = mkdir-Same s1 _ IsUploadDir.uploads in
      let (s3, c, k'') = mkdir-Same s2 _ IsUploadDir.parts in
      (s3, ground (arith, a, b, c), Same-trans k (Same-trans k' k''))

  -- A new part of at most 4096 bytes without a NUL is written whole.
  pub write-part :
      (s : State) (i : ℕ) (body : Bytes)
      → has i (indices (g.files s).parts) ≡ false
      → Lacks 0 body
      → length body ≤ write_len
      → (t : State) × (write host body (path_of g i) s ≡ some (pos 0, t))
        × (g.files t ≡ record (g.files s) { parts = (i, body) ∷ (g.files s).parts })
        × (g.references t ≡ g.references s)
  write-part s i body new clean short =
      let (fd, s1, opened, made, kept1, at) = acts.open_part s i new in
      let (wrote, kept2) =
        acts.write_part s1 fd i [] body (g.files s).parts at (ap (λ f. f.parts) made) in
      let (closed, kept3) = acts.close_part (host.write fd body s1) fd in
      (
        host.close fd (host.write fd body s1),
        write-block host body (path_of g i) fd s s1 opened short clean,
        closed
            ∙ wrote
            ∙ ap (λ (f : Files). record f { parts = (i, body) ∷ (g.files s).parts }) made,
        kept3 ∙ kept2 ∙ kept1,
      )

  pub md5_sum-part :
      (s : State) (i : ℕ) (b : Bytes)
      → lookup i (g.files s).parts ≡ some b
      → (t : State) × (md5_sum host (path_of g i) [] s ≡ some ((pos 0, g.digest b), t)) × Same g s t
  md5_sum-part s i b there =
      let (t, line, printed, clean, short, kept) = acts.sum_part s i b there in
      let (size, plain) = acts.digest_size b in
      let total = length-append (g.digest b) line in
      let (tail, ends) =
        acts.ended t (length (g.digest b ++ line)) (omega (arith, total, size, short)) in
      (
        t,
        md5_sum-digest host (path_of g i) [] (g.digest b) line tail s t printed size plain clean
            (omega (arith, total, size, short)) ends,
        kept,
      )

  pub all_part_arrived-part :
      (s : State) (i : ℕ) (b : Bytes) (rest : Parts)
      → (g.files s).parts ≡ (i, b) ∷ rest
      → (t : State) × (all_part_arrived host (temporary g) g.shard s
          ≡ some (as_size g.shard == length ((i, b) ∷ rest), t))
        × Same g s t
  unfolding all_part_arrived ls_dir
  all_part_arrived-part s i b rest there =
      let (d, u, t, names, opened, listed, count, kept) = acts.list_parts s i b rest there in
      (t, rw (opened, listed, count), kept)

  -- The silent `mv` gives what the array began with.
  pub shell_out-mv :
      (s : State) (i : ℕ) (b : Bytes) (rest : Parts)
      → (g.files s).stored ≡ none
      → (g.files s).parts ≡ (i, b) ∷ rest
      → (text : Bytes) × (t : State) × (shell_out host
            (mv_cmd host g.flags (base g) (part g 0 []))
            []
            s
          ≡ some ((pos 0, text), t))
        × (string_of (fresh_array host t) ≡ some text)
        × (g.files t ≡ record (g.files s) { parts = []; stored = some ((i, b) ∷ rest) })
        × (g.references t ≡ g.references s)
  shell_out-mv s i b rest gone there =
      let (t, quiet, moved, kept) = acts.move_parts s i b rest gone there in
      let (text, ends) = acts.ended t 0 (omega arith) in
      (text, t, shell_out-silent host _ [] [] s t quiet text refl ends, ends, moved, kept)
