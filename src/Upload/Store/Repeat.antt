-- ===== src/Upload/Store/Repeat.antt =====
-- `UploadRpc::Do` of code/src/long_connect/upload_rpc.cpp on a part that is there already, as when a
-- client sends a request again.
use network_disk_server.Base.{
  ℕ, ◌^◌, ◌≤◌, ◌<◌, ◌≡◌, refl, ap, ◌∙◌, true, false, Option, none, some, [], ◌∷◌, arith, ◌==◌,
  length, Bool-cases, inl, inr,
}
use network_disk_server.Base.Int.{pos}
use network_disk_server.Base.Distinct.{has}
use network_disk_server.Base.Fallible.{M, ◌>>=◌, >>=-run}
use network_disk_server.Base.Text.{Bytes, Lacks, c_str, bytes_eq_self}
use network_disk_server.FileSys.{write, write_len, mkdir, exist_dir, exist_file}
use network_disk_server.Shell.{md5_sum}
use network_disk_server.Upload.Messages.{Response, answer, already}
use network_disk_server.Upload.{
  do_upload, after_mkdir, admit_part, make_upload_dirs, store_part, rewrite_part, write_part,
  verify_part, check_arrival, all_part_arrived, usr_files_dir, file_dir,
}
use network_disk_server.Upload.Store.{
  Parts, Stage, Acts, Same, IsUploadDir, base, part, path_of, temporary, indices, lookup,
}
use network_disk_server.Upload.Store.Calls.{
  Same-trans, mkdir-Same, make_upload_dirs-Same, md5_sum-part, all_part_arrived-part, write-block,
}
use network_disk_server.Upload.Store.Receive.{as_size-small}

-- Opening a part that is there does not change it, and a write of the bytes that it has to its front
-- leaves it as it is; `front` tells what part a descriptor is at the front of.
pub record Reopens (g : Stage) (front : g.State → ℕ → Option ℕ) : Type 0 where
  pub reopen_part :
      (s : g.State) (i : ℕ)
      → has i (indices (g.files s).parts) ≡ true
      → (fd : ℕ) × (t : g.State) × (g.host.open_create (c_str (path_of g i)) s ≡ (some fd, t))
        × Same g s t
        × (front t fd ≡ some i)
  pub overwrite_part :
      (s : g.State) (fd i : ℕ) (b : Bytes)
      → front s fd ≡ some i
      → lookup i (g.files s).parts ≡ some b
      → Same g s (g.host.write fd b s)

pub has-lookup : (i : ℕ) (b : Bytes) (ps : Parts) → lookup i ps ≡ some b → has i (indices ps) ≡ true
has-lookup i b [] e = cc
has-lookup i b ((k, c) ∷ ps) e = elim (Bool-cases (i == k)) [
  | inl same ↦ ground arith
  | inr other ↦ ground (arith, has-lookup i b ps (ground arith))
]

module _ (g : Stage) (acts : Acts g) (front : g.State → ℕ → Option ℕ) (opens : Reopens g front)
    (small : g.shard < 2 ^ 31) (i : ℕ) (body : Bytes) (clean : Lacks 0 body)
    (short : length body ≤ write_len) (response : Response) where
  open g use {State, host}

  -- The part is there, and another one is missing.
  abbrev Waits : State → Type 0
  Waits s =
      ((g.files s).stored ≡ none)
      × (lookup i (g.files s).parts ≡ some body)
      × ((g.shard == length (g.files s).parts) ≡ false)

  Waits-Same : (s t : State) → Same g s t → Waits s → Waits t
  Waits-Same s t (same, kept) (gone, there, more) = (
    ap (λ f. f.stored) same ∙ gone,
    ap (λ f. lookup i f.parts) same ∙ there,
    ap (λ f. g.shard == length f.parts) same ∙ more,
  )

  abbrev Repeats : M State Response → State → Type 0
  Repeats m s = (t : State) × (m s ≡ some (answer response true "success", t)) × Same g s t

  -- A step that changes nothing, before one that repeats the part.
  after_Same :
      {A : Type 0} (m : M State A) (f : A → M State Response) (a : A) (s u : State)
      → m s ≡ some (a, u)
      → Same g s u
      → Repeats (f a) u
      → Repeats (m >>= f) s
  after_Same m f a s u first same (t, ran, same') =
      (t, >>=-run m f first ∙ ran, Same-trans g acts same same')

  write-Same :
      (s : State)
      → Waits s
      → (t : State) × (write host body (path_of g i) s ≡ some (pos 0, t)) × Same g s t
  write-Same s (gone, there, more) =
      let (fd, s1, opened, same, at) =
        opens.reopen_part s i (has-lookup i body (g.files s).parts there) in
      let same' =
        opens.overwrite_part s1 fd i body at (ap (λ f. lookup i f.parts) same.0 ∙ there) in
      let same'' = acts.close_part (host.write fd body s1) fd in
      (
        host.close fd (host.write fd body s1),
        write-block host body (path_of g i) fd s s1 opened short clean,
        Same-trans g acts (Same-trans g acts same same') same'',
      )

  listed :
      (s : State) (ps : Parts)
      → (g.files s).parts ≡ ps
      → lookup i ps ≡ some body
      → (t : State) × (all_part_arrived host (temporary g) g.shard s
          ≡ some (g.shard == length ps, t))
        × Same g s t
  listed s [] e there = absurd (ground arith)
  listed s ((k, b) ∷ rest) e there =
      let (t, looked, same) = all_part_arrived-part g acts s k b rest e in
      (
        t,
        looked ∙ ap (λ n. some (n == length ((k, b) ∷ rest), t)) (as_size-small g.shard small),
        same,
      )

  check_arrival-Repeats :
      (r : Response) (s : State)
      → answer r true "success" ≡ answer response true "success"
      → Waits s
      → Repeats (check_arrival host g.flags (base g) (part g i body) r) s
  unfolding check_arrival
  check_arrival-Repeats r s same_answer (gone, there, more) =
      let (t, looked, same) = listed s (g.files s).parts refl there in
      (
        t,
        >>=-run (all_part_arrived host (temporary g) g.shard) _
              (looked ∙ ap (λ b. some (b, t)) more)
            ∙ ap (λ a. some (a, t)) same_answer,
        same,
      )

  verify_part-Repeats :
      (r : Response) (s : State)
      → answer r true "success" ≡ answer response true "success"
      → Waits s
      → Repeats (verify_part host g.flags (base g) (part g i body) r) s
  unfolding verify_part
  verify_part-Repeats r s same_answer waits =
      let (u, summed, same) = md5_sum-part g acts s i body waits.1 in
      let agree = bytes_eq_self (g.digest body) in
      after_Same (md5_sum host (path_of g i) []) _ (pos 0, g.digest body) s u summed same
        (rw agree (check_arrival-Repeats r u same_answer (Waits-Same s u same waits)))

  write_part-Repeats :
      (r : Response) (s : State)
      → answer r true "success" ≡ answer response true "success"
      → Waits s
      → Repeats (write_part host g.flags (base g) (part g i body) r) s
  unfolding write_part
  write_part-Repeats r s same_answer waits =
      let (u, wrote, same) = write-Same s waits in
      after_Same (write host body (path_of g i)) _ (pos 0) s u wrote same
        (verify_part-Repeats r u same_answer (Waits-Same s u same waits))

  store_part-Repeats :
      (s : State) → Waits s → Repeats (store_part host g.flags (base g) (part g i body) response) s
  unfolding store_part rewrite_part exist_file
  store_part-Repeats s waits =
      let found = acts.look_part s i ∙ has-lookup i body (g.files s).parts waits.1 in
      let (u, summed, same) = md5_sum-part g acts s i body waits.1 in
      let agree = bytes_eq_self (g.digest body) in
      rw found (
        after_Same (md5_sum host (path_of g i) []) _ (pos 0, g.digest body) s u summed same
          (rw agree (write_part-Repeats (already response) u refl (Waits-Same s u same waits))))

  after_mkdir-Repeats :
      (s : State) → Waits s → Repeats (after_mkdir host g.flags (base g) (part g i body) response) s
  unfolding after_mkdir exist_dir admit_part
  after_mkdir-Repeats s waits =
      let (u, looked, same) = acts.not_stored s waits.0 in
      let waits' = Waits-Same s u same waits in
      let (v, made, same') = make_upload_dirs-Same g acts i body u in
      after_Same (exist_dir host (file_dir host g.flags (base g) (part g i body))) _ false s u
        (rw looked refl) same
        (after_Same (make_upload_dirs host g.flags (base g) (part g i body)) _ false u v made same'
          (store_part-Repeats v (Waits-Same u v same' waits')))

  -- On a machine that keeps the parts of an upload (`Acts`, with a NUL at the end of the unset array
  -- of `ShellOut`) and lets them be opened again (`Reopens`), with fewer than 2 ^ 31 parts, the file
  -- not in the store and another part missing: the request for a part that is there with the same
  -- body, of at most 4096 bytes without a NUL, is answered with success and changes neither a file
  -- nor a count.
  pub do_upload-Repeats :
      (s : State)
      → (g.files s).stored ≡ none
      → lookup i (g.files s).parts ≡ some body
      → (g.shard == length (g.files s).parts) ≡ false
      → (t : State) × (do_upload host g.flags (base g) (part g i body) response s
          ≡ some (answer response true "success", t))
        × Same g s t
  unfolding do_upload
  do_upload-Repeats s gone there more =
      let (u, made, same) = mkdir-Same g acts s _ IsUploadDir.links in
      after_Same (mkdir host (usr_files_dir host g.flags (base g) (part g i body))) _ (pos 0) s u
        made same (after_mkdir-Repeats u (Waits-Same s u same (gone, there, more)))
