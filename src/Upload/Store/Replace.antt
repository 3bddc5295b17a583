-- ===== src/Upload/Store/Replace.antt =====
-- `UploadRpc::Do` of code/src/long_connect/upload_rpc.cpp on a part that is there with another sign.
use mathlib.Core.Path.{ap₂}
use network_disk_server.Base.{
  Bool, true, ℕ, ◌^◌, ◌≤◌, ◌<◌, ◌≡◌, refl, ap, ◌∙◌, Bool, true, false, none, some, [], ◌∷◌, arith,
  ◌==◌, length, Bool-cases, inl, inr,
}
use network_disk_server.Base.Int.{pos}
use network_disk_server.Base.Distinct.{has}
use network_disk_server.Base.Fallible.{M, ◌>>=◌, ◌>>◌, >>=-run}
use network_disk_server.Base.Text.{Bytes, Lacks, c_str, bytes_eq}
use network_disk_server.Host.{Outcome}
use network_disk_server.FileSys.{write_len, mkdir, exist_dir, exist_file, delete_file}
use network_disk_server.Shell.{md5_sum}
use network_disk_server.Upload.Messages.{Response}
use network_disk_server.Upload.{
  do_upload, after_mkdir, admit_part, make_upload_dirs, store_part, rewrite_part, write_part,
  usr_files_dir, file_dir,
}
use network_disk_server.Upload.References.{IsQuotable}
use network_disk_server.Upload.Store.{
  Leftover, Files, Parts, Stage, Acts, Same, IsUploadDir, base, part, path_of, indices, lookup,
  received, without,
}
use network_disk_server.Upload.Store.Calls.{mkdir-Same, make_upload_dirs-Same, md5_sum-part}
use network_disk_server.Upload.Store.Receive.{counted_if, answer_if, write_part-Receives}
use network_disk_server.Upload.Store.Repeat.{has-lookup}

-- Removing the path of a part removes the part.
pub record Removes (g : Stage) : Type 0 where
  pub remove_part :
      (s : g.State) (i : ℕ)
      → (r : Outcome) × (t : g.State) × (g.host.remove (c_str (path_of g i)) s ≡ (r, t))
        × (g.files t ≡ record (g.files s) { parts = without i (g.files s).parts })
        × (g.references t ≡ g.references s)

has-without : (i : ℕ) (ps : Parts) → has i (indices (without i ps)) ≡ false
has-without i [] = refl
has-without i ((k, b) ∷ ps) = elim (Bool-cases (i == k)) [
  | inl same ↦ ground (arith, has-without i ps)
  | inr other ↦ ground (arith, has-without i ps)
]

module _ (g : Stage) (acts : Acts g) (removes : Removes g) (q : IsQuotable g.sign)
    (q' : IsQuotable g.file_name) (small : g.shard < 2 ^ 31) (i : ℕ) (body b : Bytes)
    (clean : Lacks 0 body) (short : length body ≤ write_len)
    (other : bytes_eq (g.digest b) (g.digest body) ≡ false) (response : Response) where
  open g use {State, host}

  -- The files without the old part.
  abbrev cleared : Files → Files
  cleared f = record f { parts = without i f.parts }

  abbrev last_of : Files → Bool
  last_of f = g.shard == length ((i, body) ∷ without i f.parts)

  -- What a step does that ends with the part replaced.
  abbrev Replaces : M State Response → State → Type 0
  Replaces m s =
      (noisy : Bool) × (t : State) × (m s
        ≡ some (answer_if g acts q q' small i body response (last_of (g.files s)) noisy, t))
      × (g.files t ≡ received g.shard i body (cleared (g.files s)))
      × ((x : Bytes)
          → g.references t x
            ≡ counted_if g acts q q' small i body response (last_of (g.files s)) noisy
                (g.references s) x)
      × (noisy ≡ true → Leftover host)

  after_Same :
      {A : Type 0} (m : M State A) (f : A → M State Response) (a : A) (s u : State)
      → m s ≡ some (a, u)
      → Same g s u
      → Replaces (f a) u
      → Replaces (m >>= f) s
  after_Same m f a s u first (same, kept) (noisy, t, ran, moved, after, why) = (
    noisy,
    t,
    >>=-run m f first
        ∙ ran
        ∙ ap
            (λ (k : Files). some (answer_if g acts q q' small i body response (last_of k) noisy, t))
            same,
    moved ∙ ap (λ k. received g.shard i body (cleared k)) same,
    λ x.
        after x
        ∙ ap₂ (λ k f. counted_if g acts q q' small i body response (last_of k) noisy f x) same kept,
    why,
  )

  delete_then_write :
      (s : State)
      → (g.files s).stored ≡ none
      → Replaces
          (delete_file host (path_of g i)
            >> write_part host g.flags (base g) (part g i body) response)
          s
  unfolding delete_file
  delete_then_write s gone =
      let (r, u, removed, cut, kept) = removes.remove_part s i in
      let (noisy, t, ran, moved, after, why) =
        write_part-Receives g acts q q' small i body response clean short u
          (ap (λ f. f.stored) cut ∙ gone)
          (ap (λ f. has i (indices f.parts)) cut ∙ has-without i (g.files s).parts) in
      (
        noisy,
        t,
        dropped r u removed
            ∙ ran
            ∙ ap
                (λ (k : Files). some (
                  answer_if g acts q q' small i body response
                      (g.shard == length ((i, body) ∷ k.parts)) noisy,
                  t,
                ))
                cut,
        moved ∙ ap (received g.shard i body) cut,
        λ x.
            after x
            ∙ ap₂
                (λ (k : Files) f.
                  counted_if g acts q q' small i body response
                    (g.shard == length ((i, body) ∷ k.parts)) noisy f x)
                cut kept,
        why,
      )
    where
      dropped :
          (r : Outcome) (u : State)
          → host.remove (c_str (path_of g i)) s ≡ (r, u)
          → (delete_file host (path_of g i)
                >> write_part host g.flags (base g) (part g i body) response)
              s
            ≡ write_part host g.flags (base g) (part g i body) response u
      dropped none u removed = rw removed refl
      dropped (some errno) u removed = rw removed refl

  store_part-Replaces :
      (s : State)
      → (g.files s).stored ≡ none
      → lookup i (g.files s).parts ≡ some b
      → Replaces (store_part host g.flags (base g) (part g i body) response) s
  unfolding store_part rewrite_part exist_file
  store_part-Replaces s gone there =
      let found = acts.look_part s i ∙ has-lookup i b (g.files s).parts there in
      let (u, summed, same) = md5_sum-part g acts s i b there in
      rw found (
        after_Same (md5_sum host (path_of g i) []) _ (pos 0, g.digest b) s u summed same
          (rw other (delete_then_write u (ap (λ f. f.stored) same.0 ∙ gone))))

  after_mkdir-Replaces :
      (s : State)
      → (g.files s).stored ≡ none
      → lookup i (g.files s).parts ≡ some b
      → Replaces (after_mkdir host g.flags (base g) (part g i body) response) s
  unfolding after_mkdir exist_dir admit_part
  after_mkdir-Replaces s gone there =
      let (u, looked, same) = acts.not_stored s gone in
      let (v, made, same') = make_upload_dirs-Same g acts i body u in
      let gone' = ap (λ f. f.stored) same.0 ∙ gone in
      let there' = ap (λ f. lookup i f.parts) same.0 ∙ there in
      after_Same (exist_dir host (file_dir host g.flags (base g) (part g i body))) _ false s u
        (rw looked refl) same
        (after_Same (make_upload_dirs host g.flags (base g) (part g i body)) _ false u v made same'
          (store_part-Replaces v (ap (λ f. f.stored) same'.0 ∙ gone')
            (ap (λ f. lookup i f.parts) same'.0 ∙ there')))

  -- On a machine that keeps the parts of an upload (`Acts`, with a NUL at the end of the unset array
  -- of `ShellOut`) and can remove one (`Removes`), with the file not in the store, a sign and a name
  -- without quotes and backslashes, and fewer than 2 ^ 31 parts: for a request for a part that is there with another sign, with a body of at most 4096
  -- bytes without a NUL and the right sign, the old part is gone afterwards and the new one
  -- received. If a part is still missing, the answer is success. If none is, all of them have moved
  -- to the store, and the answer is success with the sign counted once; or, only if the unset array
  -- of `ShellOut` does not begin with a NUL (`Leftover`), it is "mv failed" with nothing counted.
  pub do_upload-Replaces :
      (s : State)
      → (g.files s).stored ≡ none
      → lookup i (g.files s).parts ≡ some b
      → (noisy : Bool) × (t : State) × (do_upload host g.flags (base g) (part g i body) response s
          ≡ some (
            answer_if g acts q q' small i body response
                (g.shard == length ((i, body) ∷ without i (g.files s).parts))
                noisy,
            t,
          ))
        × (g.files t
            ≡ received g.shard i body (record (g.files s) { parts = without i (g.files s).parts }))
        × ((x : Bytes)
            → g.references t x
              ≡ counted_if g acts q q' small i body response
                  (g.shard == length ((i, body) ∷ without i (g.files s).parts))
                  noisy
                  (g.references s)
                  x)
        × (noisy ≡ true → Leftover host)
  unfolding do_upload
  do_upload-Replaces s gone there =
      let (u, made, same) = mkdir-Same g acts s _ IsUploadDir.links in
      after_Same (mkdir host (usr_files_dir host g.flags (base g) (part g i body))) _ (pos 0) s u
        made same
        (after_mkdir-Replaces u (ap (λ f. f.stored) same.0 ∙ gone)
          (ap (λ f. lookup i f.parts) same.0 ∙ there))
