-- ===== src/Upload/Store/Receive.antt =====
-- `UploadRpc::Do` of code/src/long_connect/upload_rpc.cpp on a part that has not arrived before.
use mathlib.Core.Path.{ap₂}
use network_disk_server.Base.{
  ℕ, ◌^◌, ◌≤◌, ◌<◌, ◌≡◌, refl, ap, ◌∙◌, Bool, true, false, Option, none, some, [], ◌∷◌, arith, ◌==◌,
  ==_self, lt→ltb, if◌then◌else◌, length,
}
use network_disk_server.Base.Int.{pos}
use network_disk_server.Base.Distinct.{has}
use network_disk_server.Base.Fallible.{M, ◌>>=◌, >>=-run}
use network_disk_server.Base.Text.{Bytes, Lacks, bytes_eq_self}
use network_disk_server.FileSys.{write, write_len, mkdir, exist_dir, exist_file}
use network_disk_server.Shell.{md5_sum, shell_out, string_of}
use network_disk_server.Shell.Output.{fresh_array}
use network_disk_server.Upload.Messages.{Response, answer}
use network_disk_server.Upload.{
  as_size, do_upload, after_mkdir, admit_part, make_upload_dirs, store_part, write_part,
  verify_part, check_arrival, publish, all_part_arrived, usr_files_dir, file_dir, mv_cmd,
}
use network_disk_server.Upload.References.{IsQuotable, counted}
use network_disk_server.Upload.Store.{
  Files, Parts, Stage, Acts, Same, IsUploadDir, base, part, path_of, temporary, indices, lookup,
  received, Leftover,
}
use network_disk_server.Upload.Store.Calls.{
  mkdir-Same, make_upload_dirs-Same, write-part, md5_sum-part, all_part_arrived-part, shell_out-mv,
}
use network_disk_server.Upload.Store.Links.{link_file-Counts}

pub as_size-small : (n : ℕ) → n < 2 ^ 31 → as_size n ≡ n
as_size-small n small = rw (lt→ltb n (2 ^ 31) small) refl

module _ (g : Stage) (acts : Acts g) (q : IsQuotable g.sign) (q' : IsQuotable g.file_name)
    (small : g.shard < 2 ^ 31) (i : ℕ) (body : Bytes) (response : Response) where
  open g use {State, host}

  -- The table after a part: the last part links the file, and counts it, unless the `mv` seems to
  -- have printed something.
  abbrev pub counted_if : Bool → Bool → (Bytes → Option ℕ) → Bytes → Option ℕ
  counted_if last noisy f x = if last then (if noisy then f x else counted f g.sign x) else f x

  abbrev pub answer_if : Bool → Bool → Response
  answer_if last noisy =
      if last
      then (if noisy then answer response false "mv failed" else answer response true "success")
      else answer response true "success"

  -- A run that leaves such files, and takes the `mv` for failed only where the array of `ShellOut`
  -- does not begin with a NUL.
  abbrev Succeeds : M State Response → State → Files → Bool → Type 0
  Succeeds m s f last =
      (noisy : Bool) × (t : State) × (m s ≡ some (answer_if last noisy, t))
      × (g.files t ≡ f)
      × ((x : Bytes) → g.references t x ≡ counted_if last noisy (g.references s) x)
      × (noisy ≡ true → Leftover host)

  publish-Succeeds :
      (s : State) (rest : Parts)
      → (g.files s).stored ≡ none
      → (g.files s).parts ≡ (i, body) ∷ rest
      → Succeeds
          (publish host g.flags (base g) (part g i body) response)
          s
          (record (g.files s) { parts = []; stored = some ((i, body) ∷ rest) })
          true
  unfolding publish
  publish-Succeeds s rest gone there =
      let (text, u, ran, ends, moved, kept) = shell_out-mv g acts s i body rest gone there in
      by_text text u ran ends moved kept
    where
      by_text :
          (text : Bytes) (u : State)
          → shell_out host (mv_cmd host g.flags (base g) (part g 0 [])) [] s
            ≡ some ((pos 0, text), u)
          → string_of (fresh_array host u) ≡ some text
          → g.files u ≡ record (g.files s) { parts = []; stored = some ((i, body) ∷ rest) }
          → g.references u ≡ g.references s
          → Succeeds
              (publish host g.flags (base g) (part g i body) response)
              s
              (record (g.files s) { parts = []; stored = some ((i, body) ∷ rest) })
              true
      by_text [] u ran ends moved kept =
          let (t, linked, same, after) = link_file-Counts g acts u i body q q' in
          (
            false,
            t,
            ground (arith, ran, linked),
            same ∙ moved,
            λ x. after x ∙ ap (λ f. counted f g.sign x) kept,
            λ e. absurd (ground arith),
          )
      by_text (c ∷ cs) u ran ends moved kept =
          (true, u, ground (arith, ran), moved, λ x. ap (λ f. f x) kept, λ e. (u, c, cs, ends))

  after_listing :
      (last : Bool) (s u : State) (rest : Parts)
      → all_part_arrived host (temporary g) g.shard s ≡ some (last, u)
      → Same g s u
      → (g.files s).stored ≡ none
      → (g.files s).parts ≡ (i, body) ∷ rest
      → Succeeds
          (check_arrival host g.flags (base g) (part g i body) response)
          s
          (if last
            then record (g.files s) { parts = []; stored = some ((i, body) ∷ rest) }
            else g.files s)
          last
  unfolding check_arrival
  after_listing true s u rest looked (same, kept) gone there =
      let (noisy, t, ran, moved, after, why) =
        publish-Succeeds u rest (ap (λ f. f.stored) same ∙ gone) (ap (λ f. f.parts) same ∙ there) in
      (
        noisy,
        t,
        >>=-run (all_part_arrived host (temporary g) g.shard) _ looked ∙ ran,
        moved ∙ ap (λ (f : Files). record f { parts = []; stored = some ((i, body) ∷ rest) }) same,
        λ x. after x ∙ ap (λ f. counted_if true noisy f x) kept,
        why,
      )
  after_listing false s u rest looked (same, kept) gone there = (
    false,
    u,
    >>=-run (all_part_arrived host (temporary g) g.shard) _ looked,
    same,
    λ x. ap (λ f. f x) kept,
    λ e. absurd (ground arith),
  )

  -- The parts in the store if there are enough of them.
  abbrev settled : Parts → Files → Files
  settled ps f = if g.shard == length ps then record f { parts = []; stored = some ps } else f

  check_arrival-Succeeds :
      (s : State) (rest : Parts)
      → (g.files s).stored ≡ none
      → (g.files s).parts ≡ (i, body) ∷ rest
      → Succeeds
          (check_arrival host g.flags (base g) (part g i body) response)
          s
          (settled ((i, body) ∷ rest) (g.files s))
          (g.shard == length ((i, body) ∷ rest))
  check_arrival-Succeeds s rest gone there =
      let (u, looked, kept) = all_part_arrived-part g acts s i body rest there in
      after_listing (g.shard == length ((i, body) ∷ rest)) s u rest
        (looked ∙ ap (λ k. some (k == length ((i, body) ∷ rest), u)) (as_size-small g.shard small))
        kept gone there

  verify_part-Succeeds :
      (s : State) (rest : Parts)
      → (g.files s).stored ≡ none
      → (g.files s).parts ≡ (i, body) ∷ rest
      → Succeeds
          (verify_part host g.flags (base g) (part g i body) response)
          s
          (settled ((i, body) ∷ rest) (g.files s))
          (g.shard == length ((i, body) ∷ rest))
  unfolding verify_part
  verify_part-Succeeds s rest gone there =
      let found : lookup i (g.files s).parts ≡ some body =
        ap (lookup i) there ∙ ap (λ b. if b then some body else lookup i rest) (==_self i) in
      let (u, summed, (same, kept)) = md5_sum-part g acts s i body found in
      let (noisy, t, ran, moved, after, why) =
        check_arrival-Succeeds u rest (ap (λ f. f.stored) same ∙ gone)
          (ap (λ f. f.parts) same ∙ there) in
      let agree = bytes_eq_self (g.digest body) in
      (
        noisy,
        t,
        >>=-run (md5_sum host (path_of g i) []) _ summed ∙ rw agree ran,
        moved ∙ ap (settled ((i, body) ∷ rest)) same,
        λ x. after x ∙ ap (λ f. counted_if (g.shard == length ((i, body) ∷ rest)) noisy f x) kept,
        why,
      )

  module _ (clean : Lacks 0 body) (short : length body ≤ write_len) where
    -- What a step does that ends with the new part received.
    abbrev Receives : M State Response → State → Type 0
    Receives m s =
        Succeeds m s (received g.shard i body (g.files s))
          (g.shard == length ((i, body) ∷ (g.files s).parts))

    pub write_part-Receives :
        (s : State)
        → (g.files s).stored ≡ none
        → has i (indices (g.files s).parts) ≡ false
        → Receives (write_part host g.flags (base g) (part g i body) response) s
    unfolding write_part
    write_part-Receives s gone new =
        let (u, wrote, made, kept) = write-part g acts s i body new clean short in
        let (noisy, t, ran, moved, after, why) =
          verify_part-Succeeds u (g.files s).parts (ap (λ f. f.stored) made ∙ gone)
            (ap (λ f. f.parts) made) in
        (
          noisy,
          t,
          >>=-run (write host body (path_of g i)) _ wrote ∙ ran,
          moved ∙ ap (settled ((i, body) ∷ (g.files s).parts)) made,
          λ x.
              after x
              ∙ ap (λ f. counted_if (g.shard == length ((i, body) ∷ (g.files s).parts)) noisy f x)
                  kept,
          why,
        )

    store_part-Receives :
        (s : State)
        → (g.files s).stored ≡ none
        → has i (indices (g.files s).parts) ≡ false
        → Receives (store_part host g.flags (base g) (part g i body) response) s
    unfolding store_part exist_file
    store_part-Receives s gone new =
        let (noisy, t, ran, moved, after, why) = write_part-Receives s gone new in
        let missing = acts.look_part s i ∙ new in (noisy, t, rw missing ran, moved, after, why)

    -- A step that changes nothing, before one that receives the part.
    after_Same :
        {A : Type 0} (m : M State A) (f : A → M State Response) (a : A) (s u : State)
        → m s ≡ some (a, u)
        → Same g s u
        → Receives (f a) u
        → Receives (m >>= f) s
    after_Same m f a s u first (same, kept) (noisy, t, ran, moved, after, why) = (
      noisy,
      t,
      >>=-run m f first
          ∙ ran
          ∙ ap (λ (k : Files). some (answer_if (g.shard == length ((i, body) ∷ k.parts)) noisy, t))
              same,
      moved ∙ ap (received g.shard i body) same,
      λ x.
          after x
          ∙ ap₂ (λ k f. counted_if (g.shard == length ((i, body) ∷ k.parts)) noisy f x) same kept,
      why,
    )

    admit_part-Receives :
        (s : State)
        → (g.files s).stored ≡ none
        → has i (indices (g.files s).parts) ≡ false
        → Receives (admit_part host g.flags (base g) (part g i body) response) s
    unfolding admit_part
    admit_part-Receives s gone new =
        let (u, made, same) = make_upload_dirs-Same g acts i body s in
        after_Same (make_upload_dirs host g.flags (base g) (part g i body)) _ false s u made same (
          store_part-Receives u (ap (λ f. f.stored) same.0 ∙ gone)
            (ap (λ f. has i (indices f.parts)) same.0 ∙ new))

    after_mkdir-Receives :
        (s : State)
        → (g.files s).stored ≡ none
        → has i (indices (g.files s).parts) ≡ false
        → Receives (after_mkdir host g.flags (base g) (part g i body) response) s
    unfolding after_mkdir exist_dir
    after_mkdir-Receives s gone new =
        let (u, looked, same) = acts.not_stored s gone in
        after_Same (exist_dir host (file_dir host g.flags (base g) (part g i body))) _ false s u
          (rw looked refl) same
          (admit_part-Receives u (ap (λ f. f.stored) same.0 ∙ gone)
            (ap (λ f. has i (indices f.parts)) same.0 ∙ new))

    -- On a machine that keeps the parts of an upload (`Acts`), with the file not in the store, a sign
    -- and a name without quotes and backslashes, and fewer than 2 ^ 31 parts: the request for a part
    -- that has not arrived before, with a body of at most 4096 bytes without a NUL and the right
    -- sign. The part is then among the parts of the file, and the last one that was missing moves all
    -- of them to the store. The answer is success, and the last part counts the sign once; but the
    -- last part may be answered with "mv failed" and not count it, if the array of `ShellOut` does not
    -- begin with a NUL.
    pub do_upload-Receives :
        (s : State)
        → (g.files s).stored ≡ none
        → has i (indices (g.files s).parts) ≡ false
        → (noisy : Bool) × (t : State) × (do_upload host g.flags (base g) (part g i body) response s
            ≡ some (answer_if (g.shard == length ((i, body) ∷ (g.files s).parts)) noisy, t))
          × (g.files t ≡ received g.shard i body (g.files s))
          × ((x : Bytes)
              → g.references t x
                ≡ counted_if
                    (g.shard == length ((i, body) ∷ (g.files s).parts))
                    noisy
                    (g.references s)
                    x)
          × (noisy ≡ true → Leftover host)
    unfolding do_upload
    do_upload-Receives s gone new =
        let (u, made, same) = mkdir-Same g acts s _ IsUploadDir.links in
        after_Same (mkdir host (usr_files_dir host g.flags (base g) (part g i body))) _ (pos 0) s u
          made same
          (after_mkdir-Receives u (ap (λ f. f.stored) same.0 ∙ gone)
            (ap (λ f. has i (indices f.parts)) same.0 ∙ new))
