-- ===== src/Client/Upload/Files.antt =====
-- `BrpcClient::DoRequest` of code/src/long_connect/brpc_client.cpp on a file that can be read.
use network_disk_server.Base.{
  refl, ℕ, suc, ◌^◌, ◌/◌, ◌≤◌, ◌<◌, ◌≡◌, ap, ◌∙◌, true, none, some, [], ◌∷◌, ◌++◌, arith, length,
  drop, take, length-append,
}
use network_disk_server.Base.Int.{pos, to_int32-small}
use network_disk_server.Base.Fallible.{act, pure, ◌>>◌, >>=-run, >>=-fault}
use network_disk_server.Base.Text.{Bytes, Lacks, codes, c_str}
use network_disk_server.Shell.{string_of, md5_sum, msg_code, upload}
use network_disk_server.Shell.Output.{fresh_array, md5_sum-digest}
use network_disk_server.Client.Station.{Station}
use network_disk_server.Client.Upload.{
  connects, max_size_per_shard, shard_of, fill, get_file_size, open_file, upload_part, upload_parts,
  do_upload_file, do_request,
}

-- A file that stays as it is: md5sum prints its sign, the array of `ShellOut` has a NUL behind that
-- line, each stream on the file begins at its front, reading takes bytes off there, and its end is at
-- its length. The channel can be made, and a block of memory has the size that was asked for.
pub record HasFile (t : Station) (unread : t.State → ℕ → Bytes) (file content sign : Bytes)
    : Type 0 where
  pub channel : (s : t.State) → (u : t.State) × (connects t s ≡ (true, u))
  pub sum_file :
      (s : t.State)
      → (u : t.State) × (line tail : Bytes) × (t.host.popen (c_str (codes "md5sum " ++ file)) s
          ≡ (some (sign ++ line), u))
        × Lacks 0 line
        × (length line < 224)
        × (string_of (drop (length (sign ++ line)) (fresh_array t.host u)) ≡ some tail)
  pub sign_size : (length sign ≡ 32) × Lacks 0 sign
  pub open_front :
      (s : t.State)
      → (fp : ℕ) × (u : t.State) × (t.fopen file s ≡ (some fp, u)) × (unread u fp ≡ content)
  pub seek_end :
      (s u : t.State) (fp : ℕ)
      → t.fopen file s ≡ (some fp, u)
      → (v : t.State) × (t.fseek_end fp u ≡ (true, v)) × (t.ftell fp v ≡ pos (length content))
  pub fread_front :
      (s : t.State) (fp n : ℕ) → (s' : t.State) × (t.fread fp n s ≡ (take n (unread s fp), s'))
  pub malloc_block :
      (s : t.State) (n : ℕ)
      → (block : Bytes) × (s' : t.State) × (t.malloc n s ≡ (block, s'))
        × (length block ≡ n)
        × (unread s' ≡ unread s)

-- Two bytes that are no NUL fill the block, and no C string ends in it.
string_of-full :
    (content block : Bytes)
    → 2 ≤ length content
    → Lacks 0 (take 2 content)
    → string_of (take 2 (fill block (take 2 content))) ≡ none
unfolding string_of fill
string_of-full [] block long clean = absurd (omega (arith, long))
string_of-full (a ∷ []) block long clean = absurd (omega (arith, long))
string_of-full (a ∷ b ∷ content) block long (na, (nb, rest)) = ground (arith, na, nb)

module _ (t : Station) (unread : t.State → ℕ → Bytes) (file content sign usr : Bytes)
    (has_file : HasFile t unread file content sign) (small : length content < 2 ^ 31)
    (long : max_size_per_shard ≤ length content)
    (clean : Lacks 0 (take max_size_per_shard content)) where
  open t use {State}

  md5_sum-file : (s : State) → (u : State) × (md5_sum t.host file [] s ≡ some ((pos 0, sign), u))
  md5_sum-file s =
      let (u, line, tail, printed, plain, short, ends) = has_file.sum_file s in
      let (size, plain') = has_file.sign_size in
      let total = length-append sign line in
      (
        u,
        md5_sum-digest t.host file [] sign line tail s u printed size plain' plain
            (omega (arith, total, size, short)) ends,
      )

  get_file_size-file :
      (s u : State) (fp : ℕ)
      → t.fopen file s ≡ (some fp, u)
      → (v : State) × (get_file_size t fp u ≡ some (pos (length content), v))
  unfolding get_file_size
  get_file_size-file s u fp opened =
      let (v, sought, told) = has_file.seek_end s u fp opened in
      (t.rewind fp v, ground (arith, sought, told))

  open_file-file :
      (s : State)
      → (fp : ℕ) × (u : State) × (t.fopen file s ≡ (some fp, u))
        × (open_file t file s ≡ some (fp, u))
        × (unread u fp ≡ content)
  unfolding open_file
  open_file-file s =
      let (fp, u, opened, front) = has_file.open_front s in
      (fp, u, opened, ground (arith, opened), front)

  -- The first round reads the block past its end.
  upload_part-overreads :
      (shard fp i : ℕ) (s : State)
      → unread s fp ≡ content
      → upload_part t file sign usr shard fp i s ≡ none
  unfolding upload_part
  upload_part-overreads shard fp i s front =
      let (block, s1, taken, size, kept) = has_file.malloc_block s max_size_per_shard in
      let (s2, got) = has_file.fread_front s1 fp max_size_per_shard in
      let there : unread s1 fp ≡ content = ap (λ u. u fp) kept ∙ front in
      let fault = string_of-full content block long clean in rw (taken, got, there, fault) refl

  upload_parts-overreads :
      (rounds shard fp i : ℕ) (s : State)
      → unread s fp ≡ content
      → upload_parts t file sign usr shard fp (suc rounds) i s ≡ none
  unfolding upload_parts
  upload_parts-overreads rounds shard fp i s front =
      >>=-fault (upload_part t file sign usr shard fp i) _
        (upload_part-overreads shard fp i s front)

  do_upload_file-overreads : (s : State) → do_upload_file t file usr s ≡ none
  unfolding do_upload_file shard_of
  do_upload_file-overreads s =
      let (s1, summed) = md5_sum-file s in
      let (fp_s, s2, opened, ran2, front) = open_file-file s1 in
      let (s3, sized) = get_file_size-file s1 s2 fp_s opened in
      let (fp, s5, opened', ran5, front') = open_file-file (t.fclose fp_s s3) in
      let round = to_int32-small (length content) small in
      let shards = length content / max_size_per_shard in
      let some_shards : shard_of (pos (length content)) ≡ suc shards = omega arith in
      >>=-run (md5_sum t.host file []) _ summed
      ∙ >>=-run (open_file t file) _ ran2
      ∙ >>=-run (get_file_size t fp_s) _ sized
      ∙ >>=-run (open_file t file) _ ran5
      ∙ ap
          (λ z.
            (upload_parts t file sign usr (shard_of z) fp (shard_of z) 0
                >> (act (t.fclose fp) >> pure (pos 0)))
              s5)
          round
      ∙ >>=-fault
          (upload_parts t file sign usr (shard_of (pos (length content))) fp
            (shard_of (pos (length content))) 0)
          _
          (ap (λ n. upload_parts t file sign usr (shard_of (pos (length content))) fp n 0 s5)
              some_shards
            ∙ upload_parts-overreads shards (shard_of (pos (length content))) fp 0 s5 front')

  -- On a machine that can set up the channel and read the file, whose sign md5sum prints in a line
  -- that fits into the unset array of `ShellOut` and has a NUL behind it there (`HasFile`), with at
  -- least 2 and less than 2 ^ 31 bytes in the file, of which the first two are no NUL: the client's
  -- request to upload it is undefined behaviour, from every state. The block of two bytes is full,
  -- and is read as a C string past its end.
  pub do_request-overreads : (s : State) → do_request t (msg_code upload) file usr s ≡ none
  unfolding do_request
  do_request-overreads s =
      let (s1, ready) = has_file.channel s in
      let fault = do_upload_file-overreads s1 in ground (arith, ready, fault)
