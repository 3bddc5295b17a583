-- ===== src/Upload/Success.antt =====
-- When `UploadRpc::Do` of code/src/long_connect/upload_rpc.cpp answers with success.
use network_disk_server.Base.{
  ◌≡◌, true, false, some, [], ◌⊎◌, inl, inr, arith, Option-cases, Bool-cases,
}
use network_disk_server.Base.Int.{ℤ, nonzero}
use network_disk_server.Base.Text.{bytes_eq, bytes_eq_sound}
use network_disk_server.Host.{Host}
use network_disk_server.Mysql.{Mmysql}
use network_disk_server.Upload.Messages.{Request, Response, Flags, already}
use network_disk_server.Shell.{md5_sum}
use network_disk_server.FileSys.{mkdir, exist_dir, exist_file, delete_file, write}
use network_disk_server.Upload.{
  do_upload, store_part, write_part, verify_part, rewrite_part, admit_part, after_mkdir,
  speed_upload, link_file, make_upload_dirs, file_dir, usr_files_dir, file_path,
}

module _ (h : Host) (flags : Flags) (sql : Mmysql) (request : Request) where
  open h use {State}

  -- The body of the request went to the part's file, and the sign of that file, computed next, is
  -- the one that the request names.
  abbrev pub Verified : Type 0
  Verified =
      (u v w : State) × (code code' : ℤ) × (write h request.body (file_path h flags sql request) u
        ≡ some (code, v))
      × (nonzero code ≡ false)
      × (md5_sum h (file_path h flags sql request) [] v ≡ some ((code', request.part_sign), w))
      × (nonzero code' ≡ false)

  -- The directory of the file stood in the store, and the user has a link to it.
  abbrev pub Linked : State → Type 0
  Linked t =
      (u v : State) × (code : ℤ) × (exist_dir h (file_dir h flags sql request) u ≡ some (true, v))
      × (link_file h flags sql request v ≡ some (code, t))
      × (nonzero code ≡ false)

  -- What `verify_part` contributes.
  abbrev Signed : State → Type 0
  Signed v =
      (w : State) × (code : ℤ) × (md5_sum h (file_path h flags sql request) [] v
        ≡ some ((code, request.part_sign), w))
      × (nonzero code ≡ false)

  verify_part-Signed :
      (response r : Response) (s t : State)
      → verify_part h flags sql request response s ≡ some (r, t)
      → r.res ≡ some true
      → Signed s
  unfolding verify_part
  verify_part-Signed response r s t e ok =
      elim (Option-cases (md5_sum h (file_path h flags sql request) [] s)) [
        | inl stop ↦ absurd (ground arith)
        | inr (((code, sign), u), step) ↦
            (u, code, ground (arith, bytes_eq_sound sign request.part_sign), ground arith)
      ]

  write_part-Verified :
      (response r : Response) (s t : State)
      → write_part h flags sql request response s ≡ some (r, t)
      → r.res ≡ some true
      → Verified
  unfolding write_part
  write_part-Verified response r s t e ok =
      elim (Option-cases (write h request.body (file_path h flags sql request) s)) [
        | inl stop ↦ absurd (ground arith)
        | inr ((code, u), step) ↦
            let fine : nonzero code ≡ false = ground arith in
            let (w, code', signed, fine') = verify_part-Signed response r u t (ground arith) ok in
            (s, u, w, code, code', step, fine, signed, fine')
      ]

  rewrite_part-Verified :
      (response r : Response) (s t : State)
      → rewrite_part h flags sql request response s ≡ some (r, t)
      → r.res ≡ some true
      → Verified
  unfolding rewrite_part
  rewrite_part-Verified response r s t e ok =
      elim (Option-cases (md5_sum h (file_path h flags sql request) [] s)) [
        | inl stop ↦ absurd (ground arith)
        | inr (((code, sign), u), step) ↦ elim (Bool-cases (bytes_eq sign request.part_sign)) [
          | inl same ↦ write_part-Verified (already response) r u t (ground arith) ok
          | inr differ ↦ elim (Option-cases (delete_file h (file_path h flags sql request) u)) [
            | inl stop ↦ absurd (ground arith)
            | inr ((_, v), step') ↦ write_part-Verified response r v t (ground arith) ok
          ]
        ]
      ]

  store_part-Verified :
      (response r : Response) (s t : State)
      → store_part h flags sql request response s ≡ some (r, t)
      → r.res ≡ some true
      → Verified
  unfolding store_part
  store_part-Verified response r s t e ok =
      elim (Option-cases (exist_file h (file_path h flags sql request) s)) [
        | inl stop ↦ absurd (ground arith)
        | inr ((true, u), step) ↦ rewrite_part-Verified response r u t (ground arith) ok
        | inr ((false, u), step) ↦ write_part-Verified response r u t (ground arith) ok
      ]

  admit_part-Verified :
      (response r : Response) (s t : State)
      → admit_part h flags sql request response s ≡ some (r, t)
      → r.res ≡ some true
      → Verified
  unfolding admit_part
  admit_part-Verified response r s t e ok =
      elim (Option-cases (make_upload_dirs h flags sql request s)) [
        | inl stop ↦ absurd (ground arith)
        | inr ((_, u), step) ↦ store_part-Verified response r u t (ground arith) ok
      ]

  speed_upload-Linked :
      (response r : Response) (s u t : State)
      → exist_dir h (file_dir h flags sql request) u ≡ some (true, s)
      → speed_upload h flags sql request response s ≡ some (r, t)
      → r.res ≡ some true
      → Linked t
  unfolding speed_upload
  speed_upload-Linked response r s u t there e ok =
      elim (Option-cases (link_file h flags sql request s)) [
        | inl stop ↦ absurd (ground arith)
        | inr ((code, v), step) ↦ (u, s, code, there, ground arith, ground arith)
      ]

  after_mkdir-Success :
      (response r : Response) (s t : State)
      → after_mkdir h flags sql request response s ≡ some (r, t)
      → r.res ≡ some true
      → Verified ⊎ Linked t
  unfolding after_mkdir
  after_mkdir-Success response r s t e ok =
      elim (Option-cases (exist_dir h (file_dir h flags sql request) s)) [
        | inl stop ↦ absurd (ground arith)
        | inr ((true, u), step) ↦ inr (speed_upload-Linked response r u s t step (ground arith) ok)
        | inr ((false, u), step) ↦ inl (admit_part-Verified response r u t (ground arith) ok)
      ]

  -- An answer with success means one of two things. Either the body of the request was written to
  -- the part's file, also where that part was there already, and the sign computed from the file
  -- right after the write is the one in the request; or the file's directory stood in the store and
  -- the link to it was made and counted.
  pub do_upload-Success :
      (response r : Response) (s t : State)
      → do_upload h flags sql request response s ≡ some (r, t)
      → r.res ≡ some true
      → Verified ⊎ Linked t
  unfolding do_upload
  do_upload-Success response r s t e ok =
      elim (Option-cases (mkdir h (usr_files_dir h flags sql request) s)) [
        | inl stop ↦ absurd (ground arith)
        | inr ((_, u), step) ↦ after_mkdir-Success response r u t (ground arith) ok
      ]
