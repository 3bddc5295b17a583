-- ===== src/Upload/Answers.antt =====
-- The answers of `UploadRpc::Do` in code/src/long_connect/upload_rpc.cpp.
use network_disk_server.Base.{◌≡◌, ◌≢◌, none, some, [], arith, Option-cases, inl, inr}
use network_disk_server.Host.{Host}
use network_disk_server.Mysql.{Mmysql}
use network_disk_server.Upload.Messages.{Request, Response, Flags, already}
use network_disk_server.Shell.{md5_sum}
use network_disk_server.FileSys.{mkdir, exist_dir, exist_file, delete_file, write}
use network_disk_server.Upload.{
  do_upload, store_part, write_part, verify_part, check_arrival, publish, speed_upload,
  all_part_arrived, make_upload_dirs, rewrite_part, admit_part, after_mkdir, file_dir,
  usr_files_dir, sign_dir, file_path,
}

module _ (h : Host) (flags : Flags) (sql : Mmysql) (request : Request) where
  open h use {State}

  abbrev Answered : Response → Response → Type 0
  Answered response r =
      (r.res ≢ none)
      × (r.body ≢ none)
      × (r.shard ≡ response.shard)
      × (r.part_index ≡ response.part_index)
      × (r.file_name ≡ response.file_name)

  publish-Answered :
      (response r : Response) (s t : State)
      → publish h flags sql request response s ≡ some (r, t)
      → Answered response r
  unfolding publish
  publish-Answered response r s t e = ground arith

  check_arrival-Answered :
      (response r : Response) (s t : State)
      → check_arrival h flags sql request response s ≡ some (r, t)
      → Answered response r
  unfolding check_arrival
  check_arrival-Answered response r s t e =
      elim (Option-cases (all_part_arrived h (sign_dir h flags sql request) request.shard s)) [
        | inl stop ↦ ground arith
        | inr ((arrived, u), step) ↦ ground (arith, publish-Answered response r u t)
      ]

  verify_part-Answered :
      (response r : Response) (s t : State)
      → verify_part h flags sql request response s ≡ some (r, t)
      → Answered response r
  unfolding verify_part
  verify_part-Answered response r s t e =
      elim (Option-cases (md5_sum h (file_path h flags sql request) [] s)) [
        | inl stop ↦ ground arith
        | inr ((_, u), step) ↦ ground (arith, check_arrival-Answered response r u t)
      ]

  write_part-Answered :
      (response r : Response) (s t : State)
      → write_part h flags sql request response s ≡ some (r, t)
      → Answered response r
  unfolding write_part
  write_part-Answered response r s t e =
      elim (Option-cases (write h request.body (file_path h flags sql request) s)) [
        | inl stop ↦ ground arith
        | inr ((_, u), step) ↦ ground (arith, verify_part-Answered response r u t)
      ]

  rewrite_part-Answered :
      (response r : Response) (s t : State)
      → rewrite_part h flags sql request response s ≡ some (r, t)
      → Answered response r
  unfolding rewrite_part
  rewrite_part-Answered response r s t e =
      elim (Option-cases (md5_sum h (file_path h flags sql request) [] s)) [
        | inl stop ↦ ground arith
        | inr ((_, u), step) ↦
            elim (Option-cases (delete_file h (file_path h flags sql request) u)) [
              | inl stop ↦ ground (arith, write_part-Answered (already response) r u t)
              | inr ((_, v), step') ↦ ground (
                arith,
                write_part-Answered (already response) r u t,
                write_part-Answered response r v t,
              )
            ]
      ]

  store_part-Answered :
      (response r : Response) (s t : State)
      → store_part h flags sql request response s ≡ some (r, t)
      → Answered response r
  unfolding store_part
  store_part-Answered response r s t e =
      elim (Option-cases (exist_file h (file_path h flags sql request) s)) [
        | inl stop ↦ ground arith
        | inr ((_, u), step) ↦
            ground (arith, rewrite_part-Answered response r u t, write_part-Answered response r u t)
      ]

  speed_upload-Answered :
      (response r : Response) (s t : State)
      → speed_upload h flags sql request response s ≡ some (r, t)
      → Answered response r
  unfolding speed_upload
  speed_upload-Answered response r s t e = ground arith

  admit_part-Answered :
      (response r : Response) (s t : State)
      → admit_part h flags sql request response s ≡ some (r, t)
      → Answered response r
  unfolding admit_part
  admit_part-Answered response r s t e =
      elim (Option-cases (make_upload_dirs h flags sql request s)) [
        | inl stop ↦ ground arith
        | inr ((_, u), step) ↦ ground (arith, store_part-Answered response r u t)
      ]

  after_mkdir-Answered :
      (response r : Response) (s t : State)
      → after_mkdir h flags sql request response s ≡ some (r, t)
      → Answered response r
  unfolding after_mkdir
  after_mkdir-Answered response r s t e =
      elim (Option-cases (exist_dir h (file_dir h flags sql request) s)) [
        | inl stop ↦ ground arith
        | inr ((_, u), step) ↦
            ground (arith, speed_upload-Answered response r u t, admit_part-Answered response r u t)
      ]

  -- However the handler ends, it has set the result and the text of the answer, and it has left the
  -- three other fields as they were.
  pub do_upload-Answered :
      (response r : Response) (s t : State)
      → do_upload h flags sql request response s ≡ some (r, t)
      → Answered response r
  unfolding do_upload
  do_upload-Answered response r s t e =
      elim (Option-cases (mkdir h (usr_files_dir h flags sql request) s)) [
        | inl stop ↦ ground arith
        | inr ((_, u), step) ↦ ground (arith, after_mkdir-Answered response r u t)
      ]
