-- ===== src/Upload.antt =====
-- code/src/long_connect/upload_rpc.cpp and its header: `UploadRpc`, the server's side of an upload.
-- One call of `do_upload` handles the request for one part of a file.
pub mod Answers
pub mod References
pub mod Paths
pub mod Arrival
pub mod Race
pub mod Publish
pub mod Handler
pub mod Store
pub mod Success
pub mod Messages
use network_disk_server.Base.{
  ℕ, ◌+◌, ◌-◌, ◌^◌, Bool, true, false, Option, none, some, List, [], ◌++◌, ltb, ◌==◌, if◌then◌else◌,
  String, length,
}
use network_disk_server.Base.Int.{ℤ, pos, minus_one, nonzero}
use network_disk_server.Base.Fallible.{M, pure, or_call, ◌>>=◌, ◌>>◌}
use network_disk_server.Base.Text.{Bytes, codes, to_string, bytes_eq}
use network_disk_server.Host.{Host}
use network_disk_server.FileSys.{mkdir, exist_dir, exist_file, ls_dir, write, delete_file, link}
use network_disk_server.Shell.{shell_out, md5_sum}
use network_disk_server.Mysql.{Mmysql, run_query, fetch_res}
use Messages.{Request, Response, Flags, answer, already}

-- `shard == part_num.size()`: the `uint32` is converted to `int` and then to `size_t`.
abbrev pub as_size : ℕ → ℕ
as_size shard = if ltb shard (2 ^ 31) then shard else shard + 2 ^ 64 - 2 ^ 32

abbrev pub select_sign : Bytes → Bytes
select_sign sign = codes "SELECT * FROM SignMap where sign = '" ++ (sign ++ codes "'")

abbrev pub insert_sign : Bytes → Bytes → Bytes
insert_sign sign file_name =
    codes "INSERT INTO SignMap (sign, fileName, reference) VALUES('"
    ++ (sign ++ (codes "','" ++ (file_name ++ codes "',1);")))

abbrev pub update_sign : Bytes → Bytes
update_sign sign =
    codes "UPDATE SignMap Set reference = reference + 1 where sign = '" ++ (sign ++ codes "'")

module _ (h : Host) where
  open h use {State}

  abbrev failed : M State ℤ → M State Bool
  failed m = m >>= λ code. pure (nonzero code)

  -- A directory that cannot be listed counts as empty.
  unfoldable pub all_part_arrived : Bytes → ℕ → M State Bool
  all_part_arrived dir shard = do
    (code, part_num) ← ls_dir h dir []
    pure (as_size shard == length part_num)

  -- The mutex around the query is not modelled here: `Race` has the steps that it covers.
  unfoldable pub add_sign_map : Mmysql → Bytes → Bytes → M State ℤ
  add_sign_map sql sign file_name = do
    r ← run_query h sql (insert_sign sign file_name)
    if r then pure minus_one else pure (pos 0)

  unfoldable pub increment_sign_map : Mmysql → Bytes → M State ℤ
  increment_sign_map sql sign = do
    r ← run_query h sql (update_sign sign)
    if r then pure minus_one else pure (pos 0)

  -- `linkToUsr` from the test of the SELECT on.
  unfoldable pub count_sign : Mmysql → Bytes → Bytes → M State ℤ
  count_sign sql sign file_name = do
    r ← run_query h sql (select_sign sign)
    elim r [
      | true ↦ pure minus_one
      | false ↦ do
        row ← fetch_res h sql
        elim row [
          | none ↦ do
            code ← add_sign_map sql sign file_name
            pure (if nonzero code then minus_one else pos 0)
          | some _ ↦ increment_sign_map sql sign
        ]
    ]

  unfoldable pub link_to_usr : Mmysql → Bytes → Bytes → Bytes → Bytes → M State ℤ
  link_to_usr sql src dst sign file_name = do
    code ← link h src dst
    if nonzero code then pure minus_one else count_sign sql sign file_name

  module _ (flags : Flags) (sql : Mmysql) (request : Request) where
    open flags use {usr_dir, files_dir}
    open request use {usr, file_sign, file_name, part_index, part_sign, shard, body}

    abbrev pub file_dir : Bytes
    file_dir = files_dir ++ file_sign

    abbrev pub usr_files_dir : Bytes
    usr_files_dir = (usr_dir ++ usr) ++ codes "/files"

    abbrev pub usr_link : Bytes
    usr_link = ((usr_dir ++ usr) ++ codes "/files/") ++ file_sign

    abbrev pub usr_upload_dir : Bytes
    usr_upload_dir = (usr_dir ++ usr) ++ codes "/tmp/"

    abbrev pub sign_dir : Bytes
    sign_dir = usr_upload_dir ++ file_sign

    abbrev pub file_path : Bytes
    file_path = (sign_dir ++ codes "/") ++ to_string part_index

    abbrev pub mv_cmd : Bytes
    mv_cmd = codes "mv " ++ ((sign_dir ++ codes " ") ++ files_dir)

    abbrev pub refuse : Response → String → M State Response
    refuse response text = pure (answer response false text)

    abbrev pub link_file : M State ℤ
    link_file = link_to_usr sql file_dir usr_link file_sign file_name

    -- The file is in the store already.
    unfoldable pub speed_upload : Response → M State Response
    speed_upload response = do
      code ← link_file
      elim (nonzero code) [
        | true ↦ refuse response "speed upload link failed"
        | false ↦ pure (answer response true "file already in server, speed")
      ]

    -- All parts are there: the code that `ShellOut` returns is dropped, and any output is an error.
    unfoldable pub publish : Response → M State Response
    publish response = do
      (code, shell_res) ← shell_out h mv_cmd []
      elim (length shell_res == 0) [
        | false ↦ refuse response "mv failed"
        | true ↦ do
          linked ← link_file
          elim (nonzero linked) [
            | true ↦ refuse response "link failed"
            | false ↦ pure (answer response true "success")
          ]
      ]

    unfoldable pub check_arrival : Response → M State Response
    check_arrival response = do
      arrived ← all_part_arrived sign_dir shard
      if arrived then publish response else pure (answer response true "success")

    -- The second computation of the sign, of what is on the disk now.
    unfoldable pub verify_part : Response → M State Response
    verify_part response = do
      (code, cur_md5) ← md5_sum h file_path []
      elim (nonzero code) [
        | true ↦ refuse response "cal md5 failed"
        | false ↦ elim (bytes_eq cur_md5 part_sign) [
          | false ↦ refuse response "part sign check error"
          | true ↦ check_arrival response
        ]
      ]

    unfoldable pub write_part : Response → M State Response
    write_part response = do
      code ← write h body file_path
      if nonzero code then refuse response "write file failed" else verify_part response

    -- A part that is there with the right sign is written again all the same.
    unfoldable pub rewrite_part : Response → M State Response
    rewrite_part response = do
      (code, cur_md5) ← md5_sum h file_path []
      elim (nonzero code) [
        | true ↦ refuse response "cal md5 failed"
        | false ↦ elim (bytes_eq cur_md5 part_sign) [
          | true ↦ write_part (already response)
          | false ↦ do delete_file h file_path; write_part response
        ]
      ]

    unfoldable pub store_part : Response → M State Response
    store_part response = do
      exists ← exist_file h file_path
      if exists then rewrite_part response else write_part response

    unfoldable pub make_upload_dirs : M State Bool
    make_upload_dirs =
        or_call (failed (mkdir h (usr_dir ++ usr)))
          (or_call (failed (mkdir h usr_upload_dir)) (failed (mkdir h (sign_dir ++ codes "/"))))

    -- The file is not in the store.
    unfoldable pub admit_part : Response → M State Response
    admit_part response = do
      unmade ← make_upload_dirs
      if unmade
          then refuse response "create usr dir or usr file dir failed"
          else store_part response

    unfoldable pub after_mkdir : Response → M State Response
    after_mkdir response = do
      exists ← exist_dir h file_dir
      if exists then speed_upload response else admit_part response

    -- `Do`
    unfoldable pub do_upload : Response → M State Response
    do_upload response = do
      code ← mkdir h usr_files_dir
      if nonzero code then refuse response "create usr files dir failed" else after_mkdir response
