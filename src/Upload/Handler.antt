-- ===== src/Upload/Handler.antt =====
-- `UploadRpc::Do` of code/src/long_connect/upload_rpc.cpp cut at its calls, for two handlers at a
-- time: no mutex is held but around an INSERT or an UPDATE. Each call of `write` is a step; the three
-- `mkdir` of the temporary directories are one, and so are the calls of a listing and of a command.
pub mod Situation
pub mod Begins
pub mod Steps
pub mod Late
pub mod Overtaken
use network_disk_server.Base.{
  ltb, ◌-◌, length, take, ℕ, zero, suc, ◌≡◌, ◌∙◌, true, false, none, some, [], arith, inl, inr,
  Option-cases, Bool-cases, if◌then◌else◌,
}
use network_disk_server.Base.Int.{ℤ, pos, negsuc, to_int32, nonzero}
use network_disk_server.Base.Fallible.{call, act, M, pure, ◌>>=◌, ◌>>◌}
use network_disk_server.Base.Text.{bytes_eq, c_str}
use network_disk_server.Host.{Host}
use network_disk_server.FileSys.{mkdir, exist_dir, exist_file, write_len, delete_file}
use network_disk_server.Shell.{md5_sum}
use network_disk_server.Mysql.{Mmysql}
use network_disk_server.Upload.{
  do_upload, after_mkdir, speed_upload, admit_part, make_upload_dirs, store_part, rewrite_part,
  write_part, verify_part, check_arrival, link_file, file_dir, file_path, usr_files_dir,
}
use network_disk_server.Upload.Race.{
  LinkPhase, links, selects, inserts, updates, returns, link_step,
}
use network_disk_server.Upload.Messages.{Request, Response, Flags, answer, already}
use network_disk_server.Upload.Publish.{
  ArrivalPhase, looks, moves, joins, answers, link_call, arrival_step,
}

-- Where a handler stands: before the first directory, the look into the store, the temporary
-- directories, the look for the part, the sign of a part that is there, its removal, the opening of
-- the new part, a write of its body with so many bytes left, its closing and its sign; within
-- `linkToUsr` for a file of the store; after the part is verified; or at its end. A phase from the
-- opening on has the response so far.
pub data HandlerPhase : Type 0 where
  enters checks makes finds sums deletes : HandlerPhase
  speeds : LinkPhase → HandlerPhase
  opens verifies : Response → HandlerPhase
  writes : Response → ℕ → ℤ → HandlerPhase
  closes : Response → ℕ → HandlerPhase
  arrives : Response → ArrivalPhase → HandlerPhase
  replies : Response → HandlerPhase

-- An answer ends the handler.
abbrev pub settle : Response → ArrivalPhase → HandlerPhase
settle response looks = arrives response looks
settle response moves = arrives response moves
settle response (joins p) = arrives response (joins p)
settle response (answers r) = replies r

module _ (h : Host) (flags : Flags) (sql : Mmysql) (request : Request) (response : Response) where
  open h use {State}
  open request use {body, part_sign}

  unfoldable pub handler_step : HandlerPhase → M State HandlerPhase
  handler_step enters = do
    code ← mkdir h (usr_files_dir h flags sql request)
    pure (
        if nonzero code
        then replies (answer response false "create usr files dir failed")
        else checks)
  handler_step checks = do
    exists ← exist_dir h (file_dir h flags sql request)
    pure (if exists then speeds links else makes)
  handler_step (speeds (returns code)) = pure (
      replies (
        if nonzero code
        then answer response false "speed upload link failed"
        else answer response true "file already in server, speed"))
  handler_step (speeds p) = do
    p' ← link_step h sql (link_call h flags sql request) p
    pure (speeds p')
  handler_step makes = do
    unmade ← make_upload_dirs h flags sql request
    pure (
        if unmade
        then replies (answer response false "create usr dir or usr file dir failed")
        else finds)
  handler_step finds = do
    exists ← exist_file h (file_path h flags sql request)
    pure (if exists then sums else opens response)
  handler_step sums = do
    (code, cur_md5) ← md5_sum h (file_path h flags sql request) []
    pure (
        if nonzero code
        then replies (answer response false "cal md5 failed")
        else if bytes_eq cur_md5 part_sign
        then opens (already response)
        else deletes)
  handler_step deletes = delete_file h (file_path h flags sql request) >> pure (opens response)
  handler_step (opens r) = do
    o ← call (h.open_create (c_str (file_path h flags sql request)))
    pure (elim o [
      | none ↦ replies (answer r false "write file failed")
      | some fd ↦ writes r fd (to_int32 (pos (length (c_str body))))
    ])
  handler_step (writes r fd (pos len)) = do
    act (h.write fd (take (if ltb write_len len then write_len else len) (c_str body)))
    pure (if ltb write_len len then writes r fd (pos (len - write_len)) else closes r fd)
  handler_step (writes r fd (negsuc n)) = pure (closes r fd)
  handler_step (closes r fd) = act (h.close fd) >> pure (verifies r)
  handler_step (verifies r) = do
    (code, cur_md5) ← md5_sum h (file_path h flags sql request) []
    pure (
        if nonzero code
        then replies (answer r false "cal md5 failed")
        else if bytes_eq cur_md5 part_sign
        then arrives r looks
        else replies (answer r false "part sign check error"))
  handler_step (arrives r p) = do p' ← arrival_step h flags sql request r p; pure (settle r p')
  handler_step (replies r) = pure (replies r)
