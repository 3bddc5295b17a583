-- ===== src/Upload/Publish.antt =====
-- Two requests at a time at the end of `UploadRpc::Do` of code/src/long_connect/upload_rpc.cpp, where
-- no mutex is held: the listing of the parts, the `mv` and the call of `linkToUsr`.
use network_disk_server.Base.{true, false, [], ◌==◌, length, if◌then◌else◌}
use network_disk_server.Base.Int.{nonzero}
use network_disk_server.Base.Fallible.{M, pure, ◌>>=◌}
use network_disk_server.Host.{Host}
use network_disk_server.Shell.{shell_out}
use network_disk_server.Mysql.{Mmysql}
use network_disk_server.Upload.{all_part_arrived, mv_cmd, sign_dir, file_dir, usr_link}
use network_disk_server.Upload.Race.{LinkPhase, LinkCall, links, returns, link_step}
use network_disk_server.Upload.Messages.{Request, Response, Flags, answer}

-- Where a request stands after its part is verified: before the listing, the `mv`, within `linkToUsr`,
-- or at its answer.
pub data ArrivalPhase : Type 0 where
  looks moves : ArrivalPhase
  joins : LinkPhase → ArrivalPhase
  answers : Response → ArrivalPhase

module _ (h : Host) (flags : Flags) (sql : Mmysql) (request : Request) where
  -- The call of `linkToUsr`.
  abbrev pub link_call : LinkCall
  link_call = record {
    src = file_dir h flags sql request;
    dst = usr_link h flags sql request;
    sign = request.file_sign;
    file_name = request.file_name;
  }

module _ (h : Host) (flags : Flags) (sql : Mmysql) (request : Request) (response : Response) where
  open h use {State}

  unfoldable pub arrival_step : ArrivalPhase → M State ArrivalPhase
  arrival_step looks = do
    arrived ← all_part_arrived h (sign_dir h flags sql request) request.shard
    pure (if arrived then moves else answers (answer response true "success"))
  arrival_step moves = do
    (code, shell_res) ← shell_out h (mv_cmd h flags sql request) []
    pure
        (if length shell_res == 0 then joins links else answers (answer response false "mv failed"))
  arrival_step (joins (returns linked)) = pure (
      answers (
        if nonzero linked
        then answer response false "link failed"
        else answer response true "success"))
  arrival_step (joins p) = do
    p' ← link_step h sql (link_call h flags sql request) p
    pure (joins p')
  arrival_step (answers r) = pure (answers r)
