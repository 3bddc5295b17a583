-- ===== src/Service.antt =====
-- code/src/long_connect/long_connection.cpp: `NetDiskServiceImpl`, which hands a request to its
-- handler.
pub mod Replies
pub mod Uploads
pub mod Again
pub mod Users
pub mod Refused
use network_disk_server.Base.{Bool, true, false, some, ◌==◌, if◌then◌else◌}
use network_disk_server.Base.Fallible.{M, pure, ◌>>=◌}
use network_disk_server.Base.Text.{codes}
use network_disk_server.Host.{Host}
use network_disk_server.Shell.{msg_code, upload, download}
use network_disk_server.Mysql.{Mmysql, init, close}
use network_disk_server.Upload.{do_upload}
use network_disk_server.Upload.Messages.{Request, Response, Flags, answer}

-- What `Send` copies from the request.
abbrev pub echo : Request → Response → Response
echo request response = record response {
  file_name = some request.file_name;
  shard = some request.shard;
  part_index = some request.part_index;
}

-- `if (response->res()) response->set_body("upload success")`; a field that is not set reads false.
abbrev pub confirm : Response → Response
confirm response = elim response.res [
  | some true ↦ record response { body = some (codes "upload success") }
  | _ ↦ response
]

module _ (h : Host) where
  open h use {State}

  -- The constructor: the connection is handed to the upload handler too.
  unfoldable pub create : Bool → M State (Mmysql × Bool)
  create done = init h done

  unfoldable pub destroy : Mmysql → M State (Unit {0})
  destroy sql = close h sql

  -- The switch on the operation.
  unfoldable pub dispatch : Flags → Mmysql → Request → Response → M State Response
  dispatch flags sql request response =
      if request.op_type == msg_code upload
      then do_upload h flags sql request response
      else if request.op_type == msg_code download
      then pure response
      else pure (answer response false "op not support")

  unfoldable pub send : Flags → Mmysql → Request → Response → M State Response
  send flags sql request response = do
    answered ← dispatch flags sql request (echo request response)
    pure (confirm answered)
