-- ===== src/Service/Replies.antt =====
-- The replies of `NetDiskServiceImpl::Send` of code/src/long_connect/long_connection.cpp.
use network_disk_server.Base.{
  List, [], ◌∷◌, ◌≡◌, ◌≢◌, inl, inr, true, false, none, some, arith, Option-cases,
}
use network_disk_server.Base.Text.{codes}
use network_disk_server.Host.{Host}
use network_disk_server.Mysql.{Mmysql}
use network_disk_server.Shell.{msg_code, upload, download}
use network_disk_server.Upload.Answers.{do_upload-Answered}
use network_disk_server.Upload.Messages.{Request, Response, Flags, answer, empty_response}
use network_disk_server.Service.{send, dispatch, echo}

-- All answers are `true`.
abbrev pub AllSucceed : List Response → Type 0
AllSucceed [] = Unit {0}
AllSucceed (r ∷ rs) = (r.res ≡ some true) × AllSucceed rs

-- All fields of the message are `required`: it can be sent only if all are set.
abbrev pub IsInitialized : Response → Type 0
IsInitialized r =
    (r.res ≢ none)
    × (r.shard ≢ none)
    × (r.part_index ≢ none)
    × (r.file_name ≢ none)
    × (r.body ≢ none)

module _ (h : Host) (flags : Flags) (sql : Mmysql) (request : Request) where
  open h use {State}

  abbrev Answered : Response → Response → Type 0
  Answered response r =
      (r.res ≢ none)
      × (r.body ≢ none)
      × (r.shard ≡ response.shard)
      × (r.part_index ≡ response.part_index)
      × (r.file_name ≡ response.file_name)

  dispatch-Answered :
      (response r : Response) (s t : State)
      → request.op_type ≢ msg_code download
      → dispatch h flags sql request response s ≡ some (r, t)
      → Answered response r
  unfolding dispatch
  dispatch-Answered response r s t other e =
      ground (arith, do_upload-Answered h flags sql request response r s t)

  -- The reply to every request but a download can be sent, and repeats the part that it is about. A
  -- reply with success says "upload success", whatever the handler put there.
  pub send-IsInitialized :
      (r : Response) (s t : State)
      → request.op_type ≢ msg_code download
      → send h flags sql request empty_response s ≡ some (r, t)
      → IsInitialized r
        × (r.shard ≡ some request.shard)
        × (r.part_index ≡ some request.part_index)
        × (r.file_name ≡ some request.file_name)
        × (r.res ≡ some true → r.body ≡ some (codes "upload success"))
  unfolding send
  send-IsInitialized r s t other e =
      elim (Option-cases (dispatch h flags sql request (echo request empty_response) s)) [
        | inl stop ↦ absurd (ground arith)
        | inr ((a, u), step) ↦
            ground (arith, dispatch-Answered (echo request empty_response) a s u other step)
      ]

  -- A request to download gets a reply without a result and without a body, which cannot be sent.
  send-download :
      (s : State)
      → request.op_type ≡ msg_code download
      → (r : Response) × (send h flags sql request empty_response s ≡ some (r, s))
        × ¬ IsInitialized r
  unfolding send dispatch
  send-download s download_op = (echo request empty_response, ground arith, ground arith)

  -- Any other request is refused, and touches neither the disk nor the database.
  pub send-unsupported :
      (s : State)
      → request.op_type ≢ msg_code upload
      → request.op_type ≢ msg_code download
      → send h flags sql request empty_response s
        ≡ some (answer (echo request empty_response) false "op not support", s)
  unfolding send dispatch
  send-unsupported s not_upload not_download = ground arith
