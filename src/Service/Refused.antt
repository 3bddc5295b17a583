-- ===== src/Service/Refused.antt =====
-- A part with a wrong sign among the requests for a file, through `NetDiskServiceImpl::Send` of
-- code/src/long_connect/long_connection.cpp.
use network_disk_server.Base.{ℕ, false}
use network_disk_server.Base.Text.{Bytes}
use network_disk_server.Upload.Messages.{Response, empty_response, answer}
use network_disk_server.Upload.Store.{Stage}
use network_disk_server.Upload.Store.Refuse.{forged}
use network_disk_server.Service.{echo}

-- The reply to a part with a wrong sign.
abbrev pub refusal : (g : Stage) → ℕ → Bytes → Bytes → Response
refusal g i body sign =
    answer (echo (forged g i body sign) empty_response) false "part sign check error"
