-- ===== src/Service/Users/Schedule.antt =====
-- The requests of two users in any order, through `NetDiskServiceImpl::Send` of
-- code/src/long_connect/long_connection.cpp.
use network_disk_server.Base.{ℕ, Option, ◌^◌, ◌<◌, []}
use network_disk_server.Base.Text.{Bytes}
use network_disk_server.Upload.References.{IsQuotable}
use network_disk_server.Upload.Store.{Parts, Stage, Acts}
use network_disk_server.Service.Uploads.{reverse_onto, AllFit}
use network_disk_server.Service.Users.{AllFair, Sender, beside, Status}

module _ (g : Stage) (acts : Acts g) (q : IsQuotable g.sign) (q' : IsQuotable g.file_name)
    (small : g.shard < 2 ^ 31) (usr file_name : Bytes) (cursor : g.State → ℕ → Option ℕ)
    (acts' : Acts (beside g usr file_name cursor)) (q'' : IsQuotable file_name)
    (ps ps' : Parts) where
  open g use {State}

  abbrev pub other : Stage
  other = beside g usr file_name cursor

  -- All parts in the order in which they end up.
  abbrev pub upload : Parts
  upload = reverse_onto ps []

  abbrev pub upload' : Parts
  upload' = reverse_onto ps' []

  abbrev Served : Sender → Sender → State → Type 0
  Served x y s =
      AllFit x.left
      × AllFit y.left
      × AllFair g.host x.replies
      × AllFair g.host y.replies
      × Status g.host upload upload' g.shard x.left y.left (g.files s) (g.references s g.sign)
