-- ===== src/Service/Users.antt =====
-- Two users who send one file at the same time, through `NetDiskServiceImpl::Send` of
-- code/src/long_connect/long_connection.cpp, which handles the requests one at a time.
pub mod Steps
pub mod Schedule
use network_disk_server.Base.{
  ℕ, zero, suc, ◌+◌, ◌^◌, ◌≤◌, ◌<◌, ◌≡◌, ◌≢◌, ◌⊎◌, inl, inr, refl, sym, ap, ◌∙◌, Bool, true, false,
  Option, none, some, List, [], ◌∷◌, arith, ◌==◌, length, Bool-cases, if◌then◌else◌,
}
use network_disk_server.Base.Distinct.{has, distinct}
use network_disk_server.Base.Fallible.{M, pure, ◌>>=◌, >>=-run}
use network_disk_server.Base.Interleave.{interleave, interleave-Keeps}
use network_disk_server.Base.Text.{codes, Bytes, Lacks, bytes_eq_self}
use network_disk_server.Host.{Host}
use network_disk_server.Upload.Race.Steps.{total}
use network_disk_server.FileSys.{write_len}
use network_disk_server.Upload.Messages.{Response, empty_response}
use network_disk_server.Upload.References.{IsQuotable, counted, one_more}
use network_disk_server.Upload.Store.{
  Leftover, Files, Parts, Stage, Acts, base, part, indices, received,
}
use network_disk_server.Service.{send}
use network_disk_server.Service.Replies.{AllSucceed}
use network_disk_server.Service.Uploads.{reverse_onto, AllFit, reply, send-Receives, first_new}
use network_disk_server.Service.Again.{speedy, send-Speeds}

-- The parts that a client has still to send, and the answers that it has, the last one first.
pub record Sender : Type 0 where
  pub left : Parts
  pub replies : List Response

-- Each answer is a success, or "mv failed" where the array of `ShellOut` does not begin with a NUL.
abbrev pub AllFair : Host → List Response → Type 0
AllFair h [] = Unit {0}
AllFair h (r ∷ rs) =
    ((r.res ≡ some true) ⊎ ((r.body ≡ some (codes "mv failed")) × Leftover h)) × AllFair h rs

-- The directories as the other user sees them.
abbrev pub swap : Files → Files
swap f = record { parts = f.others; stored = f.stored; others = f.parts }

-- The other user's upload of the same file to the same machine, whose parts are open where `cursor`
-- tells.
abbrev pub beside : (g : Stage) → Bytes → Bytes → (g.State → ℕ → Option ℕ) → Stage
beside g usr file_name cursor = record g {
  usr = usr;
  file_name = file_name;
  cursor = cursor;
  files = λ s. swap (g.files s);
}

-- The next request of a client, which waits for its answer.
unfoldable pub send_next : (g : Stage) → Sender → M g.State Sender
send_next g x = elim x.left [
  | [] ↦ pure x
  | p ∷ ps ↦ do
    r ← send g.host g.flags (base g) (part g p.0 p.1) empty_response
    pure (record { left = ps; replies = r ∷ x.replies })
]

module _ (h : Host) (all all' : Parts) (shard : ℕ) where
  -- Before either user is through: each has a part to send, and what is there and what is left makes
  -- up the upload.
  abbrev pub Open : Parts → Parts → Files → Option ℕ → Type 0
  Open left left' f count =
      (f.stored ≡ none)
      × (reverse_onto left f.parts ≡ all)
      × (reverse_onto left' f.others ≡ all')
      × (left ≢ [])
      × (left' ≢ [])
      × (count ≡ none)

  -- After that: the file is one of the uploads, and each request counts once more. The request that
  -- completed the file has counted, unless its `mv` seemed to have printed something.
  abbrev pub Closed : Parts → Parts → Files → Option ℕ → Type 0
  Closed left left' f count =
      (w : Parts) × (f.stored ≡ some w)
      × ((w ≡ all) ⊎ (w ≡ all'))
      × ((2 ≤ total count + (length left + length left'))
          ⊎ (Leftover h × (1 ≤ total count + (length left + length left'))))
      × (total count + (length left + length left') ≤ shard + 1)

  abbrev pub Status : Parts → Parts → Files → Option ℕ → Type 0
  Status left left' f count = Open left left' f count ⊎ Closed left left' f count

-- A client that has sent nothing yet.
abbrev pub ready : Parts → Sender
ready ps = record { left = ps; replies = [] }
