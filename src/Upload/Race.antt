-- ===== src/Upload/Race.antt =====
-- Two requests at a time in `linkToUsr` of code/src/long_connect/upload_rpc.cpp. The mutex covers an
-- INSERT or an UPDATE, and not the SELECT before it, so other threads run between these steps.
pub mod Steps
pub mod Counts
use network_disk_server.Base.{true, false, Option, none, some, if◌then◌else◌}
use network_disk_server.Base.Int.{ℤ, pos, minus_one, nonzero}
use network_disk_server.Base.Fallible.{M, pure, ◌>>=◌}
use network_disk_server.Base.Text.{Bytes}
use network_disk_server.Host.{Host}
use network_disk_server.FileSys.{link}
use network_disk_server.Mysql.{Mmysql, run_query, fetch_res}
use network_disk_server.Upload.{select_sign, add_sign_map, increment_sign_map}

-- Where a call of `linkToUsr` stands: before the link, the SELECT, the reading of its row, the INSERT
-- or the UPDATE, or at its end. All handlers share one connection, and no mutex covers the SELECT and
-- the reading of its row.
pub data LinkPhase : Type 0 where
  links selects fetches inserts updates : LinkPhase
  returns : ℤ → LinkPhase

-- The arguments of a call.
pub record LinkCall : Type 0 where
  pub src : Bytes
  pub dst : Bytes
  pub sign : Bytes
  pub file_name : Bytes

module _ (h : Host) (sql : Mmysql) (c : LinkCall) where
  open h use {State}

  unfoldable pub link_step : LinkPhase → M State LinkPhase
  link_step links = do
    code ← link h c.src c.dst
    pure (if nonzero code then returns minus_one else selects)
  link_step selects = do
    r ← run_query h sql (select_sign c.sign)
    pure (if r then returns minus_one else fetches)
  link_step fetches = do
    row ← fetch_res h sql
    elim row [ none ↦ pure inserts | some _ ↦ pure updates ]
  link_step inserts = do
    code ← add_sign_map h sql c.sign c.file_name
    pure (returns (if nonzero code then minus_one else pos 0))
  link_step updates = do code ← increment_sign_map h sql c.sign; pure (returns code)
  link_step (returns code) = pure (returns code)

  -- One step, but a SELECT together with the reading of its row.
  unfoldable pub link_turn : LinkPhase → M State LinkPhase
  link_turn selects = do p ← link_step selects; link_step p
  link_turn p = link_step p
