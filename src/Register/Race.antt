-- ===== src/Register/Race.antt =====
-- Two workers at a time in `RegisterView::Process` of code/src/short_connect/register_view.cpp. Each
-- has a connection of its own, and nothing keeps the other from running between the SELECT and the
-- INSERT.
pub mod Winner
use network_disk_server.Base.{true, false, ◌++◌, if◌then◌else◌}
use network_disk_server.Base.Int.{is_minus_one, nonzero}
use network_disk_server.Base.Fallible.{M, pure, ◌>>=◌}
use network_disk_server.Base.Text.{Bytes, codes}
use network_disk_server.Host.{Host}
use network_disk_server.Register.{View, usr_not_exist, insert_usr, finish_usr}

-- Where a registration stands: before the SELECT, the INSERT or the directory, or at its answer.
pub data RegistPhase : Type 0 where
  asks adds makes : RegistPhase
  answers : Bytes → RegistPhase

module _ (h : Host) (usr_dir : Bytes) (view : View) (usr passwd : Bytes) where
  open h use {State}

  unfoldable pub regist_step : RegistPhase → M State RegistPhase
  regist_step asks = do
    rt ← usr_not_exist h view usr
    pure (
        if is_minus_one rt
        then answers (codes "Fail: query failed")
        else if nonzero rt
        then adds
        else answers (codes "Fail: usr is existed, usr: " ++ usr))
  regist_step adds = do
    rt ← insert_usr h view usr passwd
    pure (if is_minus_one rt then answers (codes "Fail: insert Usr table failed") else makes)
  regist_step makes = do msg ← finish_usr h usr_dir usr; pure (answers msg)
  regist_step (answers msg) = pure (answers msg)
