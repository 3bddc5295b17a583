-- ===== src/Register.antt =====
-- code/src/short_connect/view.cpp and register_view.cpp with their headers: `View`, the base of the
-- views, and `RegisterView`, which makes an account.
pub mod Commands
pub mod Accounts
pub mod Race
use network_disk_server.Base.{ℕ, Bool, true, false, Option, none, some, ◌++◌, if◌then◌else◌}
use network_disk_server.Base.Int.{ℤ, pos, minus_one, is_minus_one, nonzero}
use network_disk_server.Base.Fallible.{M, pure, fault, act, ◌>>=◌}
use network_disk_server.Base.Text.{Bytes, codes}
use network_disk_server.Host.{Host}
use network_disk_server.Json.{Json}
use network_disk_server.FileSys.{mkdir}
use network_disk_server.Mysql
use network_disk_server.Mysql.{Mmysql, run_query, fetch_res}

-- A view keeps its connection; `FileSys` has no state.
pub record View : Type 0 where
  pub sql : Mmysql

abbrev pub select_usr : Bytes → Bytes
select_usr usr = codes "SELECT uid FROM Usr where name = '" ++ (usr ++ codes "';")

unfoldable pub insert_usr_cmd : Bytes → Bytes → Bytes
insert_usr_cmd usr passwd =
    codes "INSERT INTO Usr (name, passwd) VALUES('"
    ++ (usr ++ (codes "','" ++ (passwd ++ codes "');")))

module _ (h : Host) where
  open h use {State}

  -- `View::Init`, which returns 0 whatever the connection is.
  unfoldable pub init : Bool → M State (View × ℤ × Bool)
  init done = do (sql, done') ← Mysql.init h done; pure (record { sql = sql }, pos 0, done')

  -- `View::~View`
  unfoldable pub destroy : View → M State (Unit {0})
  destroy view = Mysql.close h view.sql

  -- -1 if the query fails, else whether there is no such user.
  unfoldable pub usr_not_exist : View → Bytes → M State ℤ
  usr_not_exist view usr = do
    r ← run_query h view.sql (select_usr usr)
    elim r [
      | true ↦ pure minus_one
      | false ↦ do
        row ← fetch_res h view.sql
        elim row [ none ↦ pure (pos 1) | some _ ↦ pure (pos 0) ]
    ]

  unfoldable pub insert_usr : View → Bytes → Bytes → M State ℤ
  insert_usr view usr passwd = do
    r ← run_query h view.sql (insert_usr_cmd usr passwd)
    if r then pure minus_one else pure (pos 1)

  module _ (usr_dir : Bytes) where
    unfoldable pub create_usr_dir : Bytes → M State ℤ
    create_usr_dir usr = do
      r ← mkdir h (usr_dir ++ usr)
      if is_minus_one r then pure minus_one else pure (pos 1)

    -- The last step of the `do … while (0)` block.
    unfoldable pub finish_usr : Bytes → M State Bytes
    finish_usr usr = do
      rt ← create_usr_dir usr
      pure (
          if is_minus_one rt
          then codes "Fail: create usr dir failed"
          else codes "Success: regist usr " ++ usr)

    -- The step before it.
    unfoldable pub add_usr : View → Bytes → Bytes → M State Bytes
    add_usr view usr passwd = do
      rt ← insert_usr view usr passwd
      if is_minus_one rt then pure (codes "Fail: insert Usr table failed") else finish_usr usr

    -- The block, up to `response_msg`.
    unfoldable pub regist : View → Bytes → Bytes → M State Bytes
    regist view usr passwd = do
      rt ← usr_not_exist view usr
      elim (is_minus_one rt) [
        | true ↦ pure (codes "Fail: query failed")
        | false ↦
            if nonzero rt
            then add_usr view usr passwd
            else pure (codes "Fail: usr is existed, usr: " ++ usr)
      ]

module _ (h : Host) (j : Json) where
  open h use {State}
  open j use {Value, null, text, member, set_member, as_string, to_styled}

  -- An exception of the library is not caught.
  abbrev pub try : {A : Type 0} → Option A → M State A
  try none = fault
  try (some a) = pure a

  -- `SendResponse` of control.cpp, for `res["Response"] = msg` on a given value.
  unfoldable pub send_response : ℕ → Value → Bytes → M State (Unit {0})
  send_response fd val msg = do
    res ← try (set_member val (codes "Response") (text msg))
    act (h.send fd (to_styled res))

  -- `Value::operator[]` and `asString`
  unfoldable pub string_member : Value → Bytes → M State (Bytes × Value)
  string_member val key = do
    (field, val') ← try (member val key)
    s ← try (as_string field)
    pure (s, val')

  unfoldable pub process : Bytes → View → Value → ℕ → M State (Unit {0})
  process usr_dir view req_val client_fd = do
    (usr, req_val') ← string_member req_val (codes "Name")
    (passwd, req_val'') ← string_member req_val' (codes "Passwd")
    response_msg ← regist h usr_dir view usr passwd
    send_response client_fd null response_msg
