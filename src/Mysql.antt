-- ===== src/Mysql.antt =====
-- code/src/mmsql.cpp and code/include/mmysql.h: `Mmysql`, a connection to the database.
use network_disk_server.Base.{ℕ, Bool, true, false, Option, none, some, if◌then◌else◌}
use network_disk_server.Base.Fallible.{M, pure, fault, call, act, ◌>>=◌, ◌>>◌}
use network_disk_server.Base.Text.{Bytes, c_str}
use network_disk_server.Host.{Host, Row}

-- `_sql_conn`; `none` is `nullptr`.
pub record Mmysql : Type 0 where
  pub sql_conn : Option ℕ

module _ (h : Host) where
  open h use {
    State, mysql_flags, mysql_library_init, mysql_init, mysql_real_connect, mysql_select_db,
    mysql_real_query, mysql_store_result, mysql_fetch_row, mysql_close,
  }

  -- The calls with the values of the flags.
  abbrev pub real_connect : ℕ → State → Bool × State
  real_connect sql_conn =
      mysql_real_connect sql_conn (c_str mysql_flags.mysql_ip) (c_str mysql_flags.mysql_usr)
        (c_str mysql_flags.mysql_passwd) mysql_flags.mysql_port

  abbrev pub select_db : ℕ → State → Bool × State
  select_db sql_conn = mysql_select_db sql_conn (c_str mysql_flags.mysql_database)

  unfoldable pub fetch_connection : M State (Option ℕ)
  fetch_connection = do
    sql_conn ← call mysql_init
    connected ← call (real_connect sql_conn)
    elim connected [
      | true ↦ do
        refused ← call (select_db sql_conn)
        pure (if refused then none else some sql_conn)
      | false ↦ pure none
    ]

  -- `pthread_once` runs `mysql_init_once` if its flag is still clear, and sets the flag.
  unfoldable pub init : Bool → M State (Mmysql × Bool)
  unfolding fetch_connection
  init done = do
    if done then pure tt else act mysql_library_init
    conn ← fetch_connection
    pure (record { sql_conn = conn }, true)

  unfoldable pub get_connection : Mmysql → Option ℕ
  get_connection sql = sql.sql_conn

  -- `mysql_close` of `nullptr` does nothing.
  unfoldable pub close : Mmysql → M State (Unit {0})
  close sql = elim sql.sql_conn [ none ↦ pure tt | some conn ↦ act (mysql_close conn) ]

  -- `true` for a result other than 0. The library dereferences the connection.
  unfoldable pub run_query : Mmysql → Bytes → M State Bool
  run_query sql cmd = elim sql.sql_conn [
    | none ↦ fault
    | some conn ↦ call (mysql_real_query conn cmd)
  ]

  -- The result of `mysql_store_result` goes on to `mysql_fetch_row`, NULL too.
  unfoldable pub fetch_res : Mmysql → M State (Option Row)
  fetch_res sql = elim sql.sql_conn [
    | none ↦ fault
    | some conn ↦ do
      sql_res ← call (mysql_store_result conn)
      elim sql_res [ none ↦ fault | some res ↦ call (mysql_fetch_row res) ]
  ]
