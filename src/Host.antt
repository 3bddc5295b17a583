-- ===== src/Host.antt =====
-- What the program calls and the repository does not hold: the POSIX calls on files and processes,
-- the MySQL client library, and the memory that is read before it is written. Every part of the
-- program that uses them takes a `Host` as a parameter.
use network_disk_server.Base.{ℕ, Bool, Option, List}
use network_disk_server.Base.Text.{Bytes}
use network_disk_server.Flags.{MysqlFlags}

-- `errno == EEXIST`; 17 on Linux.
abbrev pub eexist : ℕ
eexist = 17

-- A call that returns an `int` gives `none` for 0, and `some errno` for -1.
abbrev pub Outcome : Type 0
Outcome = Option ℕ

-- `MYSQL_ROW`
abbrev pub Row : Type 0
Row = List Bytes

pub record Host : Type 1 where
  pub State : Type 0
  -- mkdir(path, 0755), remove(path), symlink(target, path)
  pub mkdir : Bytes → State → Outcome × State
  pub remove : Bytes → State → Outcome × State
  pub symlink : Bytes → Bytes → State → Outcome × State
  -- access(path, F_OK) == 0
  pub accessible : Bytes → State → Bool
  -- opendir(path), `none` for NULL, and the names that readdir gives until it gives NULL
  pub opendir : Bytes → State → Option ℕ × State
  pub readdir_all : ℕ → State → List Bytes × State
  -- open(path, O_RDWR | O_CREAT, S_IREAD | S_IWRITE), `none` for -1; write and close, whose results
  -- the program drops
  pub open_create : Bytes → State → Option ℕ × State
  pub write : ℕ → Bytes → State → State
  pub close : ℕ → State → State
  -- popen(command, "r"), `none` for NULL, with all that the command prints on its standard output
  pub popen : Bytes → State → Option Bytes × State
  -- the byte at an index of an array that a function of the program declares and does not set
  pub stale : State → ℕ → ℕ
  -- send on a connected socket, whose result is only logged
  pub send : ℕ → Bytes → State → State
  -- recv of at most the given number of bytes, `none` for -1; the model keeps that many of them
  pub recv : ℕ → ℕ → State → Option Bytes × State
  -- the flags mysql_*; mysql_library_init, mysql_init, and the calls on a connection, of which
  -- mysql_real_connect has the host, the user, the password and the port; `true` is a result other
  -- than 0
  pub mysql_flags : MysqlFlags
  pub mysql_library_init : State → State
  pub mysql_init : State → ℕ × State
  pub mysql_real_connect : ℕ → Bytes → Bytes → Bytes → ℕ → State → Bool × State
  pub mysql_select_db : ℕ → Bytes → State → Bool × State
  pub mysql_real_query : ℕ → Bytes → State → Bool × State
  pub mysql_store_result : ℕ → State → Option ℕ × State
  pub mysql_fetch_row : ℕ → State → Option Row × State
  pub mysql_close : ℕ → State → State
