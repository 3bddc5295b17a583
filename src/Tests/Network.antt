-- ===== src/Tests/Network.antt =====
-- Connections, messages and the client on small machines.
use network_disk_server.Base.{
  ℕ, ◌≡◌, ap, refl, true, false, none, some, List, [], ◌∷◌, ◌++◌, arith, inl, length, take, drop,
}
use network_disk_server.Base.Int.{pos}
use network_disk_server.Base.Fallible.{act, ◌>>◌}
use network_disk_server.Base.Text.{Bytes, codes}
use network_disk_server.Flags.{default_mysql_flags, default_rpc_flags}
use network_disk_server.Host.{Host}
use network_disk_server.Json.{Json}
use network_disk_server.Mysql
use network_disk_server.Register
use network_disk_server.Register.{View, send_response}
use network_disk_server.Control
use network_disk_server.Control.{Control}
use network_disk_server.Control.Dispatch.{process-unserved}
use network_disk_server.Worker.{serve_client}
use network_disk_server.Worker.Receive.{serve_client-fits, serve_client-full}
use network_disk_server.Upload.Messages.{Request}
use network_disk_server.Client.Station.{Station}
use network_disk_server.Client.Terminal.{Terminal}
use network_disk_server.Client.Menu.{send_regist}
use network_disk_server.Client.Menu.Loop.{main_rounds, RefusesWords, main_rounds-garbled}
use network_disk_server.FileSys.Writing.{repeat}
use network_disk_server.Tests.Sandbox.{sandbox, Sandbox, clean_state}

-- A value is a type with a null; every message parses to the value 1, whose members are given.
abbrev json_with : ℕ → Json
json_with type = record {
  Value = ℕ;
  parse = λ text. (true, 100);
  null = 0;
  text = λ s. 50;
  number = λ n. 51;
  member = λ v key. some (type, v);
  set_member = λ v key w. some v;
  as_int = λ v. some (pos v);
  as_string = λ v. some (codes "ann");
  to_styled = λ v. codes "{}";
}

abbrev control : Control
control = record { view_map = (0, record { sql = record { sql_conn = some 1 } }) ∷ [] }

started : Control.init sandbox true clean_state ≡ some ((control, true, true), clean_state)
unfolding Control.init Register.init Mysql.init
started = refl

process-unserved_example :
    Control.process sandbox (json_with 1) (codes "/u/") control (codes "{}") 9 clean_state ≡ none
process-unserved_example =
    process-unserved sandbox (json_with 1) (codes "/u/") control
      (clean_state, clean_state, true, true, started) (codes "{}") 9 100 100 1 refl refl clean_state
      (inl refl)

abbrev greeted : Sandbox
greeted = record clean_state { receives = some (codes "{}") }

serve_client-fits_example :
    serve_client sandbox (json_with 7) (codes "/u/") control 9 greeted
    ≡ (Control.process sandbox (json_with 7) (codes "/u/") control (codes "{}") 9
          >> act (sandbox.close 9))
        greeted
serve_client-fits_example =
    serve_client-fits sandbox (json_with 7) (codes "/u/") control 9 (codes "{}") greeted greeted
      refl (omega arith) (omega arith)

abbrev flooded : Sandbox
flooded = record clean_state { receives = some (repeat 512 (1 ∷ [])) }

serve_client-full_example :
    serve_client sandbox (json_with 7) (codes "/u/") control 9 flooded ≡ none
serve_client-full_example =
    serve_client-full sandbox (json_with 7) (codes "/u/") control 9 (repeat 512 (1 ∷ [])) flooded
      flooded refl (omega arith) (omega arith)

-- The client's machine: the stream and the requests that went out.
pub record Desk : Type 0 where
  pub unread : Bytes
  pub sent : List Request

abbrev pub desk_host : Host
desk_host = record {
  State = Desk;
  mkdir = λ path s. (none, s);
  remove = λ path s. (none, s);
  symlink = λ target path s. (none, s);
  accessible = λ path s. false;
  opendir = λ path s. (none, s);
  readdir_all = λ dir s. ([], s);
  open_create = λ path s. (none, s);
  write = λ fd b s. s;
  close = λ fd s. s;
  popen = λ cmd s. (none, s);
  stale = λ s i. 0;
  send = λ fd b s. s;
  recv = λ fd n s. (none, s);
  mysql_library_init = λ s. s;
  mysql_init = λ s. (1, s);
  mysql_flags = default_mysql_flags;
  mysql_real_connect = λ conn ip usr passwd port s. (true, s);
  mysql_select_db = λ conn database s. (false, s);
  mysql_real_query = λ conn cmd s. (true, s);
  mysql_store_result = λ conn s. (none, s);
  mysql_fetch_row = λ res s. (none, s);
  mysql_close = λ conn s. s;
}

-- Fresh memory holds the byte `dirt` and then a NUL, after the block's two bytes.
abbrev station : ℕ → Station
station dirt = record {
  host = desk_host;
  fopen = λ path s. (some 4, s);
  fclose = λ fp s. s;
  fseek_end = λ fp s. (true, s);
  ftell = λ fp s. pos (length s.unread);
  rewind = λ fp s. s;
  fread = λ fp n s. (take n s.unread, record s { unread = drop n s.unread });
  malloc = λ n s. (0 ∷ 0 ∷ dirt ∷ 0 ∷ [], s);
  rpc_flags = default_rpc_flags;
  server = codes "10.0.24.3:8125";
  channel_init = λ flags server s. (true, s);
  send = λ q s. (none, record s { sent = s.sent ++ (q ∷ []) });
  md5 = λ b. b;
}

-- What is typed is what the desk has not read; a word that is no number is lost in the read of one,
-- and there is nothing to read any more.
abbrev keyboard : Terminal
keyboard = record {
  station = station 0;
  json = json_with 0;
  print = λ b s. s;
  read_word = λ s. (s.unread, record s { unread = [] });
  read_int = λ s. (pos 0, record s { unread = [] });
  strerror = λ s. codes "refused";
  socket = λ s. (some 8, s);
  connect = λ fd ip port s. (false, s);
  send_msg = λ fd b s. (true, s);
  json_stream = λ v. [];
}

abbrev typed : Desk
typed = record { unread = codes "five"; sent = [] }

keyboard-Refuses : RefusesWords keyboard (λ s. s.unread ≡ codes "five") (λ s. s.unread ≡ [])
keyboard-Refuses = record {
  read_zero = λ s e. (record s { unread = [] }, refl, refl);
  read_nothing = λ s e. (record s { unread = [] }, ap (λ b. (b, record s { unread = [] })) e, refl);
  print_garbled = λ msg s e. e;
  print_failed = λ msg s e. e;
}

main_rounds-garbled_example :
    (u : Desk) × (u.unread ≡ [])
    × (main_rounds keyboard 2 typed ≡ (send_regist keyboard [] [] >> main_rounds keyboard 1) u)
main_rounds-garbled_example = main_rounds-garbled keyboard _ _ keyboard-Refuses 1 typed refl
