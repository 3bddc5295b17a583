-- ===== src/Tests/Startup.antt =====
-- The start of a server with two workers.
use network_disk_server.Base.{ℕ, ◌+◌, ◌≡◌, refl, true, false, Option, none, some, [], ◌∷◌}
use network_disk_server.Base.Interleave.{interleave}
use network_disk_server.Flags.{default_idle_timeout_s}
use network_disk_server.Service
use network_disk_server.Mysql
use network_disk_server.Register
use network_disk_server.Control
use network_disk_server.Control.{Control}
use network_disk_server.Acceptor.{Server, create, add_mpthread}
use network_disk_server.Startup.{
  Sockets, new_mpthread, create_server, listen_event, fatal_unless, long_run,
}
use network_disk_server.Startup.Entry.{
  ServerFlags, default_server_flags, accepts, waits, run_until_asked_to_quit, short_step, long_step,
  make_worker, with_once, on_machine, init_log,
}
use network_disk_server.Startup.Entry.Keeps.{CountsInits}
use network_disk_server.Startup.Entry.Once.{run_until_asked_to_quit-Once}
use network_disk_server.Tests.Sandbox.{sandbox, Sandbox, clean_state}

-- The `dirt` of the sandbox counts the descriptors.
abbrev sockets : Sockets
sockets = record {
  host = sandbox;
  socket = λ s. (some 3, s);
  bind = λ fd ip port s. (true, s);
  listen = λ fd n s. (true, s);
  reuse_addr = λ fd s. s;
  event_new = λ fd s. (some 1, s);
  event_add = λ e s. (true, s);
  pipe = λ s. (some (s.dirt, s.dirt + 1), record s { dirt = s.dirt + 2 });
  pthread_create = λ fd s. s;
  add_service = λ s. (true, s);
  idle_timeout_s = default_idle_timeout_s;
  start = λ timeout port s. (true, s);
}

abbrev ready : Control
ready = record { view_map = (0, record { sql = record { sql_conn = some 1 } }) ∷ [] }

abbrev two_workers : Server
two_workers = record {
  mpthread_num = 2;
  mpthread_fd_list = 1 ∷ 3 ∷ [];
  pipes =
      record { read_fd = 0; write_fd = 1; content = [] }
      ∷ record { read_fd = 2; write_fd = 3; content = [] }
      ∷ [];
}

-- A machine that counts in `opens` how often the MySQL library was set up.
abbrev bump : Option ℕ → Option ℕ
bump none = some 1
bump (some k) = some (k + 1)

abbrev count_of : Option ℕ → ℕ
count_of none = 0
count_of (some k) = k

count_of-bump : (o : Option ℕ) → count_of (bump o) ≡ count_of o + 1
count_of-bump none = refl
count_of-bump (some k) = refl

abbrev counting : Sockets
counting = record sockets {
  host = record sandbox { mysql_library_init = λ s. record s { opens = bump s.opens } };
}

counting-CountsInits : CountsInits counting (λ s. s) (λ s. count_of s.opens)
counting-CountsInits = record {
  count_init = λ s. count_of-bump s.opens;
  keep_mysql_init = λ s. refl;
  keep_connect = λ c ip usr passwd port s. refl;
  keep_select = λ c database s. refl;
  keep_opendir = λ p s. refl;
  keep_mkdir = λ p s. refl;
  keep_logging = λ s. refl;
  keep_socket = λ s. refl;
  keep_bind = λ fd ip p s. refl;
  keep_listen = λ fd k s. refl;
  keep_reuse = λ fd s. refl;
  keep_event_new = λ fd s. refl;
  keep_event_add = λ e s. refl;
  keep_pipe = λ s. refl;
  keep_thread = λ fd s. refl;
  keep_service = λ s. refl;
  keep_start = λ timeout p s. refl;
}

abbrev one_worker : Server
one_worker = record {
  mpthread_num = 1;
  mpthread_fd_list = 1 ∷ [];
  pipes = record { read_fd = 0; write_fd = 1; content = [] } ∷ [];
}

abbrev flags : ServerFlags
flags = record default_server_flags { mpthread_num = 1 }

abbrev up : Sandbox
up = record clean_state { dirt = 2; opens = some 1 }

-- The short server makes its socket, the long one starts, and the worker follows.
run_until_asked_to_quit-one :
    run_until_asked_to_quit counting
      (λ s. s)
      flags
      (true ∷ false ∷ true ∷ true ∷ [])
      (clean_state, false)
    ≡ some ((accepts one_worker (ready ∷ []), waits (record { sql_conn = some 1 })), (up, true))
unfolding run_until_asked_to_quit short_step long_step make_worker with_once on_machine init_log
    interleave create_server listen_event fatal_unless new_mpthread long_run create add_mpthread
    Control.init Register.init Mysql.init Service.create
run_until_asked_to_quit-one = refl

run_until_asked_to_quit-Once_example : count_of up.opens ≡ 1
run_until_asked_to_quit-Once_example =
    run_until_asked_to_quit-Once counting (λ s. s) (λ s. count_of s.opens) counting-CountsInits
      flags (true ∷ false ∷ true ∷ true ∷ []) clean_state up true
      (accepts one_worker (ready ∷ []), waits (record { sql_conn = some 1 })) refl
      run_until_asked_to_quit-one
