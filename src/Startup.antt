-- ===== src/Startup.antt =====
-- How the two servers start: code/src/short_connect/short_connection.cpp and mpthread.cpp up to the
-- event loops, and `LongConnectionServer::Run` of code/src/long_connect/long_connection.cpp.
pub mod Workers
pub mod Entry
use network_disk_server.Base.{ℕ, zero, suc, Bool, true, false, Option, none, some, List, [], ◌∷◌}
use network_disk_server.Base.Fallible.{M, pure, fault, call, act, ◌>>=◌, ◌>>◌}
use network_disk_server.Base.Int.{ℤ}
use network_disk_server.Base.Text.{Bytes}
use network_disk_server.Host.{Host}
use network_disk_server.Mysql.{Mmysql}
use network_disk_server.Control
use network_disk_server.Control.{Control}
use network_disk_server.Service
use network_disk_server.Acceptor.{Server, add_mpthread}

-- Sockets, pipes, threads, libevent and brpc. A Boolean is `true` for a result that the program
-- takes as a success.
pub record Sockets : Type 1 where
  pub host : Host
  pub open host use {State}
  -- socket(AF_INET, SOCK_STREAM, 0), `none` for -1; bind to an address and a port; listen
  pub socket : State → Option ℕ × State
  pub bind : ℕ → Bytes → ℕ → State → Bool × State
  pub listen : ℕ → ℕ → State → Bool × State
  -- setsockopt for SO_REUSEADDR, whose result is dropped
  pub reuse_addr : ℕ → State → State
  -- event_new for reads of a descriptor, `none` for NULL, and event_add
  pub event_new : ℕ → State → Option ℕ × State
  pub event_add : ℕ → State → Bool × State
  -- pipe, the reading end first; pthread_create of a worker that reads that end
  pub pipe : State → Option (ℕ × ℕ) × State
  pub pthread_create : ℕ → State → State
  -- brpc::Server::AddService; the flag idle_timeout_s; Start with it as the option, on a port
  pub add_service : State → Bool × State
  pub idle_timeout_s : ℤ
  pub start : ℤ → ℕ → State → Bool × State

-- The second argument of `listen`.
abbrev pub backlog : ℕ
backlog = 20

module _ (n : Sockets) where
  open n use {
    State, host, socket, bind, listen, reuse_addr, event_new, event_add, pipe, pthread_create,
    add_service, idle_timeout_s, start,
  }

  -- `LOG(FATAL)` ends the process.
  unfoldable pub fatal_unless : Bool → M State (Unit {0})
  fatal_unless true = pure tt
  fatal_unless false = fault

  -- A null pointer from `event_new` is only logged, and `event_add` reads it.
  unfoldable pub listen_event : ℕ → M State (Unit {0})
  listen_event main_socket = do
    r ← call (event_new main_socket)
    elim r [ none ↦ fault | some event ↦ call (event_add event) >>= fatal_unless ]

  unfoldable pub create_server : Bytes → ℕ → M State (Unit {0})
  create_server ip port = do
    r ← call socket
    elim r [
      | none ↦ fault
      | some main_socket ↦ do
        call (bind main_socket ip port) >>= fatal_unless
        act (reuse_addr main_socket)
        call (listen main_socket backlog) >>= fatal_unless
        listen_event main_socket
    ]

  -- The constructor of `Mpthread`, with the flag whether the MySQL library has been set up.
  unfoldable pub new_mpthread : ℕ → Bool → M State (Control × Bool)
  new_mpthread read_fd done = do
    (control, ready, done') ← Control.init host done
    elim ready [ false ↦ fault | true ↦ act (pthread_create read_fd) >> pure (control, done') ]

  -- What the new thread does before its event loop; the result of `event_add` is dropped.
  unfoldable pub thread_run : ℕ → M State (Unit {0})
  thread_run read_fd = do
    r ← call (event_new read_fd)
    elim r [ none ↦ fault | some event ↦ call (event_add event) >> pure tt ]

  -- `createMpthread`, by the rounds left, with the controls of the workers.
  unfoldable pub start_workers : ℕ → Bool → Server → M State (Server × List Control × Bool)
  start_workers zero done s = pure (s, [], done)
  start_workers (suc rounds) done s = do
    r ← call pipe
    elim r [
      | none ↦ fault
      | some (read_end, write_end) ↦ do
        (control, done') ← new_mpthread read_end done
        (t, controls, done'') ← start_workers rounds done' (add_mpthread (read_end, write_end) s)
        pure (t, control ∷ controls, done'')
    ]

  -- `ShortConnectionServer::Run` up to the event loop.
  unfoldable pub short_run : Bytes → ℕ → Bool → Server → M State (Server × List Control × Bool)
  short_run ip port done s = create_server ip port >> start_workers s.mpthread_num done s

  -- `LongConnectionServer::Run` up to `RunUntilAskedToQuit`.
  unfoldable pub long_run : ℕ → Bool → M State (Mmysql × Bool)
  long_run port done = do
    (sql, done') ← Service.create host done
    call add_service >>= fatal_unless
    call (start idle_timeout_s port) >>= fatal_unless
    pure (sql, done')
