-- ===== src/Startup/Entry.antt =====
-- code/cmd/serverMain.cpp and code/include/logger.h: the two servers of one process, each in a thread
-- of its own, up to their event loops.
pub mod Keeps
pub mod Once
use network_disk_server.Base.{ℕ, zero, suc, Bool, Option, none, some, List, [], ◌∷◌, ◌++◌}
use network_disk_server.Base.Fallible.{M, pure, fault, call, act, ◌>>=◌, ◌>>◌}
use network_disk_server.Base.Interleave.{interleave}
use network_disk_server.Base.Text.{Bytes, codes}
use network_disk_server.Mysql.{Mmysql}
use network_disk_server.Control.{Control}
use network_disk_server.Acceptor.{Server, add_mpthread, create}
use network_disk_server.Startup.{Sockets, create_server, new_mpthread, long_run}

-- The flags ip, short_port, long_port and mpthread_num.
pub record ServerFlags : Type 0 where
  pub ip : Bytes
  pub short_port : ℕ
  pub long_port : ℕ
  pub mpthread_num : ℕ

abbrev pub default_server_flags : ServerFlags
default_server_flags = record {
  ip = codes "10.0.24.3";
  short_port = 8124;
  long_port = 8125;
  mpthread_num = 3;
}

-- Where the short server stands: before its socket, with so many workers still to make, or at its
-- event loop; and where the long one stands.
pub data ShortPhase : Type 0 where
  listens : ShortPhase
  makes : ℕ → Server → List Control → ShortPhase
  accepts : Server → List Control → ShortPhase

pub data LongPhase : Type 0 where
  starts : LongPhase
  waits : Mmysql → LongPhase

-- `init_google_logging` stands for glog's InitGoogleLogging and the settings after it.
module _ (n : Sockets) (init_google_logging : n.State → n.State) (flags : ServerFlags) where
  open n use {State, host, pipe}

  -- `Logger::Init`; the result of `mkdir` is dropped.
  unfoldable pub init_log : M State (Unit {0})
  init_log = do
    r ← call (host.opendir (codes "log"))
    elim r [
      | none ↦ call (host.mkdir (codes "log")) >> act init_google_logging
      | some dir ↦ act init_google_logging
    ]

  -- The machine with the flag of `pthread_once`, which the threads share.
  abbrev pub Shared : Type 0
  Shared = State × Bool

  unfoldable pub on_machine : {A : Type 0} → M State A → M Shared A
  on_machine m (s, done) = elim (m s) [ none ↦ none | some (a, t) ↦ some (a, (t, done)) ]

  unfoldable pub with_once : {A : Type 0} → (Bool → M State (A × Bool)) → M Shared A
  with_once m (s, done) = elim (m done s) [
    | none ↦ none
    | some ((a, done'), t) ↦ some (a, (t, done'))
  ]

  -- One worker.
  unfoldable pub make_worker : ℕ → Server → List Control → Option (ℕ × ℕ) → M Shared ShortPhase
  make_worker rounds s controls none = fault
  make_worker rounds s controls (some (read_end, write_end)) = do
    control ← with_once (new_mpthread n read_end)
    pure (makes rounds (add_mpthread (read_end, write_end) s) (controls ++ (control ∷ [])))

  -- `short_ser_thread_run`, by steps.
  unfoldable pub short_step : ShortPhase → M Shared ShortPhase
  short_step listens =
      on_machine (create_server n flags.ip flags.short_port)
      >> pure (makes flags.mpthread_num (create flags.mpthread_num) [])
  short_step (makes zero s controls) = pure (accepts s controls)
  short_step (makes (suc rounds) s controls) = do
    r ← on_machine (call pipe)
    make_worker rounds s controls r
  short_step (accepts s controls) = pure (accepts s controls)

  unfoldable pub long_step : LongPhase → M Shared LongPhase
  long_step starts = do sql ← with_once (long_run n flags.long_port); pure (waits sql)
  long_step (waits sql) = pure (waits sql)

  -- `runUntilAskedToQuit`, for one order of the steps of the two threads.
  unfoldable pub run_until_asked_to_quit : List Bool → M Shared (ShortPhase × LongPhase)
  run_until_asked_to_quit schedule =
      on_machine init_log >> interleave short_step long_step schedule listens starts
