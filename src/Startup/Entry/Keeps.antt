-- ===== src/Startup/Entry/Keeps.antt =====
-- What in the start of code/cmd/serverMain.cpp does not set up the MySQL library.
use network_disk_server.Base.{
  ℕ, ◌+◌, ◌≡◌, ◌∙◌, Bool, true, false, Option, none, some, arith, if◌then◌else◌,
}
use network_disk_server.Base.Fallible.{M, pure, fault, call, act, ◌>>=◌, ◌>>◌, >>=-eq-some}
use network_disk_server.Base.Int.{ℤ}
use network_disk_server.Base.Text.{Bytes, codes}
use network_disk_server.Mysql.{fetch_connection, real_connect, select_db}
use network_disk_server.Startup.{Sockets, backlog, fatal_unless, listen_event, create_server}
use network_disk_server.Startup.Entry.{ServerFlags, init_log}

-- `inits` counts the calls of mysql_library_init.
pub record CountsInits (n : Sockets) (init_google_logging : n.State → n.State) (inits : n.State → ℕ)
    : Type 0 where
  pub count_init : (s : n.State) → inits (n.host.mysql_library_init s) ≡ inits s + 1
  pub keep_mysql_init : (s : n.State) → inits (n.host.mysql_init s).1 ≡ inits s
  pub keep_connect :
      (c : ℕ) (ip usr passwd : Bytes) (port : ℕ) (s : n.State)
      → inits (n.host.mysql_real_connect c ip usr passwd port s).1 ≡ inits s
  pub keep_select :
      (c : ℕ) (database : Bytes) (s : n.State)
      → inits (n.host.mysql_select_db c database s).1 ≡ inits s
  pub keep_opendir : (p : Bytes) (s : n.State) → inits (n.host.opendir p s).1 ≡ inits s
  pub keep_mkdir : (p : Bytes) (s : n.State) → inits (n.host.mkdir p s).1 ≡ inits s
  pub keep_logging : (s : n.State) → inits (init_google_logging s) ≡ inits s
  pub keep_socket : (s : n.State) → inits (n.socket s).1 ≡ inits s
  pub keep_bind : (fd : ℕ) (ip : Bytes) (p : ℕ) (s : n.State) → inits (n.bind fd ip p s).1 ≡ inits s
  pub keep_listen : (fd k : ℕ) (s : n.State) → inits (n.listen fd k s).1 ≡ inits s
  pub keep_reuse : (fd : ℕ) (s : n.State) → inits (n.reuse_addr fd s) ≡ inits s
  pub keep_event_new : (fd : ℕ) (s : n.State) → inits (n.event_new fd s).1 ≡ inits s
  pub keep_event_add : (e : ℕ) (s : n.State) → inits (n.event_add e s).1 ≡ inits s
  pub keep_pipe : (s : n.State) → inits (n.pipe s).1 ≡ inits s
  pub keep_thread : (fd : ℕ) (s : n.State) → inits (n.pthread_create fd s) ≡ inits s
  pub keep_service : (s : n.State) → inits (n.add_service s).1 ≡ inits s
  pub keep_start :
      (idle_timeout_s : ℤ) (p : ℕ) (s : n.State) → inits (n.start idle_timeout_s p s).1 ≡ inits s

module _ (n : Sockets) (log : n.State → n.State) (inits : n.State → ℕ)
    (laws : CountsInits n log inits) where
  open n use {State, host, pipe}

  -- A run that ends has not set up the library.
  abbrev pub Keeps : {A : Type 0} → M State A → Type 0
  Keeps {A} m = (s t : State) (a : A) → m s ≡ some (a, t) → inits t ≡ inits s

  pub bind-Keeps :
      {A B : Type 0} (m : M State A) (f : A → M State B)
      → Keeps m
      → ((a : A) → Keeps (f a))
      → Keeps (m >>= f)
  bind-Keeps m f k k' s t b run =
      let (a, u, first, rest) = >>=-eq-some m f run in k' a u t b rest ∙ k s u a first

  pub call-Keeps :
      {A : Type 0} (f : State → A × State)
      → ((s : State) → inits (f s).1 ≡ inits s)
      → Keeps (call f)
  call-Keeps f k s t a run = ground (arith, k s)

  act-Keeps : (f : State → State) → ((s : State) → inits (f s) ≡ inits s) → Keeps (act f)
  act-Keeps f k s t a run = ground (arith, k s)

  pub pure-Keeps : {A : Type 0} (a : A) → Keeps (pure {S = State} a)
  pure-Keeps a s t b run = ground arith

  fault-Keeps : {A : Type 0} → Keeps (fault {S = State} {A = A})
  fault-Keeps s t b run = absurd (ground arith)

  pub fatal-Keeps : (b : Bool) → Keeps (fatal_unless n b)
  unfolding fatal_unless
  fatal-Keeps true = pure-Keeps tt
  fatal-Keeps false = fault-Keeps

  pub fetch_connection-Keeps : Keeps (fetch_connection host)
  unfolding fetch_connection
  fetch_connection-Keeps = bind-Keeps _ _ (call-Keeps host.mysql_init laws.keep_mysql_init) (λ c.
      bind-Keeps _ _ (call-Keeps (real_connect host c) (laws.keep_connect c _ _ _ _)) (connected c))
    where
      connected :
          (c : ℕ) (b : Bool)
          → Keeps {A = Option ℕ} (elim b [
            | true ↦ do refused ← call (select_db host c); pure (if refused then none else some c)
            | false ↦ pure none
          ])
      connected c true =
          bind-Keeps _ _ (call-Keeps (select_db host c) (laws.keep_select c _))
            (λ r. pure-Keeps (if r then none else some c))
      connected c false = pure-Keeps none

  listen_event-Keeps : (fd : ℕ) → Keeps (listen_event n fd)
  unfolding listen_event
  listen_event-Keeps fd = bind-Keeps _ _ (call-Keeps _ (laws.keep_event_new fd)) added
    where
      added :
          (r : Option ℕ)
          → Keeps {A = Unit {0}}
              (elim r [ none ↦ fault | some e ↦ call (n.event_add e) >>= fatal_unless n ])
      added none = fault-Keeps
      added (some e) =
          bind-Keeps _ _ (call-Keeps (n.event_add e) (laws.keep_event_add e)) fatal-Keeps

  pub create_server-Keeps : (ip : Bytes) (port : ℕ) → Keeps (create_server n ip port)
  unfolding create_server
  create_server-Keeps ip port = bind-Keeps _ _ (call-Keeps _ laws.keep_socket) opened
    where
      opened :
          (r : Option ℕ)
          → Keeps {A = Unit {0}} (elim r [
            | none ↦ fault
            | some fd ↦ do
              call (n.bind fd ip port) >>= fatal_unless n
              act (n.reuse_addr fd)
              call (n.listen fd backlog) >>= fatal_unless n
              listen_event n fd
          ])
      opened none = fault-Keeps
      opened (some fd) =
          bind-Keeps _ _
            (bind-Keeps _ _ (call-Keeps (n.bind fd ip port) (laws.keep_bind fd ip port))
              fatal-Keeps)
            (λ _. bind-Keeps _ _ (act-Keeps (n.reuse_addr fd) (laws.keep_reuse fd)) (λ _.
              bind-Keeps _ _
                (bind-Keeps _ _ (call-Keeps (n.listen fd backlog) (laws.keep_listen fd backlog))
                  fatal-Keeps)
                (λ _. listen_event-Keeps fd)))

  pub init_log-Keeps : (flags : ServerFlags) → Keeps (init_log n log flags)
  unfolding init_log
  init_log-Keeps flags = bind-Keeps _ _ (call-Keeps _ (laws.keep_opendir (codes "log"))) made
    where
      made :
          (r : Option ℕ)
          → Keeps {A = Unit {0}}
              (elim r [ none ↦ call (host.mkdir (codes "log")) >> act log | some dir ↦ act log ])
      made none =
          bind-Keeps _ _ (call-Keeps (host.mkdir (codes "log")) (laws.keep_mkdir (codes "log")))
            (λ _. act-Keeps log laws.keep_logging)
      made (some dir) = act-Keeps log laws.keep_logging
