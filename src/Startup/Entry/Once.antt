-- ===== src/Startup/Entry/Once.antt =====
-- How often the start of code/cmd/serverMain.cpp sets up the MySQL library.
use network_disk_server.Base.{
  ℕ, zero, suc, ◌≡◌, Bool, true, false, Option, none, some, List, arith, Option-cases, inl, inr,
  if◌then◌else◌,
}
use network_disk_server.Base.Fallible.{M, call, ◌>>=◌, >>=-eq-some}
use network_disk_server.Base.Interleave.{interleave-Stays}
use network_disk_server.Mysql
use network_disk_server.Mysql.{Mmysql, fetch_connection}
use network_disk_server.Register
use network_disk_server.Control
use network_disk_server.Control.{Control}
use network_disk_server.Service
use network_disk_server.Startup.{Sockets, fatal_unless, create_server, new_mpthread, long_run}
use network_disk_server.Startup.Entry.{
  ServerFlags, ShortPhase, listens, makes, accepts, LongPhase, starts, waits, Shared, on_machine,
  with_once, init_log, make_worker, short_step, long_step, run_until_asked_to_quit,
}
use network_disk_server.Startup.Entry.Keeps.{
  CountsInits, bind-Keeps, call-Keeps, fatal-Keeps, fetch_connection-Keeps, create_server-Keeps,
  init_log-Keeps, Keeps,
}

module _ (n : Sockets) (log : n.State → n.State) (inits : n.State → ℕ)
    (laws : CountsInits n log inits) where
  open n use {State, host, pipe}

  -- The library has been set up once if the flag is set, and else not at all.
  abbrev Once : State × Bool → Type 0
  Once (s, done) = inits s ≡ (if done then 1 else 0)

  -- A run that may set the flag keeps that.
  abbrev Sets : {A : Type 0} → (Bool → M State (A × Bool)) → Type 0
  Sets {A} m =
      (s t : State) (d d' : Bool) (a : A) → m d s ≡ some ((a, d'), t) → Once (s, d) → Once (t, d')

  init-Sets : Sets (Mysql.init host)
  unfolding Mysql.init
  init-Sets s t false d' a run once =
      let (conn, u, fetched, rest) = >>=-eq-some (fetch_connection host) _ run in
      let kept =
        fetch_connection-Keeps n log inits laws (host.mysql_library_init s) u conn fetched in
      ground (arith, kept, laws.count_init s)
  init-Sets s t true d' a run once =
      let (conn, u, fetched, rest) = >>=-eq-some (fetch_connection host) _ run in
      let kept = fetch_connection-Keeps n log inits laws s u conn fetched in ground (arith, kept)

  new_mpthread-Sets : (fd : ℕ) → Sets (new_mpthread n fd)
  unfolding new_mpthread Control.init Register.init
  new_mpthread-Sets fd s t d d' a run once = elim (Option-cases (Mysql.init host d s)) [
    | inl stop ↦ absurd (ground arith)
    | inr (((sql, e), u), made) ↦
        let kept = init-Sets s u d e sql made once in ground (arith, kept, laws.keep_thread fd u)
  ]

  long_run-Sets : (port : ℕ) → Sets (long_run n port)
  unfolding long_run Service.create
  long_run-Sets port s t d d' a run once =
      let (p, u, made, r1) = >>=-eq-some (Mysql.init host d) _ run in
      let (x, v, served, r2) = >>=-eq-some (call n.add_service >>= fatal_unless n) _ r1 in
      let (y, w, started, r3) =
        >>=-eq-some (call (n.start n.idle_timeout_s port) >>= fatal_unless n) _ r2 in
      let kept = init-Sets s u d p.1 p.0 made once in
      let kept' =
        bind-Keeps n log inits laws _ _
          (call-Keeps n log inits laws n.add_service laws.keep_service)
          (fatal-Keeps n log inits laws) u v x served in
      let kept'' =
        bind-Keeps n log inits laws _ _
          (call-Keeps n log inits laws (n.start n.idle_timeout_s port)
            (laws.keep_start n.idle_timeout_s port))
          (fatal-Keeps n log inits laws) v w y started in
      ground (arith, kept, kept', kept'', r3)

  on_machine-Once :
      {A : Type 0} (flags : ServerFlags) (m : M State A)
      → Keeps n log inits laws m
      → (s t : Shared n log flags) (a : A) → on_machine n log flags m s ≡ some (a, t)
      → Once s
      → Once t
  unfolding on_machine
  on_machine-Once flags m keep (s, d) (t, d') a run once = elim (Option-cases (m s)) [
    | inl stop ↦ absurd (ground arith)
    | inr ((b, u), step) ↦ let kept = keep s u b step in ground (arith, kept)
  ]

  with_once-Once :
      {A : Type 0} (flags : ServerFlags) (m : Bool → M State (A × Bool))
      → Sets m
      → (s t : Shared n log flags) (a : A) → with_once n log flags m s ≡ some (a, t)
      → Once s
      → Once t
  unfolding with_once
  with_once-Once flags m sets (s, d) (t, d') a run once = elim (Option-cases (m d s)) [
    | inl stop ↦ absurd (ground arith)
    | inr (((b, e), u), step) ↦ let kept = sets s u d e b step once in ground (arith, kept)
  ]

  module _ (flags : ServerFlags) where
    short_step-Once :
        (p p' : ShortPhase) (s t : Shared n log flags)
        → short_step n log flags p s ≡ some (p', t)
        → Once s
        → Once t
    unfolding short_step make_worker
    short_step-Once listens p' s t run once =
        let (x, u, opened, rest) =
          >>=-eq-some (on_machine n log flags (create_server n flags.ip flags.short_port)) _ run in
        let kept =
          on_machine-Once flags _ (create_server-Keeps n log inits laws flags.ip flags.short_port) s
            u x opened once in
        ground (arith, kept, rest)
    short_step-Once (makes zero v cs) p' s t run once = ground (arith, once)
    short_step-Once (makes (suc rounds) v cs) p' s t run once =
        let (r, u, piped, rest) = >>=-eq-some (on_machine n log flags (call pipe)) _ run in
        let kept =
          on_machine-Once flags _ (call-Keeps n log inits laws pipe laws.keep_pipe) s u r piped
            once in
        made r u rest kept
      where
        made :
            (r : Option (ℕ × ℕ)) (u : Shared n log flags)
            → make_worker n log flags rounds v cs r u ≡ some (p', t)
            → Once u
            → Once t
        made none u rest kept = absurd (ground arith)
        made (some (a, b)) u rest kept =
            let (c, w, started, last) =
              >>=-eq-some (with_once n log flags (new_mpthread n a)) _ rest in
            let kept' = with_once-Once flags _ (new_mpthread-Sets a) u w c started kept in
            ground (arith, kept', last)
    short_step-Once (accepts v cs) p' s t run once = ground (arith, once)

    long_step-Once :
        (p p' : LongPhase) (s t : Shared n log flags)
        → long_step n log flags p s ≡ some (p', t)
        → Once s
        → Once t
    unfolding long_step
    long_step-Once starts p' s t run once =
        let (x, u, ran, rest) =
          >>=-eq-some (with_once n log flags (long_run n flags.long_port)) _ run in
        let kept = with_once-Once flags _ (long_run-Sets flags.long_port) s u x ran once in
        ground (arith, kept, rest)
    long_step-Once (waits sql) p' s t run once = ground (arith, once)

    -- On a machine where `inits` counts the calls that set up the MySQL library (`CountsInits`), from
    -- a state with none: in every order of the steps of the two servers of one process, a start
    -- that does not end the process has set up the library once if a control or the service of the
    -- long server has been made (the flag of `pthread_once` is set), and else not at all.
    pub run_until_asked_to_quit-Once :
        (schedule : List Bool) (s t : State) (done : Bool) (r : ShortPhase × LongPhase)
        → inits s ≡ 0
        → run_until_asked_to_quit n log flags schedule (s, false) ≡ some (r, (t, done))
        → inits t ≡ (if done then 1 else 0)
    unfolding run_until_asked_to_quit
    run_until_asked_to_quit-Once schedule s t done r none_yet run =
        let (x, u, logged, rest) =
          >>=-eq-some (on_machine n log flags (init_log n log flags)) _ run in
        interleave-Stays (short_step n log flags) (long_step n log flags) Once short_step-Once
          long_step-Once schedule listens starts u (t, done) r rest
          (on_machine-Once flags _ (init_log-Keeps n log inits laws flags) (s, false) u x logged
            none_yet)
