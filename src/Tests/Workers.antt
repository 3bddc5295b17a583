-- ===== src/Tests/Workers.antt =====
-- Connections on their way to two workers.
use mathlib.Core.List.{Perm}
use network_disk_server.Base.{ℕ, ◌+◌, ◌≡◌, refl, Option, some, List, [], ◌∷◌, ◌++◌}
use network_disk_server.Acceptor.{
  Server, Pipe, read_pipe, create, run, create_mpthread, add_mpthread, get_mpthread_fd, write_pipe,
  main_connect_by_client,
}
use network_disk_server.Acceptor.Transit.{Transit, Step, Reach, Reach-Conserved}
use network_disk_server.Acceptor.Fifo.{Journal, Opens, Pass, Passes, Passes-Ordered, append_at}
use network_disk_server.Acceptor.Drain.{Reads, Reach-Drained}

abbrev pipes : ℕ → Option (ℕ × ℕ)
pipes i = some (10 + i, 20 + i)

abbrev two_workers : Server
two_workers = record {
  mpthread_num = 2;
  mpthread_fd_list = 20 ∷ 21 ∷ [];
  pipes =
      record { read_fd = 10; write_fd = 20; content = [] }
      ∷ record { read_fd = 11; write_fd = 21; content = [] }
      ∷ [];
}

run-two : run pipes (create 2) ≡ some two_workers
unfolding run create create_mpthread add_mpthread
run-two = refl

abbrev idle : Transit
idle = record { server = two_workers; accepted = []; taken = [] }

abbrev waiting : Server
waiting = record two_workers {
  pipes =
      record { read_fd = 10; write_fd = 20; content = [] }
      ∷ record { read_fd = 11; write_fd = 21; content = 7 ∷ [] }
      ∷ [];
}

one_accept : Step idle (record idle { server = waiting; accepted = 7 ∷ [] })
unfolding main_connect_by_client get_mpthread_fd write_pipe
one_accept = Step.accepts 7 5 waiting refl refl

Reach-Conserved_example : Perm {A = ℕ} (7 ∷ []) (7 ∷ [])
Reach-Conserved_example =
    Reach-Conserved pipes 2 idle (record idle { server = waiting; accepted = 7 ∷ [] })
      (run-two, refl, refl) (Reach.next Reach.here one_accept)

Reach-Drained_example :
    (e : Transit) × Reads e 1 (record idle { server = waiting; accepted = 7 ∷ [] })
    × (e.accepted ≡ 7 ∷ [])
    × Perm e.accepted e.taken
Reach-Drained_example =
    Reach-Drained pipes 2 idle (record idle { server = waiting; accepted = 7 ∷ [] })
      (run-two, refl, refl) (Reach.next Reach.here one_accept)

abbrev no_news : Journal
no_news = record { server = two_workers; assigned = λ i. []; taken = λ i. [] }

opens : Opens pipes 2 no_news
opens = record {
  running = run-two;
  different = refl;
  none_assigned = λ i. refl;
  none_taken = λ i. refl;
}

-- Two connections for worker 1, of which it has read one.
abbrev first_in : Journal
first_in = record no_news { server = waiting; assigned = append_at (λ i. []) 1 7 }

abbrev both_waiting : Server
both_waiting = record two_workers {
  pipes =
      record { read_fd = 10; write_fd = 20; content = [] }
      ∷ record { read_fd = 11; write_fd = 21; content = 7 ∷ 8 ∷ [] }
      ∷ [];
}

abbrev second_in : Journal
second_in = record first_in { server = both_waiting; assigned = append_at first_in.assigned 1 8 }

abbrev one_left : List Pipe
one_left =
    record { read_fd = 10; write_fd = 20; content = [] }
    ∷ record { read_fd = 11; write_fd = 21; content = 8 ∷ [] }
    ∷ []

abbrev first_out : Journal
first_out = record second_in {
  server = record both_waiting { pipes = one_left };
  taken = append_at (λ i. []) 1 7;
}

two_accepts : Passes no_news second_in
unfolding main_connect_by_client get_mpthread_fd write_pipe
two_accepts =
    Passes.next (Passes.next Passes.here (Pass.accepts 7 5 waiting refl refl))
      (Pass.accepts 8 3 both_waiting refl refl)

one_read : Pass second_in first_out
unfolding read_pipe
one_read = Pass.takes 1 7 one_left refl refl

Passes-Ordered_example : ◌≡◌ {A = List ℕ} (7 ∷ 8 ∷ []) ((7 ∷ []) ++ (8 ∷ []))
Passes-Ordered_example =
    Passes-Ordered pipes 2 no_news first_out 1 opens (Passes.next two_accepts one_read)
