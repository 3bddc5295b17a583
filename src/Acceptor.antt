-- ===== src/Acceptor.antt =====
-- code/src/short_connect/short_connection.cpp and its header: the main thread, which accepts clients
-- and passes each one to a worker over that worker's pipe.
pub mod Reach
pub mod Transit
pub mod Fifo
pub mod Drain
use network_disk_server.Base.{
  ℕ, zero, suc, ◌+◌, ◌%◌, Option, none, some, List, [], ◌∷◌, ◌++◌, ◌==◌, if◌then◌else◌, get_elem?,
}

-- The pipe of one worker: its two ends and what has been written and not yet read, oldest first.
pub record Pipe : Type 0 where
  pub read_fd : ℕ
  pub write_fd : ℕ
  pub content : List ℕ

-- `ShortConnectionServer`; the pipes stand in the order in which their workers were made.
pub record Server : Type 0 where
  pub mpthread_num : ℕ
  pub mpthread_fd_list : List ℕ
  pub pipes : List Pipe

-- The constructor.
unfoldable pub create : ℕ → Server
create mpthread_num = record { mpthread_num = mpthread_num; mpthread_fd_list = []; pipes = [] }

-- One round of the loop: a pipe, a worker that reads its end 0, and its end 1 in the list.
unfoldable pub add_mpthread : ℕ × ℕ → Server → Server
add_mpthread (read_end, write_end) s = record s {
  mpthread_fd_list = s.mpthread_fd_list ++ (write_end ∷ []);
  pipes = s.pipes ++ (record { read_fd = read_end; write_fd = write_end; content = [] } ∷ []);
}

-- `createMpthread`; `pipe` gives the descriptors of round `i`, and a failure of it ends the
-- process.
unfoldable pub create_mpthread : (ℕ → Option (ℕ × ℕ)) → ℕ → ℕ → Server → Option Server
create_mpthread pipe i zero s = some s
create_mpthread pipe i (suc rounds) s = elim (pipe i) [
  | none ↦ none
  | some ends ↦ create_mpthread pipe (i + 1) rounds (add_mpthread ends s)
]

-- `Run`, up to the event loop.
unfoldable pub run : (ℕ → Option (ℕ × ℕ)) → Server → Option Server
run pipe s = create_mpthread pipe 0 s.mpthread_num s

-- `GetMpthreadFd`: an index out of range is undefined.
unfoldable pub get_mpthread_fd : Server → ℕ → Option ℕ
get_mpthread_fd s index = get_elem? s.mpthread_fd_list index

-- `write` on the pipe with this writing end.
unfoldable pub write_pipe : ℕ → ℕ → List Pipe → List Pipe
write_pipe fd client_fd [] = []
write_pipe fd client_fd (p ∷ ps) =
    if p.write_fd == fd
    then record p { content = p.content ++ (client_fd ∷ []) } ∷ ps
    else p ∷ write_pipe fd client_fd ps

-- `mainConnectByClient`, from the result of `accept` and the number that `rand` gives on. `none` is
-- a division by zero or a read outside the vector.
unfoldable pub main_connect_by_client : Option ℕ → ℕ → Server → Option Server
main_connect_by_client none r s = some s
main_connect_by_client (some client_fd) r s =
    if s.mpthread_num == 0 then none else elim (get_mpthread_fd s (r % s.mpthread_num)) [
      | none ↦ none
      | some fd ↦ some (record s { pipes = write_pipe fd client_fd s.pipes })
    ]

-- `read(fd, &client_fd, ...)` of worker `i`, which its event loop makes when the pipe has
-- something.
unfoldable pub read_pipe : ℕ → List Pipe → Option (ℕ × List Pipe)
read_pipe i [] = none
read_pipe zero (p ∷ ps) = elim p.content [
  | [] ↦ none
  | client_fd ∷ rest ↦ some (client_fd, record p { content = rest } ∷ ps)
]
read_pipe (suc i) (p ∷ ps) = elim (read_pipe i ps) [
  | none ↦ none
  | some (client_fd, qs) ↦ some (client_fd, p ∷ qs)
]
