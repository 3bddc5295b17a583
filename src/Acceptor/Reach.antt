-- ===== src/Acceptor/Reach.antt =====
-- The accepted connections on their way to the workers, in code/src/short_connect/: any order of
-- accepts in the main thread and of reads in the workers.

use native.Mathlib.Nat.{mod-lt}
use network_disk_server.Base.{
  ℕ, zero, suc, ◌+◌, ◌%◌, ◌<◌, ◌≡◌, refl, sym, ap, ◌∙◌, Option, none, some, List, [], ◌∷◌, ◌++◌,
  append_assoc, append-nil, arith, length, get_elem?, length-append, Option-cases, inl, inr,
}
use network_disk_server.Acceptor.{
  Pipe, Server, create, run, create_mpthread, add_mpthread, get_mpthread_fd, write_pipe,
  main_connect_by_client,
}

-- What waits in the pipes.
abbrev pub pending : List Pipe → List ℕ
pending [] = []
pending (p ∷ ps) = p.content ++ pending ps

-- The writing ends.
abbrev pub write_ends : List Pipe → List ℕ
write_ends [] = []
write_ends (p ∷ ps) = p.write_fd ∷ write_ends ps

-- There is one worker for each number below `mpthread_num`, and the list of descriptors is that of
-- the pipes.
pub record IsWired (s : Server) : Type 0 where
  pub counted : length s.mpthread_fd_list ≡ s.mpthread_num
  pub ends : s.mpthread_fd_list ≡ write_ends s.pipes

write_ends-append : (ps qs : List Pipe) → write_ends (ps ++ qs) ≡ write_ends ps ++ write_ends qs
write_ends-append [] qs = refl
write_ends-append (p ∷ ps) qs = ap (◌∷◌ p.write_fd) (write_ends-append ps qs)

pending-append : (ps qs : List Pipe) → pending (ps ++ qs) ≡ pending ps ++ pending qs
pending-append [] qs = refl
pending-append (p ∷ ps) qs =
    ap (λ l. p.content ++ l) (pending-append ps qs) ∙ sym (append_assoc p.content _ _)

add_mpthread-ends :
    (r d : ℕ) (s : Server)
    → s.mpthread_fd_list ≡ write_ends s.pipes
    → (add_mpthread (r, d) s).mpthread_fd_list ≡ write_ends (add_mpthread (r, d) s).pipes
unfolding add_mpthread
add_mpthread-ends r d s w = ap (λ l. l ++ (d ∷ [])) w ∙ sym (write_ends-append s.pipes _)

add_mpthread-pending :
    (r d : ℕ) (s : Server) → pending (add_mpthread (r, d) s).pipes ≡ pending s.pipes
unfolding add_mpthread
add_mpthread-pending r d s = pending-append s.pipes _ ∙ append-nil (pending s.pipes)

-- Each round adds one worker, whose pipe is empty.
create_mpthread-rounds :
    (pipe : ℕ → Option (ℕ × ℕ)) (i rounds : ℕ) (s t : Server)
    → create_mpthread pipe i rounds s ≡ some t
    → s.mpthread_fd_list ≡ write_ends s.pipes
    → (length t.mpthread_fd_list ≡ length s.mpthread_fd_list + rounds)
      × (t.mpthread_num ≡ s.mpthread_num)
      × (t.mpthread_fd_list ≡ write_ends t.pipes)
      × (pending t.pipes ≡ pending s.pipes)
unfolding create_mpthread add_mpthread
create_mpthread-rounds pipe i zero s t e w =
    (ground arith, ground arith, ground arith, ground arith)
create_mpthread-rounds pipe i (suc rounds) s t e w = elim (Option-cases (pipe i)) [
  | inl stop ↦ absurd (ground arith)
  | inr ((r, d), made) ↦
      let s' = add_mpthread (r, d) s in
      let (count, num, ends, waiting) =
        create_mpthread-rounds pipe (i + 1) rounds s' t (ground arith)
          (add_mpthread-ends r d s w) in
      (
        omega (arith, count, length-append s.mpthread_fd_list (d ∷ [])),
        num,
        ends,
        waiting ∙ add_mpthread-pending r d s,
      )
]

-- The server that `Run` sets up has the number of workers asked for, a descriptor for each of them
-- in the order of their pipes, and nothing in the pipes.
pub run-IsWired :
    (pipe : ℕ → Option (ℕ × ℕ)) (mpthread_num : ℕ) (t : Server)
    → run pipe (create mpthread_num) ≡ some t
    → IsWired t × (t.mpthread_num ≡ mpthread_num) × (pending t.pipes ≡ [])
unfolding run create
run-IsWired pipe mpthread_num t e =
    let (count, num, ends, waiting) =
      create_mpthread-rounds pipe 0 mpthread_num (create mpthread_num) t e refl in
    (record { counted = count ∙ (omega (arith, num)); ends = ends }, num, waiting)

-- The descriptor that an index below the number of workers names.
get_elem?-some : (xs : List ℕ) (i : ℕ) → i < length xs → (x : ℕ) × (get_elem? xs i ≡ some x)
get_elem?-some [] i h = absurd (omega arith)
get_elem?-some (x ∷ xs) zero h = (x, refl)
get_elem?-some (x ∷ xs) (suc i) h = get_elem?-some xs i (omega arith)

-- A wired server with a worker passes every connection on: no index leaves the list.
main_connect-total :
    (client_fd r : ℕ) (s : Server)
    → IsWired s
    → 0 < s.mpthread_num
    → (t : Server) × (main_connect_by_client (some client_fd) r s ≡ some t)
unfolding main_connect_by_client get_mpthread_fd
main_connect-total client_fd r s w h =
    let (fd, found) =
      get_elem?-some s.mpthread_fd_list (r % s.mpthread_num)
        (omega (arith, w.counted, mod-lt r h)) in
    (record s { pipes = write_pipe fd client_fd s.pipes }, ground (arith, found))

-- Without a worker the first connection divides by zero.
pub main_connect-no_worker :
    (client_fd r : ℕ) (s : Server)
    → s.mpthread_num ≡ 0
    → main_connect_by_client (some client_fd) r s ≡ none
unfolding main_connect_by_client
main_connect-no_worker client_fd r s e = ground arith
