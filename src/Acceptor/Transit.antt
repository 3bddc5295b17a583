-- ===== src/Acceptor/Transit.antt =====
-- The accepted connections on their way to the workers, in code/src/short_connect/: accepts in the
-- main thread and reads in the workers, in any order.
use mathlib.Core.List.{Perm, perm_middle, perm_append_singleton}
use mathlib.Core.List.Perm
use mathlib.Core.Path.{ap₂, subst₂}
use network_disk_server.Base.{
  ℕ, zero, suc, ◌-◌, ◌≡◌, refl, sym, ap, subst, ◌∙◌, ◌%◌, false, Option, some, List, [], ◌∷◌, ◌++◌,
  append_assoc, arith, ◌==◌, get_elem?, Option-cases, Bool-cases, inl, inr,
}
use network_disk_server.Acceptor.{
  Pipe, Server, create, run, get_mpthread_fd, write_pipe, read_pipe, main_connect_by_client,
}
use network_disk_server.Acceptor.Reach.{IsWired, pending, write_ends, run-IsWired}

-- The server with the descriptors that it has accepted, and those that its workers have read,
-- oldest first.
pub record Transit : Type 0 where
  pub server : Server
  pub accepted : List ℕ
  pub taken : List ℕ

-- `accept` gave a descriptor and `rand` a number, or worker `i` read its pipe.
pub data Step (c d : Transit) : Type 0 where
  accepts :
      (client_fd r : ℕ) (t : Server)
      → main_connect_by_client (some client_fd) r c.server ≡ some t
      → d ≡ record c { server = t; accepted = c.accepted ++ (client_fd ∷ []) }
      → Step c d
  takes :
      (i client_fd : ℕ) (qs : List Pipe)
      → read_pipe i c.server.pipes ≡ some (client_fd, qs)
      → d
        ≡ record c { server = record c.server { pipes = qs }; taken = c.taken ++ (client_fd ∷ []) }
      → Step c d

pub data Reach (c : Transit) : Transit → Type 0 where
  here : Reach c c
  next : {d e : Transit} → Reach c d → Step d e → Reach c e

-- `Run` on a number of workers.
abbrev pub Starts : (ℕ → Option (ℕ × ℕ)) → ℕ → Transit → Type 0
Starts pipe mpthread_num c =
    (run pipe (create mpthread_num) ≡ some c.server) × (c.accepted ≡ []) × (c.taken ≡ [])

pub write_ends-write_pipe :
    (fd x : ℕ) (ps : List Pipe) → write_ends (write_pipe fd x ps) ≡ write_ends ps
unfolding write_pipe
write_ends-write_pipe fd x [] = refl
write_ends-write_pipe fd x (p ∷ ps) = ground (arith, write_ends-write_pipe fd x ps)

-- A write to a descriptor of the list puts the connection into exactly one pipe.
pending-write_pipe :
    (fd x i : ℕ) (ps : List Pipe)
    → get_elem? (write_ends ps) i ≡ some fd
    → Perm (pending (write_pipe fd x ps)) (x ∷ pending ps)
unfolding write_pipe
pending-write_pipe fd x i [] found = absurd (ground arith)
pending-write_pipe fd x i (p ∷ ps) found = elim (Bool-cases (p.write_fd == fd)) [
  | inl hit ↦ rw (hit, append_assoc) (perm_middle p.content (pending ps))
  | inr miss ↦ rw miss (
      Perm.trans
        (Perm.append_left p.content (pending-write_pipe fd x (i - 1) ps (further i found miss)))
        (perm_middle p.content (pending ps)))
]
  where
    further :
        (i : ℕ)
        → get_elem? (p.write_fd ∷ write_ends ps) i ≡ some fd
        → (p.write_fd == fd) ≡ false
        → get_elem? (write_ends ps) (i - 1) ≡ some fd
    further zero e miss = absurd (ground arith)
    further (suc i) e miss = ap (λ k. get_elem? (write_ends ps) k) (omega arith) ∙ e

pub write_ends-read_pipe :
    (i x : ℕ) (ps qs : List Pipe) → read_pipe i ps ≡ some (x, qs) → write_ends qs ≡ write_ends ps
unfolding read_pipe
write_ends-read_pipe i x [] qs e = absurd (ground arith)
write_ends-read_pipe zero x (p ∷ ps) qs e = ground arith
write_ends-read_pipe (suc i) x (p ∷ ps) qs e = elim (Option-cases (read_pipe i ps)) [
  | inl stop ↦ absurd (ground arith)
  | inr ((y, rs), step) ↦ ground (arith, write_ends-read_pipe i y ps rs step)
]

read_pipe-zero :
    (x : ℕ) (p : Pipe) (ps qs : List Pipe) (l : List ℕ)
    → p.content ≡ l
    → read_pipe 0 (p ∷ ps) ≡ some (x, qs)
    → pending (p ∷ ps) ≡ x ∷ pending qs
unfolding read_pipe
read_pipe-zero x p ps qs [] c e = absurd (ground arith)
read_pipe-zero x p ps qs (y ∷ rest) c e =
    ap (λ l. l ++ pending ps) c ∙ ap₂ (λ h l. h ∷ pending l) same pipes
  where
    same : y ≡ x
    same = ground arith

    pipes : record p { content = rest } ∷ ps ≡ qs
    pipes = ground arith

pub read_pipe-suc :
    (i x y : ℕ) (p : Pipe) (ps qs rs : List Pipe)
    → read_pipe i ps ≡ some (y, rs)
    → read_pipe (suc i) (p ∷ ps) ≡ some (x, qs)
    → (y ≡ x) × (p ∷ rs ≡ qs)
unfolding read_pipe
read_pipe-suc i x y p ps qs rs step e = (ground arith, ground arith)

-- A read takes exactly one connection out of the pipes.
pub pending-read_pipe :
    (i x : ℕ) (ps qs : List Pipe)
    → read_pipe i ps ≡ some (x, qs)
    → Perm (pending ps) (x ∷ pending qs)
unfolding read_pipe
pending-read_pipe i x [] qs e = absurd (ground arith)
pending-read_pipe zero x (p ∷ ps) qs e =
    subst (λ l. Perm (pending (p ∷ ps)) l) (read_pipe-zero x p ps qs p.content refl e) Perm.rfl
pending-read_pipe (suc i) x (p ∷ ps) qs e = elim (Option-cases (read_pipe i ps)) [
  | inl stop ↦ absurd (ground arith)
  | inr ((y, rs), step) ↦
      let (same, pipes) = read_pipe-suc i x y p ps qs rs step e in
      subst (λ l. Perm (p.content ++ pending ps) l) (ap₂ (λ h l. h ∷ pending l) same pipes)
        (Perm.trans (Perm.append_left p.content (pending-read_pipe i y ps rs step))
          (perm_middle p.content (pending rs)))
]

-- Every accepted connection has been read by a worker or waits in a pipe, each as often as it was
-- accepted.
abbrev pub Conserved : Transit → Type 0
Conserved c = Perm c.accepted (c.taken ++ pending c.server.pipes)

connect-Perm :
    (client_fd r : ℕ) (s t : Server)
    → IsWired s
    → main_connect_by_client (some client_fd) r s ≡ some t
    → IsWired t × Perm (pending t.pipes) (client_fd ∷ pending s.pipes)
unfolding main_connect_by_client get_mpthread_fd
connect-Perm client_fd r s t w e =
    elim (Option-cases (get_elem? s.mpthread_fd_list (r % s.mpthread_num))) [
      | inl stop ↦ absurd (ground arith)
      | inr (fd, found) ↦
          let made : record s { pipes = write_pipe fd client_fd s.pipes } ≡ t = ground arith in
          let listed : get_elem? (write_ends s.pipes) (r % s.mpthread_num) ≡ some fd =
            subst (λ l. get_elem? l (r % s.mpthread_num) ≡ some fd) w.ends found in
          (
            subst IsWired made (record {
              counted = w.counted;
              ends = w.ends ∙ sym (write_ends-write_pipe fd client_fd s.pipes);
            }),
            subst (λ (u : Server). Perm (pending u.pipes) (client_fd ∷ pending s.pipes)) made
                (pending-write_pipe fd client_fd (r % s.mpthread_num) s.pipes listed),
          )
    ]

Step-Conserved :
    {c d : Transit} → Step c d → IsWired c.server → Conserved c → IsWired d.server × Conserved d
Step-Conserved {c} (accepts client_fd r t connect e) w k =
    let (w', moved) = connect-Perm client_fd r c.server t w connect in
    subst (λ (u : Transit). IsWired u.server × Conserved u) (sym e)
      (
        w',
        Perm.trans (perm_append_singleton client_fd c.accepted) (
            Perm.trans (Perm.cons client_fd k) (
              Perm.trans (Perm.symm (perm_middle c.taken (pending c.server.pipes)))
                (Perm.append_left c.taken (Perm.symm moved)))),
      )
Step-Conserved {c} (takes i client_fd qs read e) w k =
    subst (λ (u : Transit). IsWired u.server × Conserved u) (sym e)
      (
        record {
          counted = w.counted;
          ends = w.ends ∙ sym (write_ends-read_pipe i client_fd c.server.pipes qs read);
        },
        Perm.trans k (
            Perm.trans
              (Perm.append_left c.taken (pending-read_pipe i client_fd c.server.pipes qs read))
              (subst (λ l. Perm (c.taken ++ (client_fd ∷ pending qs)) l)
                (sym (append_assoc c.taken (client_fd ∷ []) (pending qs))) Perm.rfl)),
      )

pub Reach-Moves :
    {c d : Transit} → IsWired c.server → Conserved c → Reach c d → IsWired d.server × Conserved d
Reach-Moves w k here = (w, k)
Reach-Moves w k (next r s) = let (w', k') = Reach-Moves w k r in Step-Conserved s w' k'

-- From the start on, in whatever order the main thread and the workers run, no accepted connection
-- is lost and none is handed to two workers: those that the workers have read, with those that
-- wait, are the accepted ones.
pub Reach-Conserved :
    (pipe : ℕ → Option (ℕ × ℕ)) (mpthread_num : ℕ) (c d : Transit)
    → Starts pipe mpthread_num c
    → Reach c d
    → Conserved d
Reach-Conserved pipe mpthread_num c d (running, none_yet, none_taken) r =
    let (w, num, empty) = run-IsWired pipe mpthread_num c.server running in
    (Reach-Moves w
      (subst₂ Perm (sym none_yet) (sym (ap₂ (λ a b. a ++ b) none_taken empty)) Perm.nil) r).1
