-- ===== src/Acceptor/Drain.antt =====
-- code/src/short_connect/: the workers read on until their pipes are empty.
use mathlib.Core.List.{Perm}
use network_disk_server.Base.{
  ℕ, zero, suc, ◌≡◌, refl, sym, ap, subst, ◌∙◌, Option, some, List, [], ◌∷◌, ◌++◌, append-nil,
  arith, length,
}
use network_disk_server.Acceptor.{Pipe, read_pipe}
use network_disk_server.Acceptor.Reach.{pending}
use network_disk_server.Acceptor.Transit.{Transit, Step, Reach, Starts, Reach-Conserved}

-- `n` reads by the workers, one after the other, lead to `e`.
pub data Reads (e : Transit) : ℕ → Transit → Type 0 where
  here : Reads e 0 e
  next :
      {n : ℕ} {c d : Transit} (i client_fd : ℕ) (qs : List Pipe)
      → read_pipe i c.server.pipes ≡ some (client_fd, qs)
      → d
        ≡ record c { server = record c.server { pipes = qs }; taken = c.taken ++ (client_fd ∷ []) }
      → Reads e n d
      → Reads e (suc n) c

-- Worker `i` reads `x`, and `rest` waits then.
abbrev Gives : List Pipe → ℕ → List ℕ → Type 0
Gives ps x rest = (i : ℕ) × (qs : List Pipe) × (read_pipe i ps ≡ some (x, qs)) × (pending qs ≡ rest)

Gives-cons :
    (p : Pipe) (ps : List Pipe) (x : ℕ) (rest l : List ℕ)
    → p.content ≡ l
    → pending (p ∷ ps) ≡ x ∷ rest
    → (pending ps ≡ x ∷ rest → Gives ps x rest)
    → Gives (p ∷ ps) x rest
unfolding read_pipe
Gives-cons p ps x rest [] c e later =
    let (i, qs, read, left) = later (sym (ap (λ k. k ++ pending ps) c) ∙ e) in
    (suc i, p ∷ qs, ground arith, ap (λ k. k ++ pending qs) c ∙ left)
Gives-cons p ps x rest (y ∷ l) c e later =
    let front : y ∷ (l ++ pending ps) ≡ x ∷ rest = sym (ap (λ k. k ++ pending ps) c) ∙ e in
    (zero, record p { content = l } ∷ ps, ground arith, ground arith)

-- While something waits, some worker has something to read.
read_pipe-Gives : (ps : List Pipe) (x : ℕ) (rest : List ℕ) → pending ps ≡ x ∷ rest → Gives ps x rest
read_pipe-Gives [] x rest e = cc
read_pipe-Gives (p ∷ ps) x rest e =
    Gives-cons p ps x rest p.content refl e (λ k. read_pipe-Gives ps x rest k)

drains :
    (l : List ℕ) (c : Transit)
    → pending c.server.pipes ≡ l
    → (e : Transit) × Reads e (length l) c
      × (e.accepted ≡ c.accepted)
      × (pending e.server.pipes ≡ [])
drains [] c waits = (c, Reads.here, refl, waits)
drains (x ∷ l) c waits =
    let (i, qs, read, left) = read_pipe-Gives c.server.pipes x l waits in
    let d : Transit = record c {
      server = record c.server { pipes = qs };
      taken = c.taken ++ (x ∷ []);
    } in
    let (e, reads, same, empty) = drains l d left in
    (e, Reads.next i x qs read refl reads, same, empty)

Reads-Reach : {a e c : Transit} {n : ℕ} → Reach a c → Reads e n c → Reach a e
Reads-Reach r here = r
Reads-Reach r (next i x qs read e reads) =
    Reads-Reach (Reach.next r (Step.takes i x qs read e)) reads

-- Wherever the main thread and the workers have got to, as many reads as connections wait in the
-- pipes can be made, and after these the workers have read every connection that was accepted, each
-- of them once.
pub Reach-Drained :
    (pipe : ℕ → Option (ℕ × ℕ)) (mpthread_num : ℕ) (c d : Transit)
    → Starts pipe mpthread_num c
    → Reach c d
    → (e : Transit) × Reads e (length (pending d.server.pipes)) d
      × (e.accepted ≡ d.accepted)
      × Perm e.accepted e.taken
Reach-Drained pipe mpthread_num c d starts r =
    let (e, reads, same, empty) = drains (pending d.server.pipes) d refl in
    let kept = Reach-Conserved pipe mpthread_num c e starts (Reads-Reach r reads) in
    (
      e,
      reads,
      same,
      subst (λ l. Perm e.accepted l) (ap (λ l. e.taken ++ l) empty ∙ append-nil e.taken) kept,
    )
