-- ===== src/Acceptor/Fifo.antt =====
-- The order in which a worker reads its connections, in code/src/short_connect/: the pipe of each
-- worker is a queue.
use mathlib.Core.Path.{ap₂}
use network_disk_server.Base.{
  ℕ, zero, suc, ◌≡◌, refl, sym, ap, subst, ◌∙◌, ◌%◌, true, false, Option, some, List, [], ◌∷◌, ◌++◌,
  append_assoc, arith, ◌==◌, if◌then◌else◌, get_elem?, Option-cases, Bool-cases, inl, inr, Bool,
}
use network_disk_server.Base.Distinct.{distinct, has-get_elem?}
use network_disk_server.Acceptor.{
  Pipe, Server, create, run, get_mpthread_fd, write_pipe, read_pipe, main_connect_by_client,
}
use network_disk_server.Acceptor.Reach.{IsWired, pending, write_ends, run-IsWired}
use network_disk_server.Acceptor.Transit.{
  write_ends-write_pipe, write_ends-read_pipe, read_pipe-suc,
}

-- What waits in the pipe of worker `i`.
abbrev pub content_of : List Pipe → ℕ → List ℕ
content_of [] i = []
content_of (p ∷ ps) zero = p.content
content_of (p ∷ ps) (suc i) = content_of ps i

-- The function, with `x` behind its list at `k`.
abbrev pub append_at : (ℕ → List ℕ) → ℕ → ℕ → ℕ → List ℕ
append_at f k x i = if i == k then f i ++ (x ∷ []) else f i

-- The server, with the connections that were assigned to each worker, and those that it has read,
-- oldest first.
pub record Journal : Type 0 where
  pub server : Server
  pub assigned : ℕ → List ℕ
  pub taken : ℕ → List ℕ

-- `accept` gave a descriptor and `rand` a number, or worker `i` read its pipe.
pub data Pass (c d : Journal) : Type 0 where
  accepts :
      (client_fd r : ℕ) (t : Server)
      → main_connect_by_client (some client_fd) r c.server ≡ some t
      → d ≡ record c {
        server = t;
        assigned = append_at c.assigned (r % c.server.mpthread_num) client_fd;
      }
      → Pass c d
  takes :
      (i client_fd : ℕ) (qs : List Pipe)
      → read_pipe i c.server.pipes ≡ some (client_fd, qs)
      → d ≡ record c {
        server = record c.server { pipes = qs };
        taken = append_at c.taken i client_fd;
      }
      → Pass c d

pub data Passes (c : Journal) : Journal → Type 0 where
  here : Passes c c
  next : {d e : Journal} → Passes c d → Pass d e → Passes c e

-- `Run` on a number of workers, whose pipes have different descriptors.
pub record Opens (pipe : ℕ → Option (ℕ × ℕ)) (mpthread_num : ℕ) (c : Journal) : Type 0 where
  pub running : run pipe (create mpthread_num) ≡ some c.server
  pub different : distinct c.server.mpthread_fd_list ≡ true
  pub none_assigned : (i : ℕ) → c.assigned i ≡ []
  pub none_taken : (i : ℕ) → c.taken i ≡ []

-- What was assigned to a worker is what it has read, followed by what waits in its pipe.
pub record InOrder (c : Journal) : Type 0 where
  pub wired : IsWired c.server
  pub different : distinct (write_ends c.server.pipes) ≡ true
  pub ordered : (i : ℕ) → c.assigned i ≡ c.taken i ++ content_of c.server.pipes i

append_eq_nil : (xs ys : List ℕ) → xs ++ ys ≡ [] → (xs ≡ []) × (ys ≡ [])
append_eq_nil [] ys e = (refl, e)
append_eq_nil (x ∷ xs) ys e = cc

-- A write to the descriptor of pipe `k` goes into that pipe only.
content_of-write_pipe :
    (fd x k i : ℕ) (ps : List Pipe)
    → distinct (write_ends ps) ≡ true
    → get_elem? (write_ends ps) k ≡ some fd
    → content_of (write_pipe fd x ps) i ≡ append_at (content_of ps) k x i
unfolding write_pipe
content_of-write_pipe fd x k i [] d found = absurd (ground arith)
content_of-write_pipe fd x zero zero (p ∷ ps) d found = ground arith
content_of-write_pipe fd x zero (suc i) (p ∷ ps) d found = ground arith
content_of-write_pipe fd x (suc k) zero (p ∷ ps) d found = elim (Bool-cases (p.write_fd == fd)) [
  | inl hit ↦ absurd (ground (arith, has-get_elem? (write_ends ps) k fd found))
  | inr miss ↦ ground arith
]
content_of-write_pipe fd x (suc k) (suc i) (p ∷ ps) d found = elim (Bool-cases (p.write_fd == fd)) [
  | inl hit ↦ absurd (ground (arith, has-get_elem? (write_ends ps) k fd found))
  | inr miss ↦
      let rest = content_of-write_pipe fd x k i ps (ground arith) found in
      rw miss (ground (arith, rest))
]

-- A read of the first pipe takes its oldest connection.
read_pipe-head :
    (x : ℕ) (p : Pipe) (ps qs : List Pipe) (l : List ℕ)
    → p.content ≡ l
    → read_pipe 0 (p ∷ ps) ≡ some (x, qs)
    → (rest : List ℕ) × (p.content ≡ x ∷ rest) × (record p { content = rest } ∷ ps ≡ qs)
unfolding read_pipe
read_pipe-head x p ps qs [] c e = absurd (ground arith)
read_pipe-head x p ps qs (y ∷ rest) c e = (rest, ground arith, ground arith)

content_of-read_pipe :
    (i x j : ℕ) (ps qs : List Pipe)
    → read_pipe i ps ≡ some (x, qs)
    → content_of ps j ≡ (if j == i then x ∷ content_of qs j else content_of qs j)
unfolding read_pipe
content_of-read_pipe i x j [] qs e = absurd (ground arith)
content_of-read_pipe zero x zero (p ∷ ps) qs e =
    let (rest, front, pipes) = read_pipe-head x p ps qs p.content refl e in
    front ∙ ap (λ q. x ∷ content_of q 0) pipes
content_of-read_pipe zero x (suc j) (p ∷ ps) qs e =
    let (rest, front, pipes) = read_pipe-head x p ps qs p.content refl e in
    ground (arith, ap (λ q. content_of q (suc j)) pipes)
content_of-read_pipe (suc i) x zero (p ∷ ps) qs e = elim (Option-cases (read_pipe i ps)) [
  | inl stop ↦ absurd (ground arith)
  | inr ((y, rs), step) ↦
      let (same, pipes) = read_pipe-suc i x y p ps qs rs step e in
      ground (arith, ap (λ q. content_of q 0) pipes)
]
content_of-read_pipe (suc i) x (suc j) (p ∷ ps) qs e = elim (Option-cases (read_pipe i ps)) [
  | inl stop ↦ absurd (ground arith)
  | inr ((y, rs), step) ↦
      let (same, pipes) = read_pipe-suc i x y p ps qs rs step e in
      let rest = content_of-read_pipe i y j ps rs step in
      ground (arith, rest, ap (λ q. content_of q (suc j)) pipes)
]

if-append :
    (b : Bool) (ts cs : List ℕ) (x : ℕ)
    → (if b then (ts ++ cs) ++ (x ∷ []) else ts ++ cs) ≡ ts ++ (if b then cs ++ (x ∷ []) else cs)
if-append true ts cs x = append_assoc ts cs (x ∷ [])
if-append false ts cs x = refl

append-if :
    (b : Bool) (ts cs : List ℕ) (x : ℕ)
    → ts ++ (if b then x ∷ cs else cs) ≡ (if b then ts ++ (x ∷ []) else ts) ++ cs
append-if true ts cs x = sym (append_assoc ts (x ∷ []) cs)
append-if false ts cs x = refl

Pass-InOrder : {c d : Journal} → Pass c d → InOrder c → InOrder d
unfolding main_connect_by_client get_mpthread_fd
Pass-InOrder {c} (accepts client_fd r t connect e) k =
    elim (Option-cases (get_elem? c.server.mpthread_fd_list (r % c.server.mpthread_num))) [
      | inl stop ↦ absurd (ground arith)
      | inr (fd, found) ↦
          let ps = c.server.pipes in
          let n = r % c.server.mpthread_num in
          let made : record c.server { pipes = write_pipe fd client_fd ps } ≡ t = ground arith in
          let listed : get_elem? (write_ends ps) n ≡ some fd =
            subst (λ l. get_elem? l n ≡ some fd) k.wired.ends found in
          subst InOrder
            (ap (λ u. record c { server = u; assigned = append_at c.assigned n client_fd }) made
              ∙ sym e)
            (record {
              wired = record {
                counted = k.wired.counted;
                ends = k.wired.ends ∙ sym (write_ends-write_pipe fd client_fd ps);
              };
              different = ap distinct (write_ends-write_pipe fd client_fd ps) ∙ k.different;
              ordered = λ i.
                  ap (λ l. if i == n then l ++ (client_fd ∷ []) else l) (k.ordered i)
                  ∙ if-append (i == n) (c.taken i) (content_of ps i) client_fd
                  ∙ ap (λ l. c.taken i ++ l)
                      (sym (content_of-write_pipe fd client_fd n i ps k.different listed));
            })
    ]
Pass-InOrder {c} (takes i client_fd qs read e) k =
    let ends = write_ends-read_pipe i client_fd c.server.pipes qs read in
    subst InOrder (sym e) (record {
      wired = record { counted = k.wired.counted; ends = k.wired.ends ∙ sym ends };
      different = ap distinct ends ∙ k.different;
      ordered = λ j.
          k.ordered j
          ∙ ap (λ l. c.taken j ++ l) (content_of-read_pipe i client_fd j c.server.pipes qs read)
          ∙ append-if (j == i) (c.taken j) (content_of qs j) client_fd;
    })

Passes-InOrder : {c d : Journal} → Passes c d → InOrder c → InOrder d
Passes-InOrder here k = k
Passes-InOrder (next r p) k = Pass-InOrder p (Passes-InOrder r k)

content_of-pending : (ps : List Pipe) (i : ℕ) → pending ps ≡ [] → content_of ps i ≡ []
content_of-pending [] i e = refl
content_of-pending (p ∷ ps) zero e = (append_eq_nil p.content (pending ps) e).0
content_of-pending (p ∷ ps) (suc i) e =
    content_of-pending ps i (append_eq_nil p.content (pending ps) e).1

-- From the start on, with different descriptors for the pipes, in whatever order the main thread and
-- the workers run, each worker reads the connections that were assigned to it in the order in which
-- they were accepted: those that it has read are the first of them, and the others wait in its pipe.
pub Passes-Ordered :
    (pipe : ℕ → Option (ℕ × ℕ)) (mpthread_num : ℕ) (c d : Journal) (i : ℕ)
    → Opens pipe mpthread_num c
    → Passes c d
    → d.assigned i ≡ d.taken i ++ content_of d.server.pipes i
Passes-Ordered pipe mpthread_num c d i o r =
    let (w, num, empty) = run-IsWired pipe mpthread_num c.server o.running in
    let start : InOrder c = record {
      wired = w;
      different = ap distinct (sym w.ends) ∙ o.different;
      ordered = λ j.
          o.none_assigned j
          ∙ sym (ap₂ (λ a b. a ++ b) (o.none_taken j) (content_of-pending c.server.pipes j empty));
    } in
    (Passes-InOrder r start).ordered i
