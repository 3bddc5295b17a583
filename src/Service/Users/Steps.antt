-- ===== src/Service/Users/Steps.antt =====
-- One request of one of two users, through `NetDiskServiceImpl::Send` of
-- code/src/long_connect/long_connection.cpp.
use network_disk_server.Base.{
  false, ◌⊎◌, none, ℕ, ◌+◌, ◌^◌, ◌≤◌, ◌<◌, ◌≡◌, ◌≢◌, inl, inr, refl, sym, ap, ◌∙◌, Bool, true,
  Option, some, [], ◌∷◌, arith, ◌==◌, length, Bool-cases, if◌then◌else◌,
}
use network_disk_server.Base.Distinct.{distinct}
use network_disk_server.Base.Fallible.{>>=-run}
use network_disk_server.Base.Text.{codes, Bytes, Lacks, bytes_eq_self}
use network_disk_server.FileSys.{write_len}
use network_disk_server.Upload.Messages.{Response, empty_response}
use network_disk_server.Upload.References.{IsQuotable, counted, one_more}
use network_disk_server.Upload.Race.Steps.{total, total-one_more}
use network_disk_server.Host.{Host}
use network_disk_server.Upload.Store.{
  Leftover, Files, Parts, Stage, Acts, base, part, indices, received,
}
use network_disk_server.Service.{send}
use network_disk_server.Service.Uploads.{
  reverse_onto, AllFit, reply, last_reply, send-Receives, first_new,
}
use network_disk_server.Service.Again.{speedy, send-Speeds}
use network_disk_server.Service.Users.{AllFair, Sender, swap, send_next, Open, Status}

pub flip :
    (h : Host) (all all' : Parts) (shard : ℕ) (left left' : Parts) (f : Files) (count : Option ℕ)
    → Status h all all' shard left left' f count
    → Status h all' all shard left' left (swap f) count
flip h all all' shard left left' f count (inl (gone, a, b, c, d, e)) = inl (gone, b, a, d, c, e)
flip h all all' shard left left' f count (inr (w, there, which, low, high)) = inr (
  w,
  there,
  elim which [ inl k ↦ inr k | inr k ↦ inl k ],
  elim low [ inl k ↦ inl (omega (arith, k)) | inr (o, k) ↦ inr (o, omega (arith, k)) ],
  omega arith,
)

counted_self : (f : Bytes → Option ℕ) (sign : Bytes) → counted f sign sign ≡ one_more (f sign)
counted_self f sign = ground (arith, bytes_eq_self sign)

-- The count when the file is complete, with `k` parts still to be sent.
closing :
    (h : Host) (noisy : Bool) (f : Bytes → Option ℕ) (sign : Bytes) (count : Option ℕ) (k : ℕ)
    → f sign ≡ none
    → count ≡ (if noisy then f sign else counted f sign sign)
    → (noisy ≡ true → Leftover h)
    → 1 ≤ k
    → ((2 ≤ total count + k) ⊎ (Leftover h × (1 ≤ total count + k))) × (total count ≤ 1)
closing h true f sign count k uncounted after why some_left =
    let none_yet = ap total (after ∙ uncounted) in
    (inr (why refl, omega (arith, some_left)), omega (arith, none_yet))
closing h false f sign count k uncounted after why some_left =
    let one : count ≡ some 1 = after ∙ ground (arith, bytes_eq_self sign, uncounted) in
    let is_one = ap total one in (inl (omega (arith, is_one, some_left)), omega (arith, is_one))

pub length-reverse_onto : (ps acc : Parts) → length (reverse_onto ps acc) ≡ length ps + length acc
length-reverse_onto [] acc = omega arith
length-reverse_onto ((i, b) ∷ ps) acc =
    let rest = length-reverse_onto ps ((i, b) ∷ acc) in omega (arith, rest)

empty_of : (ps : Parts) → length ps ≡ 0 → ps ≡ []
empty_of [] e = refl
empty_of (p ∷ ps) e = absurd (omega (arith, e))

length-some : (ps : Parts) → ps ≢ [] → 1 ≤ length ps
length-some [] e = absurd (e refl)
length-some (p ∷ ps) e = omega arith

module _ (g : Stage) (acts : Acts g) (q : IsQuotable g.sign) (q' : IsQuotable g.file_name)
    (small : g.shard < 2 ^ 31) (all all' : Parts) (whole : length all ≡ g.shard)
    (whole' : length all' ≡ g.shard) (apart : distinct (indices all) ≡ true) where
  open g use {State, host}

  abbrev At : Parts → Parts → State → Type 0
  At left left' s = Status host all all' g.shard left left' (g.files s) (g.references s g.sign)

  -- What the answer to a part leads to.
  abbrev Goes : ℕ → Bytes → Parts → Parts → State → Type 0
  Goes i body ps left' s =
      (r : Response) × (t : State) × (send host g.flags (base g) (part g i body) empty_response s
        ≡ some (r, t))
      × ((r.res ≡ some true) ⊎ ((r.body ≡ some (codes "mv failed")) × Leftover host))
      × At ps left' t

  -- The files after a part, which is the last or not.
  abbrev settled : ℕ → Bytes → Files → Bool → Files
  settled i body f last =
      if last
      then record f { parts = []; stored = some ((i, body) ∷ f.parts) }
      else record f { parts = (i, body) ∷ f.parts }

  -- A part that is received: the last one of its user, or not.
  received_part :
      (i : ℕ) (body : Bytes) (ps left' : Parts) (s t : State) (noisy : Bool)
      → Open host all all' g.shard ((i, body) ∷ ps) left' (g.files s) (g.references s g.sign)
      → g.files t ≡ received g.shard i body (g.files s)
      → g.references t g.sign ≡ (
          if g.shard == length ((i, body) ∷ (g.files s).parts)
          then (if noisy then g.references s g.sign else counted (g.references s) g.sign g.sign)
          else g.references s g.sign)
      → (noisy ≡ true → Leftover host)
      → At ps left' t
  received_part i body ps left' s t noisy (gone, mine, theirs, some_left, some_left', uncounted)
        moved after why =
      let total_left = length-reverse_onto ps ((i, body) ∷ (g.files s).parts) in
      let total_left' = length-reverse_onto left' (g.files s).others in
      let size : length (reverse_onto ps ((i, body) ∷ (g.files s).parts)) ≡ g.shard =
        ap length mine ∙ whole in
      let size' : length (reverse_onto left' (g.files s).others) ≡ g.shard =
        ap length theirs ∙ whole' in
      elim (Bool-cases (g.shard == length ((i, body) ∷ (g.files s).parts))) [
        | inl last ↦
            let none_left : length ps ≡ 0 = ground (arith, total_left, size, last) in
            let pending = length-some left' some_left' in
            let counts : g.references t g.sign ≡ (
                if noisy then g.references s g.sign else counted (g.references s) g.sign g.sign) =
              after
              ∙ ap
                  (λ k.
                    if k
                    then (if noisy
                        then g.references s g.sign
                        else counted (g.references s) g.sign g.sign)
                    else g.references s g.sign)
                  last in
            let (low, high) =
              closing host noisy (g.references s) g.sign (g.references t g.sign)
                (length ps + length left') uncounted counts why (omega (arith, pending)) in
            inr (
              (i, body) ∷ (g.files s).parts,
              ap (λ f. f.stored) moved ∙ ap (λ k. (settled i body (g.files s) k).stored) last,
              inl (
                  sym (
                    ap (λ k. reverse_onto k ((i, body) ∷ (g.files s).parts))
                      (empty_of ps none_left))
                  ∙ mine),
              low,
              omega (arith, high, none_left, total_left', size'),
            )
        | inr more ↦
            let made : g.files t ≡ record (g.files s) { parts = (i, body) ∷ (g.files s).parts } =
              moved ∙ ap (settled i body (g.files s)) more in
            inl (
              ap (λ f. f.stored) made ∙ gone,
              ap (λ f. reverse_onto ps f.parts) made ∙ mine,
              ap (λ f. reverse_onto left' f.others) made ∙ theirs,
              λ e. ground (arith, total_left, size, more, ap length e),
              some_left',
              after
                  ∙ ap
                      (λ k.
                        if k
                        then (if noisy
                            then g.references s g.sign
                            else counted (g.references s) g.sign g.sign)
                        else g.references s g.sign)
                      more
                  ∙ uncounted,
            )
      ]

  send-Goes :
      (i : ℕ) (body : Bytes) (ps left' : Parts) (s : State)
      → Lacks 0 body
      → length body ≤ write_len
      → At ((i, body) ∷ ps) left' s
      → Goes i body ps left' s
  send-Goes i body ps left' s clean short (inl waiting) =
      let (gone, mine, theirs, some_left, some_left', uncounted) = waiting in
      let new =
        first_new i body ps (g.files s).parts (ap (λ w. distinct (indices w)) mine ∙ apart) in
      let (noisy, t, ran, moved, after, why) =
        send-Receives g acts q q' small s i body clean short gone new in
      let last = g.shard == length ((i, body) ∷ (g.files s).parts) in
      (
        if last then last_reply g noisy (i, body) else reply g (i, body),
        t,
        ran,
        fair last noisy why,
        received_part i body ps left' s t noisy waiting moved (after g.sign) why,
      )
    where
      fair :
          (last noisy : Bool)
          → (noisy ≡ true → Leftover host)
          → let r = if last then last_reply g noisy (i, body) else reply g (i, body) in
            (r.res ≡ some true) ⊎ ((r.body ≡ some (codes "mv failed")) × Leftover host)
      fair true true why = inr (refl, why refl)
      fair true false why = inl refl
      fair false noisy why = inl refl
  send-Goes i body ps left' s clean short (inr (w, there, which, low, high)) =
      let (t, ran, same, after) = send-Speeds g acts q q' i body w s there in
      let more : total (g.references t g.sign) ≡ total (g.references s g.sign) + 1 =
        ap total (after g.sign ∙ counted_self (g.references s) g.sign)
        ∙ total-one_more (g.references s g.sign) in
      (
        speedy g (i, body),
        t,
        ran,
        inl refl,
        inr (
          w,
          ap (λ f. f.stored) same ∙ there,
          which,
          elim low [
            | inl k ↦ inl (omega (arith, k, more))
            | inr (o, k) ↦ inr (o, omega (arith, k, more))
          ],
          omega (arith, high, more),
        ),
      )

  pub send_next-Status :
      (x : Sender) (left' : Parts) (s : State)
      → AllFit x.left
      → AllFair host x.replies
      → At x.left left' s
      → (y : Sender) × (t : State) × (send_next g x s ≡ some (y, t))
        × AllFit y.left
        × AllFair host y.replies
        × At y.left left' t
  unfolding send_next
  send_next-Status x left' s fit good at = by_left x.left fit at
    where
      by_left :
          (ps : Parts)
          → AllFit ps
          → At ps left' s
          → (y : Sender) × (t : State) × (send_next g (record { left = ps; replies = x.replies }) s
              ≡ some (y, t))
            × AllFit y.left
            × AllFair host y.replies
            × At y.left left' t
      by_left [] fit at = (record { left = []; replies = x.replies }, s, refl, fit, good, at)
      by_left ((i, body) ∷ ps) (clean, short, fit) at =
          let (r, t, ran, fine, next) = send-Goes i body ps left' s clean short at in
          (
            record { left = ps; replies = r ∷ x.replies },
            t,
            >>=-run (send host g.flags (base g) (part g i body) empty_response) _ ran,
            fit,
            (fine, good),
            next,
          )
