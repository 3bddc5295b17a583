-- ===== src/Service/Uploads.antt =====
-- All parts of a file, one request after the other, through `NetDiskServiceImpl::Send` of
-- code/src/long_connect/long_connection.cpp.
use mathlib.Core.Path.{ap₂}
use network_disk_server.Base.{
  refl, Bool, ℕ, suc, ◌+◌, ◌^◌, ◌≤◌, ◌<◌, ◌≡◌, sym, ap, ◌∙◌, true, false, Option, none, some, List,
  [], ◌∷◌, map, arith, ◌==◌, if◌then◌else◌, length, Bool,
}
use network_disk_server.Base.Distinct.{has, distinct}
use network_disk_server.Base.Fallible.{M, pure, ◌>>=◌, >>=-run}
use network_disk_server.Base.Text.{Bytes, Lacks, bytes_eq}
use network_disk_server.Host.{Host}
use network_disk_server.FileSys.{write_len}
use network_disk_server.Mysql.{Mmysql}
use network_disk_server.Upload.{do_upload}
use network_disk_server.Upload.Messages.{Request, Response, Flags, empty_response, answer}
use network_disk_server.Upload.References.{IsQuotable, counted, one_more}
use network_disk_server.Upload.Store.{
  Leftover, Files, Parts, Stage, Acts, base, part, indices, received,
}
use network_disk_server.Upload.Store.Receive.{answer_if, do_upload-Receives}
use network_disk_server.Service.{send, dispatch, echo, confirm}

-- The requests of one client, each sent when the one before is answered, with their answers.
unfoldable pub send_all : (h : Host) → Flags → Mmysql → List Request → M h.State (List Response)
send_all h flags sql [] = pure []
send_all h flags sql (q ∷ qs) = do
  r ← send h flags sql q empty_response
  rs ← send_all h flags sql qs
  pure (r ∷ rs)

-- The parts in reverse, in front of others.
abbrev pub reverse_onto : Parts → Parts → Parts
reverse_onto [] acc = acc
reverse_onto (p ∷ ps) acc = reverse_onto ps (p ∷ acc)

-- Each part fits into one block of `Write` and has no NUL.
abbrev pub AllFit : Parts → Type 0
AllFit [] = Unit {0}
AllFit ((i, body) ∷ ps) = Lacks 0 body × (length body ≤ write_len) × AllFit ps

pub counted-ext :
    (f f' : Bytes → Option ℕ) (sign x : Bytes)
    → ((y : Bytes) → f y ≡ f' y)
    → counted f sign x ≡ counted f' sign x
counted-ext f f' sign x same =
    ap₂ (λ a b. if bytes_eq x sign then one_more a else b) (same sign) (same x)

pub counted-if_ext :
    (noisy : Bool) (f f' : Bytes → Option ℕ) (sign x : Bytes)
    → ((y : Bytes) → f y ≡ f' y)
    → (if noisy then f x else counted f sign x) ≡ (if noisy then f' x else counted f' sign x)
counted-if_ext true f f' sign x same = same x
counted-if_ext false f f' sign x same = counted-ext f f' sign x same

distinct-reverse_onto :
    (ps acc : Parts)
    → distinct (indices (reverse_onto ps acc)) ≡ true
    → distinct (indices acc) ≡ true
distinct-reverse_onto [] acc d = d
distinct-reverse_onto ((i, body) ∷ ps) acc d =
    let rest = distinct-reverse_onto ps ((i, body) ∷ acc) d in ground (arith, rest)

-- If no index comes twice, the first part to come is new.
pub first_new :
    (i : ℕ) (body : Bytes) (ps acc : Parts)
    → distinct (indices (reverse_onto ((i, body) ∷ ps) acc)) ≡ true
    → has i (indices acc) ≡ false
first_new i body ps acc d =
    let rest = distinct-reverse_onto ps ((i, body) ∷ acc) d in ground (arith, rest)

module _ (g : Stage) where
  -- The reply to a part that was received.
  abbrev pub reply : ℕ × Bytes → Response
  reply (i, body) = confirm (answer (echo (part g i body) empty_response) true "success")

  -- The reply to the last part, where the `mv` seems to have printed something or not.
  abbrev pub last_reply : Bool → ℕ × Bytes → Response
  last_reply noisy (i, body) = confirm (
      if noisy
      then answer (echo (part g i body) empty_response) false "mv failed"
      else answer (echo (part g i body) empty_response) true "success")

  -- The replies to parts of which the last one completes the file.
  abbrev pub replies : Bool → Parts → List Response
  replies noisy [] = []
  replies noisy (p ∷ []) = last_reply noisy p ∷ []
  replies noisy (p ∷ p' ∷ ps) = reply p ∷ replies noisy (p' ∷ ps)

  abbrev pub request : ℕ × Bytes → Request
  request (i, body) = part g i body

module _ (g : Stage) (acts : Acts g) (q : IsQuotable g.sign) (q' : IsQuotable g.file_name)
    (small : g.shard < 2 ^ 31) where
  open g use {State, host}

  pub send-Receives :
      (s : State) (i : ℕ) (body : Bytes)
      → Lacks 0 body
      → length body ≤ write_len
      → (g.files s).stored ≡ none
      → has i (indices (g.files s).parts) ≡ false
      → let last = g.shard == length ((i, body) ∷ (g.files s).parts) in
        (noisy : Bool) × (t : State) × (send host g.flags (base g) (part g i body) empty_response s
          ≡ some (if last then last_reply g noisy (i, body) else reply g (i, body), t))
        × (g.files t ≡ received g.shard i body (g.files s))
        × ((x : Bytes)
            → g.references t x ≡ (
                if last
                then (if noisy then g.references s x else counted (g.references s) g.sign x)
                else g.references s x))
        × (noisy ≡ true → Leftover host)
  unfolding send dispatch
  send-Receives s i body clean short gone new =
      let last = g.shard == length ((i, body) ∷ (g.files s).parts) in
      let (noisy, t, ran, moved, after, why) =
        do_upload-Receives g acts q q' small i body (echo (part g i body) empty_response) clean
          short s gone new in
      (
        noisy,
        t,
        >>=-run
              (do_upload host g.flags (base g) (part g i body)
                (echo (part g i body) empty_response))
              _ ran
            ∙ ap (λ r. some (r, t)) (confirmed last noisy),
        moved,
        after,
        why,
      )
    where
      confirmed :
          (last noisy : Bool)
          → confirm
              (answer_if g acts q q' small i body (echo (part g i body) empty_response) last noisy)
            ≡ (if last then last_reply g noisy (i, body) else reply g (i, body))
      confirmed true noisy = refl
      confirmed false noisy = refl

  -- The files after a part, which is the last or not.
  abbrev settled : ℕ → Bytes → Files → Bool → Files
  settled i body f last =
      if last
      then record f { parts = []; stored = some ((i, body) ∷ f.parts) }
      else record f { parts = (i, body) ∷ f.parts }

  -- The parts that are still to come, on top of those that are there.
  pub send_all-Receives :
      (p : ℕ × Bytes) (ps : Parts) (s : State)
      → AllFit (p ∷ ps)
      → (g.files s).stored ≡ none
      → distinct (indices (reverse_onto (p ∷ ps) (g.files s).parts)) ≡ true
      → g.shard ≡ length (p ∷ ps) + length (g.files s).parts
      → (noisy : Bool) × (t : State) × (send_all host g.flags (base g) (map (request g) (p ∷ ps)) s
          ≡ some (replies g noisy (p ∷ ps), t))
        × (g.files t ≡ record (g.files s) {
          parts = [];
          stored = some (reverse_onto (p ∷ ps) (g.files s).parts);
        })
        × ((x : Bytes)
            → g.references t x
              ≡ (if noisy then g.references s x else counted (g.references s) g.sign x))
        × (noisy ≡ true → Leftover host)
  unfolding send_all
  send_all-Receives (i, body) [] s (clean, short, fit) gone apart count =
      let last : (g.shard == length ((i, body) ∷ (g.files s).parts)) ≡ true =
        ground (arith, count) in
      let (noisy, t, ran, moved, after, why) =
        send-Receives s i body clean short gone (first_new i body [] (g.files s).parts apart) in
      (
        noisy,
        t,
        >>=-run (send host g.flags (base g) (part g i body) empty_response) _ ran
            ∙ ap
                (λ (b : Bool).
                  some ((if b then last_reply g noisy (i, body) else reply g (i, body)) ∷ [], t))
                last,
        moved ∙ ap (settled i body (g.files s)) last,
        λ x.
            after x
            ∙ ap
                (λ b.
                  if b
                  then (if noisy then g.references s x else counted (g.references s) g.sign x)
                  else g.references s x)
                last,
        why,
      )
  send_all-Receives (i, body) (p ∷ ps) s (clean, short, fit) gone apart count =
      let more : (g.shard == length ((i, body) ∷ (g.files s).parts)) ≡ false =
        ground (arith, count) in
      let (noisy', u, ran, moved, after, why') =
        send-Receives s i body clean short gone
          (first_new i body (p ∷ ps) (g.files s).parts apart) in
      let replied : send host g.flags (base g) (part g i body) empty_response s
          ≡ some (reply g (i, body), u) =
        ran
        ∙ ap
            (λ (b : Bool). some (if b then last_reply g noisy' (i, body) else reply g (i, body), u))
            more in
      let made : g.files u ≡ record (g.files s) { parts = (i, body) ∷ (g.files s).parts } =
        moved ∙ ap (settled i body (g.files s)) more in
      let same : (x : Bytes) → g.references u x ≡ g.references s x = λ x.
        after x
        ∙ ap
            (λ b.
              if b
              then (if noisy' then g.references s x else counted (g.references s) g.sign x)
              else g.references s x)
            more in
      let (noisy, t, rest, stored, counts, why) =
        send_all-Receives p ps u fit (ap (λ f. f.stored) made ∙ gone)
          (ap (λ f. distinct (indices (reverse_onto (p ∷ ps) f.parts))) made ∙ apart)
          (count
            ∙ (let e : suc (length (p ∷ ps)) + length (g.files s).parts
                    ≡ length (p ∷ ps) + suc (length (g.files s).parts) =
                  omega arith in
                e)
            ∙ ap (λ f. length (p ∷ ps) + length f.parts) (sym made)) in
      (
        noisy,
        t,
        >>=-run (send host g.flags (base g) (part g i body) empty_response) _ replied
            ∙ >>=-run (send_all host g.flags (base g) (map (request g) (p ∷ ps))) _ rest,
        stored
            ∙ ap
                (λ (f : Files). record f {
                  parts = [];
                  stored = some (reverse_onto (p ∷ ps) f.parts);
                })
                made,
        λ x. counts x ∙ counted-if_ext noisy (g.references u) (g.references s) g.sign x same,
        why,
      )
