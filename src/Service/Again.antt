-- ===== src/Service/Again.antt =====
-- The parts of a file that is in the store already, through `NetDiskServiceImpl::Send` of
-- code/src/long_connect/long_connection.cpp.
use network_disk_server.Base.{
  ℕ, suc, ◌+◌, ◌≡◌, refl, ap, ◌∙◌, true, some, [], ◌∷◌, arith, length, map,
}
use network_disk_server.Base.Fallible.{>>=-run}
use network_disk_server.Base.Text.{Bytes, bytes_eq_self}
use network_disk_server.Upload.{do_upload}
use network_disk_server.Upload.Messages.{Response, answer, empty_response}
use network_disk_server.Upload.References.{IsQuotable, counted}
use network_disk_server.Upload.Store.{Parts, Stage, Acts, base, part}
use network_disk_server.Upload.Store.Speed.{do_upload-Speeds}
use network_disk_server.Service.{send, dispatch, echo, confirm}
use network_disk_server.Service.Uploads.{send_all, request}

module _ (g : Stage) where
  -- The reply to a part of a file that is in the store.
  abbrev pub speedy : ℕ × Bytes → Response
  speedy (i, body) =
      confirm (answer (echo (part g i body) empty_response) true "file already in server, speed")

  module _ (acts : Acts g) (q : IsQuotable g.sign) (q' : IsQuotable g.file_name) where
    open g use {State, host}

    pub send-Speeds :
        (i : ℕ) (body : Bytes) (old : Parts) (s : State)
        → (g.files s).stored ≡ some old
        → (t : State) × (send host g.flags (base g) (part g i body) empty_response s
            ≡ some (speedy (i, body), t))
          × (g.files t ≡ g.files s)
          × ((x : Bytes) → g.references t x ≡ counted (g.references s) g.sign x)
    unfolding send dispatch
    send-Speeds i body old s there =
        let (t, ran, same, after) =
          do_upload-Speeds g acts q q' i body (echo (part g i body) empty_response) old s there in
        (
          t,
          >>=-run
              (do_upload host g.flags (base g) (part g i body)
                (echo (part g i body) empty_response))
              _ ran,
          same,
          after,
        )

    -- On a machine that keeps the parts of an upload (`Acts`, with a NUL at the end of the unset
    -- array of `ShellOut`), with a sign and a name without quotes and backslashes: for a file that is
    -- in the store with a count of `n`, the requests for parts of it are all answered with success
    -- and change no file, but each of them adds one to the count. One more upload of a file adds as
    -- many references as it has parts, not one.
    pub send_all-Speeds :
        (ps : Parts) (old : Parts) (n : ℕ) (s : State)
        → (g.files s).stored ≡ some old
        → g.references s g.sign ≡ some n
        → (t : State) × (send_all host g.flags (base g) (map (request g) ps) s
            ≡ some (map speedy ps, t))
          × (g.files t ≡ g.files s)
          × (g.references t g.sign ≡ some (n + length ps))
    unfolding send_all
    send_all-Speeds [] old n s there count =
        (s, refl, refl, count ∙ ap some (let e : n ≡ n + 0 = omega arith in e))
    send_all-Speeds ((i, body) ∷ ps) old n s there count =
        let (u, ran, same, after) = send-Speeds i body old s there in
        let (t, rest, still, total) =
          send_all-Speeds ps old (n + 1) u (ap (λ f. f.stored) same ∙ there)
            (after g.sign ∙ ground (arith, bytes_eq_self g.sign, count)) in
        (
          t,
          >>=-run (send host g.flags (base g) (part g i body) empty_response) _ ran
              ∙ >>=-run (send_all host g.flags (base g) (map (request g) ps)) _ rest,
          still ∙ same,
          total ∙ ap some (let e : n + 1 + length ps ≡ n + suc (length ps) = omega arith in e),
        )
