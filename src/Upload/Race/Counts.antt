-- ===== src/Upload/Race/Counts.antt =====
-- The counts of SignMap after two calls of `linkToUsr` of code/src/long_connect/upload_rpc.cpp that
-- run at the same time.
use network_disk_server.Base.{
  ℕ, ◌+◌, ◌≡◌, ap, ◌∙◌, Bool, true, false, Option, none, some, List, [], ◌∷◌, arith,
}
use network_disk_server.Base.Int.{pos, minus_one}
use network_disk_server.Base.Interleave.{interleave, interleave-Keeps}
use network_disk_server.Base.Text.{Bytes, bytes_eq_self}
use network_disk_server.Host.{Host}
use network_disk_server.Mysql.{Mmysql}
use network_disk_server.Upload.References.{IsQuotable, KeepsSigns}
use network_disk_server.Upload.Race.{
  LinkPhase, links, selects, inserts, updates, returns, LinkCall, link_turn, fetches,
}
use network_disk_server.Upload.Race.Steps.{
  RefusesDuplicates, total, success, Sound, Remains, link_turn-Balanced, links-Quiet, selects-Quiet,
  inserts-Raises, inserts-Quiet,
}

module _ (h : Host) (conn : ℕ) (references : h.State → Bytes → Option ℕ)
    (db : KeepsSigns h conn references) (key : RefusesDuplicates h conn references) (sign : Bytes)
    (q : IsQuotable sign) where
  open h use {State}

  abbrev base : Mmysql
  base = record { sql_conn = some conn }

  -- Both calls are sound, and their successes are what the count of the sign has gained.
  abbrev Gained : ℕ → LinkPhase → LinkPhase → State → Type 0
  Gained n p p' s =
      (total (references s sign) ≡ n + (success p + success p'))
      × Sound h conn references db key sign q p s
      × Sound h conn references db key sign q p' s

  -- What another call does leaves a call sound.
  pub Sound-Remains :
      (p : LinkPhase) (s t : State)
      → Remains h conn references db key sign q s t
      → Sound h conn references db key sign q p s
      → Sound h conn references db key sign q p t
  Sound-Remains fetches s t remains ok = absurd ok
  Sound-Remains updates s t remains ok = remains ok
  Sound-Remains (returns code) s t remains (code_is, there) = (code_is, remains there)
  Sound-Remains links s t remains ok = tt
  Sound-Remains selects s t remains ok = tt
  Sound-Remains inserts s t remains ok = tt

  module _ (src dst file_name src' dst' file_name' : Bytes) (q1 : IsQuotable file_name)
      (q2 : IsQuotable file_name') where
    abbrev one : LinkCall
    one = record { src = src; dst = dst; sign = sign; file_name = file_name }

    abbrev other : LinkCall
    other = record { src = src'; dst = dst'; sign = sign; file_name = file_name' }

    -- On a database that keeps the table SignMap (`KeepsSigns`) with the sign as its primary key
    -- (`RefusesDuplicates`), for a sign and names without quotes and backslashes, two calls that link
    -- a file of one sign get through every schedule that lets a call read the row of its SELECT before
    -- the other goes on (the two share a connection), and the count of the sign has grown by the number
    -- of calls that have returned 0: no count is lost and none is made twice. Schedules that part the
    -- SELECT from the reading of its row are left out.
    pub link_turn-Gained :
        (schedule : List Bool) (s : State)
        → (p p' : LinkPhase) × (t : State) × (interleave
              (link_turn h base one)
              (link_turn h base other)
              schedule
              links
              links
              s
            ≡ some ((p, p'), t))
          × (total (references t sign) ≡ total (references s sign) + (success p + success p'))
    link_turn-Gained schedule s =
        let (p, p', t, run, gained) =
          interleave-Keeps (link_turn h base one) (link_turn h base other)
            (Gained (total (references s sign))) keep keep' schedule links links s
            (omega arith, tt, tt) in
        (p, p', t, run, gained.0)
      where
        keep :
            (p p' : LinkPhase) (u : State)
            → Gained (total (references s sign)) p p' u
            → (r : LinkPhase) × (v : State) × (link_turn h base one p u ≡ some (r, v))
              × Gained (total (references s sign)) r p' v
        keep p p' u (sum, ok, ok') =
            let (r, v, run, balance, sound, remains, climbs) =
              link_turn-Balanced h conn references db key sign q src dst file_name q1 p u ok in
            (r, v, run, (omega (arith, sum, balance), sound, Sound-Remains p' u v remains ok'))

        keep' :
            (p p' : LinkPhase) (u : State)
            → Gained (total (references s sign)) p p' u
            → (r : LinkPhase) × (v : State) × (link_turn h base other p' u ≡ some (r, v))
              × Gained (total (references s sign)) p r v
        keep' p p' u (sum, ok, ok') =
            let (r, v, run, balance, sound, remains, climbs) =
              link_turn-Balanced h conn references db key sign q src' dst' file_name' q2 p' u ok' in
            (r, v, run, (omega (arith, sum, balance), Sound-Remains p u v remains ok, sound))

    -- On such a database two calls for a sign that is not in the table can both find it missing. Then
    -- the one that inserts second returns -1 although it has made its link, and the count is 1.
    pub link_turn-Refused :
        (s : State)
        → references s sign ≡ none
        → (t : State) × (interleave
              (link_turn h base one)
              (link_turn h base other)
              (true ∷ false ∷ true ∷ false ∷ true ∷ false ∷ [])
              links
              links
              s
            ≡ some ((returns (pos 0), returns minus_one), t))
          × (references t sign ≡ some 1)
    unfolding interleave
    link_turn-Refused s absent =
        let (s1, a, k1) = links-Quiet h conn references db key sign q src dst file_name q1 s in
        let (s2, b, k2) = links-Quiet h conn references db key sign q src' dst' file_name' q2 s1 in
        let gone2 : references s2 sign ≡ none = ap (λ f. f sign) (k2 ∙ k1) ∙ absent in
        let (s3, c, k3) =
          selects-Quiet h conn references db key sign q src dst file_name q1 s2 gone2 in
        let gone3 : references s3 sign ≡ none = ap (λ f. f sign) k3 ∙ gone2 in
        let (s4, d, k4) =
          selects-Quiet h conn references db key sign q src' dst' file_name' q2 s3 gone3 in
        let gone4 : references s4 sign ≡ none = ap (λ f. f sign) k4 ∙ gone3 in
        let (s5, e, after) =
          inserts-Raises h conn references db key sign q src dst file_name q1 s4 gone4 in
        let one5 : references s5 sign ≡ some 1 = after sign ∙ ground (arith, bytes_eq_self sign) in
        let (t, f, k6) =
          inserts-Quiet h conn references db key sign q src' dst' file_name' q2 s5
            (λ k. ground arith) in
        (t, ground arith, ap (λ f. f sign) k6 ∙ one5)
