-- ===== src/Upload/Race/Steps.antt =====
-- What a step of `linkToUsr` of code/src/long_connect/upload_rpc.cpp does to the counts of SignMap.
use network_disk_server.Base.{
  ℕ, ◌+◌, ◌≡◌, ◌≢◌, ◌⊎◌, inl, inr, refl, sym, ap, ◌∙◌, true, Option, none, some, arith,
  Option-cases, if◌then◌else◌,
}
use network_disk_server.Base.Int.{pos, minus_one, nonzero}
use network_disk_server.Base.Fallible.{M}
use network_disk_server.Base.Text.{Bytes, bytes_eq_self, c_str}
use network_disk_server.Host.{Host}
use network_disk_server.FileSys.{link}
use network_disk_server.Mysql.{Mmysql, run_query, fetch_res}
use network_disk_server.Upload.{insert_sign, add_sign_map, increment_sign_map}
use network_disk_server.Upload.References.{IsQuotable, KeepsSigns, counted, one_more}
use network_disk_server.Upload.Race.{
  link_turn, fetches, LinkPhase, links, selects, inserts, updates, returns, LinkCall, link_step,
}

-- The sign is the primary key of SignMap: an INSERT of a sign that is there fails.
pub record RefusesDuplicates (h : Host) (conn : ℕ) (references : h.State → Bytes → Option ℕ)
    : Type 0 where
  pub duplicate_row :
      (s : h.State) (sign file_name : Bytes)
      → IsQuotable sign
      → IsQuotable file_name
      → references s sign ≢ none
      → (t : h.State) × (h.mysql_real_query conn (insert_sign sign file_name) s ≡ (true, t))
        × (references t ≡ references s)

-- The count of a sign; a sign that is not in the table has none.
abbrev pub total : Option ℕ → ℕ
total none = 0
total (some n) = n

-- One for a call that has returned 0.
abbrev pub success : LinkPhase → ℕ
success (returns code) = if nonzero code then 0 else 1
success _ = 0

pub total-one_more : (o : Option ℕ) → total (one_more o) ≡ total o + 1
total-one_more none = refl
total-one_more (some n) = refl

one_more-some : (o : Option ℕ) → one_more o ≢ none
one_more-some none e = cc
one_more-some (some n) e = cc

module _ (h : Host) (conn : ℕ) (references : h.State → Bytes → Option ℕ)
    (db : KeepsSigns h conn references) (key : RefusesDuplicates h conn references) (sign : Bytes)
    (q : IsQuotable sign) where
  open h use {State}

  abbrev pub sql : Mmysql
  sql = record { sql_conn = some conn }

  -- No turn ends before the reading of a row. A call is at its UPDATE only when the row is there; when it returns, 0 or -1, the row is there.
  abbrev pub Sound : LinkPhase → State → Type 0
  Sound fetches s = ⊥
  Sound updates s = references s sign ≢ none
  Sound (returns code) s = ((code ≡ pos 0) ⊎ (code ≡ minus_one)) × (references s sign ≢ none)
  Sound _ s = Unit {0}

  abbrev pub Remains : State → State → Type 0
  Remains s t = references s sign ≢ none → references t sign ≢ none

  -- The count of the sign stays, or one is added.
  abbrev pub Climbs : State → State → Type 0
  Climbs s t =
      (references t sign ≡ references s sign)
      ⊎ (total (references t sign) ≡ total (references s sign) + 1)

  -- What one step of a call does to the count of the sign.
  abbrev pub Balanced : M State LinkPhase → LinkPhase → State → Type 0
  Balanced m p s =
      (p' : LinkPhase) × (t : State) × (m s ≡ some (p', t))
      × (total (references t sign) + success p ≡ total (references s sign) + success p')
      × Sound p' t
      × Remains s t
      × Climbs s t

  raised :
      (s t : State)
      → ((x : Bytes) → references t x ≡ counted (references s) sign x)
      → (total (references t sign) ≡ total (references s sign) + 1) × (references t sign ≢ none)
  raised s t after =
      let e : references t sign ≡ one_more (references s sign) =
        after sign ∙ ground (arith, bytes_eq_self sign) in
      (
        ap total e ∙ total-one_more (references s sign),
        λ gone. one_more-some (references s sign) (sym e ∙ gone),
      )

  same : (s t : State) → references t ≡ references s → Remains s t
  same s t kept there gone = there (sym (ap (λ f. f sign) kept) ∙ gone)

  module _ (src dst file_name : Bytes) (q' : IsQuotable file_name) where
    abbrev pub the_call : LinkCall
    the_call = record { src = src; dst = dst; sign = sign; file_name = file_name }

    search-Balanced : (s : State) → Balanced (link_turn h sql the_call selects) selects s
    unfolding link_turn link_step run_query fetch_res
    search-Balanced s =
        let (s1, s2, s3, result, row, asked, stored, fetched, found, kept) =
          db.select_row s sign q in
        elim (Option-cases row) [
          | inl fresh ↦ (
            inserts,
            s3,
            ground arith,
            ap (λ f. total (f sign) + 0) kept,
            tt,
            same s s3 kept,
            inl (ap (λ f. f sign) kept),
          )
          | inr (r, known) ↦
              let present : references s sign ≢ none = λ e. ground (arith, found.1 e) in
              (
                updates,
                s3,
                ground arith,
                ap (λ f. total (f sign) + 0) kept,
                same s s3 kept present,
                same s s3 kept,
                inl (ap (λ f. f sign) kept),
              )
        ]

    -- A step from one phase to another that leaves the table alone, or that raises the count.
    abbrev pub Quiet : LinkPhase → LinkPhase → State → Type 0
    Quiet p p' s =
        (t : State) × (link_turn h sql the_call p s ≡ some (p', t)) × (references t ≡ references s)

    abbrev pub Raises : LinkPhase → LinkPhase → State → Type 0
    Raises p p' s =
        (t : State) × (link_turn h sql the_call p s ≡ some (p', t))
        × ((x : Bytes) → references t x ≡ counted (references s) sign x)

    pub links-Quiet : (s : State) → Quiet links selects s
    unfolding link_turn link_step link
    links-Quiet s =
        let (t, made, kept) = db.make_link s (c_str src) (c_str dst) in
        (t, elim made [ inl e ↦ ground (arith, e) | inr e ↦ ground (arith, e) ], kept)

    pub selects-Quiet : (s : State) → references s sign ≡ none → Quiet selects inserts s
    unfolding link_turn link_step run_query fetch_res
    selects-Quiet s absent =
        let (s1, s2, s3, result, row, asked, stored, fetched, found, kept) =
          db.select_row s sign q in
        (s3, ground (arith, found.1 absent), kept)

    pub inserts-Raises : (s : State) → references s sign ≡ none → Raises inserts (returns (pos 0)) s
    unfolding link_turn link_step add_sign_map run_query
    inserts-Raises s absent =
        let (t, added, after) = db.insert_row s sign file_name q q' absent in
        (t, ground arith, after)

    pub inserts-Quiet : (s : State) → references s sign ≢ none → Quiet inserts (returns minus_one) s
    unfolding link_turn link_step add_sign_map run_query
    inserts-Quiet s present =
        let (t, refused, kept) = key.duplicate_row s sign file_name q q' present in
        (t, ground arith, kept)

    pub link_turn-Balanced :
        (p : LinkPhase) (s : State) → Sound p s → Balanced (link_turn h sql the_call p) p s
    unfolding link_turn link_step increment_sign_map run_query
    link_turn-Balanced links s ok =
        let (t, run, kept) = links-Quiet s in
        (
          selects,
          t,
          run,
          ap (λ f. total (f sign) + 0) kept,
          tt,
          same s t kept,
          inl (ap (λ f. f sign) kept),
        )
    link_turn-Balanced selects s ok = search-Balanced s
    link_turn-Balanced fetches s ok = absurd ok
    link_turn-Balanced inserts s ok = elim (Option-cases (references s sign)) [
      | inl absent ↦
          let (t, run, after) = inserts-Raises s absent in
          let (more, there) = raised s t after in
          (returns (pos 0), t, run, omega (arith, more), (inl refl, there), λ _. there, inr more)
      | inr (n, present) ↦
          let some_row : references s sign ≢ none = λ e. ground arith in
          let (t, run, kept) = inserts-Quiet s some_row in
          (
            returns minus_one,
            t,
            run,
            ap (λ f. total (f sign) + 0) kept,
            (inr refl, same s t kept some_row),
            same s t kept,
            inl (ap (λ f. f sign) kept),
          )
    ]
    link_turn-Balanced updates s ok =
        let (t, added, after) = db.update_row s sign q ok in
        let (more, there) = raised s t after in
        (
          returns (pos 0),
          t,
          ground arith,
          omega (arith, more),
          (inl refl, there),
          λ _. there,
          inr more,
        )
    link_turn-Balanced (returns code) s ok = (returns code, s, refl, refl, ok, λ k. k, inl refl)
