-- ===== src/Upload/Store/Links.antt =====
-- `linkToUsr` of code/src/long_connect/upload_rpc.cpp leaves the parts of the upload alone.
use network_disk_server.Base.{
  ℕ, ◌≡◌, ◌∙◌, true, false, none, some, arith, Option-cases, Option, Bool-cases, inl, inr,
  if◌then◌else◌,
}
use network_disk_server.Base.Int.{pos, minus_one, nonzero}
use network_disk_server.Base.Fallible.{M, pure, ◌>>=◌}
use network_disk_server.Base.Text.{Bytes, c_str}
use network_disk_server.Host.{Row}
use network_disk_server.FileSys.{link}
use network_disk_server.Mysql.{run_query, fetch_res}
use network_disk_server.Upload.{
  link_to_usr, count_sign, add_sign_map, increment_sign_map, link_file, select_sign, insert_sign,
  update_sign,
}
use network_disk_server.Upload.References.{IsQuotable, counted, link_to_usr-Counts}
use network_disk_server.Upload.Store.{Stage, Acts, base, part}

module _ (g : Stage) (acts : Acts g) where
  open g use {State, host}

  -- A run that ends has left the parts as they were.
  abbrev pub Keeps : {A : Type 0} → M State A → Type 0
  Keeps {A} m = (s t : State) (a : A) → m s ≡ some (a, t) → g.files t ≡ g.files s

  pub run_query-Keeps : (cmd : Bytes) → Keeps (run_query host (base g) cmd)
  unfolding run_query
  run_query-Keeps cmd s t b run = ground (arith, acts.keep_query s g.conn cmd)

  pub fetch_res-Keeps : Keeps (fetch_res host (base g))
  unfolding fetch_res
  fetch_res-Keeps s t b run =
      let (r, u) = host.mysql_store_result g.conn s in
      let kept = acts.keep_result s g.conn in
      elim (Option-cases r) [
        | inl stop ↦ absurd (ground arith)
        | inr (result, e) ↦ ground (arith, kept, acts.keep_row u result)
      ]

  pub link-Keeps : (src dst : Bytes) → Keeps (link host src dst)
  unfolding link
  link-Keeps src dst s t b run =
      let (r, u) = host.symlink (c_str src) (c_str dst) s in
      let kept = acts.keep_symlink s (c_str src) (c_str dst) in
      elim (Option-cases r) [
        | inl made ↦ ground (arith, kept)
        | inr (errno, failed) ↦ ground (arith, kept)
      ]

  -- A query whose result is only turned into a code.
  update-Keeps :
      (cmd : Bytes)
      → Keeps (run_query host (base g) cmd >>= λ r. if r then pure minus_one else pure (pos 0))
  update-Keeps cmd s t b run = elim (Option-cases (run_query host (base g) cmd s)) [
    | inl stop ↦ absurd (ground arith)
    | inr ((r, u), asked) ↦ ground (arith, run_query-Keeps cmd s u r asked)
  ]

  pub add_sign_map-Keeps :
      (sign file_name : Bytes) → Keeps (add_sign_map host (base g) sign file_name)
  unfolding add_sign_map
  add_sign_map-Keeps sign file_name = update-Keeps (insert_sign sign file_name)

  pub increment_sign_map-Keeps : (sign : Bytes) → Keeps (increment_sign_map host (base g) sign)
  unfolding increment_sign_map
  increment_sign_map-Keeps sign = update-Keeps (update_sign sign)

  count_sign-Keeps : (sign file_name : Bytes) → Keeps (count_sign host (base g) sign file_name)
  unfolding count_sign
  count_sign-Keeps sign file_name s t b run =
      elim (Option-cases (run_query host (base g) (select_sign sign) s)) [
        | inl stop ↦ absurd (ground arith)
        | inr ((true, s1), asked) ↦
            ground (arith, run_query-Keeps (select_sign sign) s s1 true asked)
        | inr ((false, s1), asked) ↦
            let kept = run_query-Keeps (select_sign sign) s s1 false asked in
            elim (Option-cases (fetch_res host (base g) s1)) [
              | inl stop ↦ absurd (ground arith)
              | inr ((row, s2), fetched) ↦
                  let kept' = fetch_res-Keeps s1 s2 row fetched in
                  count-Keeps row s2 t b (ground arith) ∙ kept' ∙ kept
            ]
      ]
    where
      count-Keeps :
          (row : Option Row)
          → Keeps (elim row [
            | none ↦ do
              code ← add_sign_map host (base g) sign file_name
              pure (if nonzero code then minus_one else pos 0)
            | some _ ↦ increment_sign_map host (base g) sign
          ])
      count-Keeps none s t b run =
          elim (Option-cases (add_sign_map host (base g) sign file_name s)) [
            | inl stop ↦ absurd (ground arith)
            | inr ((code, u), added) ↦
                ground (arith, add_sign_map-Keeps sign file_name s u code added)
          ]
      count-Keeps (some r) s t b run = increment_sign_map-Keeps sign s t b run

  link_to_usr-Keeps :
      (src dst sign file_name : Bytes) → Keeps (link_to_usr host (base g) src dst sign file_name)
  unfolding link_to_usr
  link_to_usr-Keeps src dst sign file_name s t b run = elim (Option-cases (link host src dst s)) [
    | inl stop ↦ absurd (ground arith)
    | inr ((code, u), made) ↦
        let kept = link-Keeps src dst s u code made in
        elim (Bool-cases (nonzero code)) [
          | inl failed ↦ ground (arith, kept)
          | inr fine ↦ count_sign-Keeps sign file_name u t b (ground arith) ∙ kept
        ]
  ]

  -- The file is linked and counted, and its parts stay where they are.
  pub link_file-Counts :
      (s : State) (i : ℕ) (body : Bytes)
      → IsQuotable g.sign
      → IsQuotable g.file_name
      → (t : State) × (link_file host g.flags (base g) (part g i body) s ≡ some (pos 0, t))
        × (g.files t ≡ g.files s)
        × ((x : Bytes) → g.references t x ≡ counted (g.references s) g.sign x)
  link_file-Counts s i body q q' =
      let (t, run, after) =
        link_to_usr-Counts host g.conn g.references acts.signs g.sign g.file_name q q' _ _ s in
      (t, run, link_to_usr-Keeps _ _ g.sign g.file_name s t (pos 0) run, after)
