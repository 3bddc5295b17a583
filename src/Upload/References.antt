-- ===== src/Upload/References.antt =====
-- The reference counts of the table SignMap, which `linkToUsr` of
-- code/src/long_connect/upload_rpc.cpp keeps.
use network_disk_server.Base.{
  ℕ, suc, ◌+◌, ◌≡◌, ◌≢◌, ◌↔◌, ◌⊎◌, inl, inr, refl, sym, ap, ◌∙◌, false, Option, none, some, List,
  [], ◌∷◌, arith, if◌then◌else◌, length, Option-cases,
}
use network_disk_server.Base.Int.{ℤ, pos}
use network_disk_server.Base.Fallible.{M, pure, ◌>>◌, >>=-run}
use network_disk_server.Base.Text.{Bytes, Lacks, bytes_eq, bytes_eq_self, c_str}
use network_disk_server.Host.{Host, Row, eexist}
use network_disk_server.FileSys.{link}
use network_disk_server.Mysql.{Mmysql, run_query, fetch_res}
use network_disk_server.Upload.{
  select_sign, insert_sign, update_sign, add_sign_map, increment_sign_map, count_sign, link_to_usr,
}

-- A text that stands for itself between single quotes: it has neither the quote (39) nor the
-- backslash (92).
abbrev pub IsQuotable : Bytes → Type 0
IsQuotable s = Lacks 39 s × Lacks 92 s

-- The count of a sign after one more link.
abbrev pub one_more : Option ℕ → Option ℕ
one_more none = some 1
one_more (some n) = some (n + 1)

abbrev pub counted : (Bytes → Option ℕ) → Bytes → Bytes → Option ℕ
counted f sign x = if bytes_eq x sign then one_more (f sign) else f x

-- `references` reads the table SignMap, with `sign` as its key, through the connection: a SELECT
-- gives a row exactly if there is one, an INSERT adds a row with count 1, and an UPDATE adds 1 to
-- the count of the row. Making a link fails at most because the link is there, and leaves the table
-- alone.
pub record KeepsSigns (h : Host) (conn : ℕ) (references : h.State → Bytes → Option ℕ) : Type 0 where
  pub select_row :
      (s : h.State) (sign : Bytes)
      → IsQuotable sign
      → (s1 s2 s3 : h.State) × (result : ℕ) × (row : Option Row) × (h.mysql_real_query conn
            (select_sign sign)
            s
          ≡ (false, s1))
        × (h.mysql_store_result conn s1 ≡ (some result, s2))
        × (h.mysql_fetch_row result s2 ≡ (row, s3))
        × ((row ≡ none) ↔ (references s sign ≡ none))
        × (references s3 ≡ references s)
  pub insert_row :
      (s : h.State) (sign file_name : Bytes)
      → IsQuotable sign
      → IsQuotable file_name
      → references s sign ≡ none
      → (t : h.State) × (h.mysql_real_query conn (insert_sign sign file_name) s ≡ (false, t))
        × ((x : Bytes) → references t x ≡ counted (references s) sign x)
  pub update_row :
      (s : h.State) (sign : Bytes)
      → IsQuotable sign
      → references s sign ≢ none
      → (t : h.State) × (h.mysql_real_query conn (update_sign sign) s ≡ (false, t))
        × ((x : Bytes) → references t x ≡ counted (references s) sign x)
  pub make_link :
      (s : h.State) (target path : Bytes)
      → (t : h.State) × ((h.symlink target path s ≡ (none, t))
          ⊎ (h.symlink target path s ≡ (some eexist, t)))
        × (references t ≡ references s)

-- Links to several places, one after the other.
pub link_all : (h : Host) → Mmysql → Bytes → Bytes → Bytes → List Bytes → M h.State ℤ
link_all h sql sign file_name src [] = pure (pos 0)
link_all h sql sign file_name src (dst ∷ dsts) =
    link_to_usr h sql src dst sign file_name >> link_all h sql sign file_name src dsts

module _ (h : Host) (conn : ℕ) (references : h.State → Bytes → Option ℕ)
    (db : KeepsSigns h conn references) where
  open h use {State}

  abbrev sql : Mmysql
  sql = record { sql_conn = some conn }

  -- What a call that links once leaves behind.
  abbrev Counts : M State ℤ → State → Bytes → Type 0
  Counts m s sign =
      (t : State) × (m s ≡ some (pos 0, t))
      × ((x : Bytes) → references t x ≡ counted (references s) sign x)

  module _ (sign file_name : Bytes) (q : IsQuotable sign) (q' : IsQuotable file_name) where
    count_sign-Counts : (s : State) → Counts (count_sign h sql sign file_name) s sign
    unfolding count_sign run_query fetch_res add_sign_map increment_sign_map
    count_sign-Counts s =
        let (s1, s2, s3, result, row, asked, stored, fetched, found, kept) =
          db.select_row s sign q in
        elim (Option-cases row) [
          | inl fresh ↦
              let absent : references s3 sign ≡ none = ap (λ f. f sign) kept ∙ found.0 fresh in
              let (t, added, after) = db.insert_row s3 sign file_name q q' absent in
              (t, ground arith, λ x. after x ∙ ap (λ f. counted f sign x) kept)
          | inr (r, known) ↦
              let present : references s3 sign ≢ none =
                λ e. ground (arith, found.1 (sym (ap (λ f. f sign) kept) ∙ e)) in
              let (t, added, after) = db.update_row s3 sign q present in
              (t, ground arith, λ x. after x ∙ ap (λ f. counted f sign x) kept)
        ]

    -- On a database that keeps the table (`KeepsSigns`), for a sign and a name without quotes and
    -- backslashes, a link counts one more use of the file's sign, whether or not the link was there
    -- before, and leaves the counts of the other signs alone.
    pub link_to_usr-Counts :
        (src dst : Bytes) (s : State) → Counts (link_to_usr h sql src dst sign file_name) s sign
    unfolding link_to_usr link
    link_to_usr-Counts src dst s =
        let (u, made, kept) = db.make_link s (c_str src) (c_str dst) in
        let (t, run, after) = count_sign-Counts u in
        (
          t,
          elim made [ inl e ↦ ground (arith, e, run) | inr e ↦ ground (arith, e, run) ],
          λ x. after x ∙ ap (λ f. counted f sign x) kept,
        )

    -- From a count `n` on, each link adds one; the places need not be different.
    link_all-count :
        (src : Bytes) (dsts : List Bytes) (s : State) (n : ℕ)
        → references s sign ≡ some n
        → (t : State) × (link_all h sql sign file_name src dsts s ≡ some (pos 0, t))
          × (references t sign ≡ some (n + length dsts))
    unfolding link_all
    link_all-count src [] s n e = (s, refl, e ∙ ap some (let k : n ≡ n + 0 = omega arith in k))
    link_all-count src (dst ∷ dsts) s n e =
        let (u, run, after) = link_to_usr-Counts src dst s in
        let (t, runs, total) = link_all-count src dsts u (n + 1) (once u after) in
        (
          t,
          >>=-run (link_to_usr h sql src dst sign file_name) _ run ∙ runs,
          total ∙ ap some (let k : n + 1 + length dsts ≡ n + suc (length dsts) = omega arith in k),
        )
      where
        once :
            (u : State)
            → ((x : Bytes) → references u x ≡ counted (references s) sign x)
            → references u sign ≡ some (n + 1)
        once u after = after sign ∙ ground (arith, bytes_eq_self sign)

    -- On a database that keeps the table (`KeepsSigns`), for a sign and a name without quotes and
    -- backslashes, a file that is not in the table has, after links to several places, as many
    -- references as there were links: a place that is linked twice counts twice, though it is one
    -- link on the disk.
    pub references-link_all :
        (src dst : Bytes) (dsts : List Bytes) (s : State)
        → references s sign ≡ none
        → (t : State) × (link_all h sql sign file_name src (dst ∷ dsts) s ≡ some (pos 0, t))
          × (references t sign ≡ some (length (dst ∷ dsts)))
    unfolding link_all
    references-link_all src dst dsts s fresh =
        let (u, run, after) = link_to_usr-Counts src dst s in
        let one : references u sign ≡ some 1 = after sign ∙ ground (arith, bytes_eq_self sign) in
        let (t, runs, total) = link_all-count src dsts u 1 one in
        (
          t,
          >>=-run (link_to_usr h sql src dst sign file_name) _ run ∙ runs,
          total ∙ ap some (let k : 1 + length dsts ≡ length (dst ∷ dsts) = omega arith in k),
        )
