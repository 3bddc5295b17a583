-- ===== src/Register/Accounts.antt =====
-- What `RegisterView::Process` of code/src/short_connect/register_view.cpp does to the table Usr.
use network_disk_server.Base.{
  ℕ, ◌≡◌, ◌≢◌, ◌↔◌, ◌⊎◌, inl, inr, ap, ◌∙◌, true, false, Bool, Option, none, some, ◌++◌, ◌||◌,
  arith, Option-cases,
}
use network_disk_server.Base.Text.{Bytes, codes, bytes_eq, bytes_eq_self, c_str}
use network_disk_server.Host.{Host, Row, Outcome, eexist}
use network_disk_server.FileSys.{mkdir}
use network_disk_server.Mysql.{run_query, fetch_res}
use network_disk_server.Upload.References.{IsQuotable}
use network_disk_server.Register.{
  View, select_usr, insert_usr_cmd, usr_not_exist, insert_usr, create_usr_dir, add_usr, finish_usr,
  regist,
}

-- `users` reads which names the table Usr has, through the connection: a SELECT gives a row exactly
-- for those, and an INSERT of a new name adds it. Making a directory leaves the table alone.
pub record KeepsUsers (h : Host) (conn : ℕ) (users : h.State → Bytes → Bool) : Type 0 where
  pub select_row :
      (s : h.State) (usr : Bytes)
      → IsQuotable usr
      → (s1 s2 s3 : h.State) × (result : ℕ) × (row : Option Row) × (h.mysql_real_query conn
            (select_usr usr)
            s
          ≡ (false, s1))
        × (h.mysql_store_result conn s1 ≡ (some result, s2))
        × (h.mysql_fetch_row result s2 ≡ (row, s3))
        × ((row ≡ none) ↔ (users s usr ≡ false))
        × (users s3 ≡ users s)
  pub insert_row :
      (s : h.State) (usr passwd : Bytes)
      → IsQuotable usr
      → IsQuotable passwd
      → users s usr ≡ false
      → (t : h.State) × (h.mysql_real_query conn (insert_usr_cmd usr passwd) s ≡ (false, t))
        × ((x : Bytes) → users t x ≡ (bytes_eq x usr || users s x))
  pub mkdir_keeps :
      (s t : h.State) (path : Bytes) (r : Outcome) → h.mkdir path s ≡ (r, t) → users t ≡ users s

module _ (h : Host) (conn : ℕ) (users : h.State → Bytes → Bool) (db : KeepsUsers h conn users)
    (usr_dir usr passwd : Bytes) (q : IsQuotable usr) (q' : IsQuotable passwd) where
  open h use {State}

  abbrev view : View
  view = record { sql = record { sql_conn = some conn } }

  -- On a database that keeps the table (`KeepsUsers`), for a name and a password without quotes and
  -- backslashes, a name that is taken is refused, and the table stays as it is.
  regist_taken :
      (s : State)
      → users s usr ≡ true
      → (t : State) × (regist h usr_dir view usr passwd s
          ≡ some (codes "Fail: usr is existed, usr: " ++ usr, t))
        × (users t ≡ users s)
  unfolding regist usr_not_exist run_query fetch_res
  regist_taken s taken =
      let (s1, s2, s3, result, row, asked, stored, fetched, found, kept) = db.select_row s usr q in
      elim (Option-cases row) [
        | inl fresh ↦ absurd (ground (arith, found.0 fresh))
        | inr (r, known) ↦ (s3, ground arith, kept)
      ]

  abbrev Adds : State → State → Type 0
  Adds s t = (x : Bytes) → users t x ≡ (bytes_eq x usr || users s x)

  -- The registration of a new name up to the directory.
  inserted :
      (s : State)
      → users s usr ≡ false
      → (t : State) × (regist h usr_dir view usr passwd s ≡ finish_usr h usr_dir usr t) × Adds s t
  unfolding regist usr_not_exist run_query fetch_res add_usr insert_usr
  inserted s new =
      let (s1, s2, s3, result, row, asked, stored, fetched, found, kept) = db.select_row s usr q in
      let absent : users s3 usr ≡ false = ap (λ f. f usr) kept ∙ new in
      let (t, added, after) = db.insert_row s3 usr passwd q q' absent in
      (t, ground (arith, found.1 new), λ x. after x ∙ ap (λ f. bytes_eq x usr || f x) kept)

  keep_users :
      (s t u : State) (r : Outcome)
      → h.mkdir (c_str (usr_dir ++ usr)) t ≡ (r, u)
      → Adds s t
      → Adds s u
  keep_users s t u r made after x =
      ap (λ f. f x) (db.mkdir_keeps t u (c_str (usr_dir ++ usr)) r made) ∙ after x

  -- On a database that keeps the table (`KeepsUsers`), for a name and a password without quotes and
  -- backslashes, a new name is registered where the directory can be made or is there: exactly that
  -- name is added to the table.
  pub regist_new :
      (s : State)
      → users s usr ≡ false
      → ((t : State)
          → (u : State) × ((h.mkdir (c_str (usr_dir ++ usr)) t ≡ (none, u))
              ⊎ (h.mkdir (c_str (usr_dir ++ usr)) t ≡ (some eexist, u))))
      → (u : State) × (regist h usr_dir view usr passwd s
          ≡ some (codes "Success: regist usr " ++ usr, u))
        × Adds s u
  unfolding finish_usr create_usr_dir mkdir
  regist_new s new makes =
      let (t, run, after) = inserted s new in
      let (u, made) = makes t in
      (
        u,
        run ∙ elim made [ inl e ↦ ground (arith, e) | inr e ↦ ground (arith, e) ],
        elim made [ inl e ↦ keep_users s t u _ e after | inr e ↦ keep_users s t u _ e after ],
      )

  -- On a database that keeps the table (`KeepsUsers`), for a name and a password without quotes and
  -- backslashes, a new name whose directory cannot be made is answered with a failure, but it is in
  -- the table afterwards, and a second attempt is refused because the name is taken.
  pub regist_stranded :
      (s : State)
      → users s usr ≡ false
      → ((t : State)
          → (u : State) × (errno : ℕ) × (h.mkdir (c_str (usr_dir ++ usr)) t ≡ (some errno, u))
            × (errno ≢ eexist))
      → (u v : State) × (regist h usr_dir view usr passwd s
          ≡ some (codes "Fail: create usr dir failed", u))
        × Adds s u
        × (regist h usr_dir view usr passwd u
            ≡ some (codes "Fail: usr is existed, usr: " ++ usr, v))
  unfolding finish_usr create_usr_dir mkdir
  regist_stranded s new fails =
      let (t, run, after) = inserted s new in
      let (u, errno, failed, other) = fails t in
      let grown : Adds s u = keep_users s t u (some errno) failed after in
      let there : users u usr ≡ true = grown usr ∙ ground (arith, bytes_eq_self usr) in
      let (v, again, same) = regist_taken u there in
      (u, v, run ∙ ground (arith, failed), grown, again)
