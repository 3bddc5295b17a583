-- ===== src/Register/Race/Winner.antt =====
-- Who is told that a name was registered, when two workers register it at the same time in
-- code/src/short_connect/register_view.cpp.
use network_disk_server.Base.{
  ℕ, ◌+◌, ◌≤◌, ◌≡◌, inl, inr, refl, ap, ◌∙◌, Bool, true, false, none, some, List, ◌++◌, arith, ◌==◌,
  Option-cases, Bool-cases,
}
use network_disk_server.Base.Fallible.{M}
use network_disk_server.Base.Interleave.{interleave, interleave-Keeps}
use network_disk_server.Base.Text.{Bytes, codes, bytes_eq, bytes_eq_self, c_str}
use network_disk_server.Host.{Host, Outcome, eexist}
use network_disk_server.FileSys.{mkdir}
use network_disk_server.Mysql.{run_query, fetch_res}
use network_disk_server.Upload.References.{IsQuotable}
use network_disk_server.Register.{
  View, insert_usr_cmd, usr_not_exist, insert_usr, finish_usr, create_usr_dir,
}
use network_disk_server.Register.Accounts.{KeepsUsers}
use network_disk_server.Register.Race.{RegistPhase, asks, adds, makes, answers, regist_step}

-- The name is unique in the table Usr: an INSERT of a name that is there fails.
pub record RefusesNames (h : Host) (conn : ℕ) (users : h.State → Bytes → Bool) : Type 0 where
  pub duplicate_row :
      (s : h.State) (usr passwd : Bytes)
      → IsQuotable usr
      → IsQuotable passwd
      → users s usr ≡ true
      → (t : h.State) × (h.mysql_real_query conn (insert_usr_cmd usr passwd) s ≡ (true, t))
        × (users t ≡ users s)

abbrev pub one_if : Bool → ℕ
one_if true = 1
one_if false = 0

-- One for a registration that has put its name into the table, or that was answered with success.
abbrev pub won : Bytes → RegistPhase → ℕ
won usr makes = 1
won usr (answers msg) = one_if (bytes_eq msg (codes "Success: regist usr " ++ usr))
won usr _ = 0

one_if-le : (b : Bool) → one_if b ≤ 1
one_if-le true = omega arith
one_if-le false = omega arith

module _ (h : Host) (users : h.State → Bytes → Bool) (usr_dir usr : Bytes)
    (q : IsQuotable usr) where
  open h use {State}

  abbrev taken : State → ℕ
  taken s = one_if (users s usr)

  -- A step wins no more than the table gains.
  abbrev Fair : M State RegistPhase → RegistPhase → State → Type 0
  Fair m p s =
      (r : RegistPhase) × (t : State) × (m s ≡ some (r, t))
      × (won usr r + taken s ≤ won usr p + taken t)

  still : (s t : State) → users t ≡ users s → taken t ≡ taken s
  still s t kept = ap (λ f. one_if (f usr)) kept

  module _ (conn : ℕ) (db : KeepsUsers h conn users) (key : RefusesNames h conn users)
      (passwd : Bytes) (q' : IsQuotable passwd) where
    abbrev view : View
    view = record { sql = record { sql_conn = some conn } }

    asks-Fair : (s : State) → Fair (regist_step h usr_dir view usr passwd asks) asks s
    unfolding regist_step usr_not_exist run_query fetch_res bytes_eq
    asks-Fair s =
        let (s1, s2, s3, result, row, asked, stored, fetched, found, kept) =
          db.select_row s usr q in
        elim (Option-cases row) [
          | inl fresh ↦ (adds, s3, ground arith, omega (arith, still s s3 kept))
          | inr (r, known) ↦ (
            answers (codes "Fail: usr is existed, usr: " ++ usr),
            s3,
            ground arith,
            omega (arith, still s s3 kept),
          )
        ]

    adds-Fair : (s : State) → Fair (regist_step h usr_dir view usr passwd adds) adds s
    unfolding regist_step insert_usr run_query bytes_eq
    adds-Fair s = elim (Bool-cases (users s usr)) [
      | inr new ↦
          let (t, added, after) = db.insert_row s usr passwd q q' new in
          let there : users t usr ≡ true = after usr ∙ ground (arith, bytes_eq_self usr) in
          (makes, t, ground arith, ground arith)
      | inl old ↦
          let (t, refused, kept) = key.duplicate_row s usr passwd q q' old in
          (
            answers (codes "Fail: insert Usr table failed"),
            t,
            ground arith,
            omega (arith, still s t kept),
          )
    ]

    finish_usr-answers :
        (s t : State) (r : Outcome)
        → h.mkdir (c_str (usr_dir ++ usr)) s ≡ (r, t)
        → (msg : Bytes) × (finish_usr h usr_dir usr s ≡ some (msg, t))
    unfolding finish_usr create_usr_dir mkdir
    finish_usr-answers s t none made = (codes "Success: regist usr " ++ usr, ground arith)
    finish_usr-answers s t (some errno) made = elim (Bool-cases (errno == eexist)) [
      | inl there ↦ (codes "Success: regist usr " ++ usr, ground arith)
      | inr failed ↦ (codes "Fail: create usr dir failed", ground arith)
    ]

    makes-Fair : (s : State) → Fair (regist_step h usr_dir view usr passwd makes) makes s
    unfolding regist_step
    makes-Fair s =
        let (r, t) = h.mkdir (c_str (usr_dir ++ usr)) s in
        let kept = still s t (db.mkdir_keeps s t (c_str (usr_dir ++ usr)) r refl) in
        let (msg, run) = finish_usr-answers s t r refl in
        let most = one_if-le (bytes_eq msg (codes "Success: regist usr " ++ usr)) in
        (answers msg, t, ground (arith, run), omega (arith, kept, most))

    regist_step-Fair :
        (p : RegistPhase) (s : State) → Fair (regist_step h usr_dir view usr passwd p) p s
    unfolding regist_step
    regist_step-Fair asks s = asks-Fair s
    regist_step-Fair adds s = adds-Fair s
    regist_step-Fair makes s = makes-Fair s
    regist_step-Fair (answers msg) s = (answers msg, s, refl, omega arith)

  module _ (conn conn' : ℕ) (db : KeepsUsers h conn users) (db' : KeepsUsers h conn' users)
      (key : RefusesNames h conn users) (key' : RefusesNames h conn' users) (passwd passwd' : Bytes)
      (q1 : IsQuotable passwd) (q2 : IsQuotable passwd') where
    abbrev pub one : RegistPhase → M State RegistPhase
    one = regist_step h usr_dir (view conn db key passwd q1) usr passwd

    abbrev pub other : RegistPhase → M State RegistPhase
    other = regist_step h usr_dir (view conn' db' key' passwd' q2) usr passwd'

    -- On connections to a database that keeps the table Usr (`KeepsUsers`) with unique names
    -- (`RefusesNames`), for a name and passwords without quotes and backslashes, two registrations of
    -- one name get through every schedule of their steps, and at most one of them has put the name
    -- into the table or is answered with success; none, if the name was there before.
    pub regist_step-Won :
        (schedule : List Bool) (s : State)
        → (p p' : RegistPhase) × (t : State) × (interleave one other schedule asks asks s
            ≡ some ((p, p'), t))
          × (won usr p + won usr p' + one_if (users s usr) ≤ 1)
    regist_step-Won schedule s =
        let (p, p', t, run, fair) =
          interleave-Keeps one other (λ p p' u. won usr p + won usr p' + taken s ≤ taken u)
            (λ p p' u fair.
              let (r, v, step, gain) = regist_step-Fair conn db key passwd q1 p u in
              (r, v, step, omega (arith, fair, gain)))
            (λ p p' u fair.
              let (r, v, step, gain) = regist_step-Fair conn' db' key' passwd' q2 p' u in
              (r, v, step, omega (arith, fair, gain)))
            schedule asks asks s (omega arith) in
        (p, p', t, run, omega (arith, fair, one_if-le (users t usr)))
