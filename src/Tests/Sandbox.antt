-- ===== src/Tests/Sandbox.antt =====
-- A small machine to run the program on: one file, two tables, and fixed answers for the rest.
use network_disk_server.Base.{
  ℕ, ◌≡◌, ◌≢◌, ◌∙◌, refl, sym, ap, Bool, true, false, Option, none, some, [], ◌∷◌, ◌++◌, ◌||◌, inl,
  arith, ◌==◌, if◌then◌else◌, drop, get_elem?,
}
use network_disk_server.Base.Text.{Bytes, Lacks, bytes_eq}
use network_disk_server.Flags.{default_mysql_flags}
use network_disk_server.Host.{Host, Outcome, Row}
use network_disk_server.FileSys.Writing.{IsAppending}
use network_disk_server.Upload.{select_sign, insert_sign, update_sign}
use network_disk_server.Upload.References.{KeepsSigns, counted}
use network_disk_server.Register.{select_usr, insert_usr_cmd}
use network_disk_server.Register.Accounts.{KeepsUsers}
use network_disk_server.Register.Race.Winner.{RefusesNames}
use network_disk_server.Upload.Race.Steps.{RefusesDuplicates}

pub record Sandbox : Type 0 where
  -- what went through the one open file
  pub file : Bytes
  -- the tables, and the row that the last SELECT found
  pub references : Bytes → Option ℕ
  pub users : Bytes → Bool
  pub found : Option Row
  -- the answers of opendir, popen and recv
  pub opens : Option ℕ
  pub prints : Bytes
  pub receives : Option Bytes
  -- a byte that fresh arrays are full of
  pub dirt : ℕ

abbrev pub clean_state : Sandbox
clean_state = record {
  file = [];
  references = λ _. none;
  users = λ _. false;
  found = none;
  opens = none;
  prints = [];
  receives = none;
  dirt = 0;
}

-- The text before the first quote.
abbrev quoted : Bytes → Bytes
quoted [] = []
quoted (c ∷ s) = if c == 39 then [] else c ∷ quoted s

pub quoted-append : (s t : Bytes) → Lacks 39 s → quoted (s ++ (39 ∷ t)) ≡ s
quoted-append [] t h = refl
quoted-append (c ∷ s) t h = ground (arith, quoted-append s t h.1)

abbrev row_if : Bool → Option Row
row_if true = some []
row_if false = none

abbrev is_some : Option ℕ → Bool
is_some none = false
is_some (some n) = true

-- A key that is there is refused.
abbrev add_sign : Option ℕ → Bytes → Sandbox → Bool × Sandbox
add_sign (some n) sign s = (true, s)
add_sign none sign s = (false, record s { references = counted s.references sign })

abbrev add_user : Bool → Bytes → Sandbox → Bool × Sandbox
add_user true usr s = (true, s)
add_user false usr s = (false, record s { users = λ x. bytes_eq x usr || s.users x })

-- The commands begin with `SELECT *`, `SELECT uid`, `INSERT INTO S`, `INSERT INTO U` and `UPDATE`.
abbrev query : Bytes → Sandbox → Bool × Sandbox
query cmd s = elim (get_elem? cmd 7) [
  | none ↦ (true, s)
  | some c ↦
      if c == b'*'
      then (false, record s { found = row_if (is_some (s.references (quoted (drop 36 cmd)))) })
      else if c == b'u'
      then (false, record s { found = row_if (s.users (quoted (drop 34 cmd))) })
      else if c == b'I'
      then elim (get_elem? cmd 12) [
        | none ↦ (true, s)
        | some d ↦
            if d == b'S'
            then add_sign (s.references (quoted (drop 56 cmd))) (quoted (drop 56 cmd)) s
            else add_user (s.users (quoted (drop 39 cmd))) (quoted (drop 39 cmd)) s
      ]
      else (false, record s { references = counted s.references (quoted (drop 59 cmd)) })
]

-- The machine on which mkdir always has the same outcome.
abbrev pub sandbox_with : Outcome → Host
sandbox_with outcome = record {
  State = Sandbox;
  mkdir = λ path s. (outcome, s);
  remove = λ path s. (none, s);
  symlink = λ target path s. (none, s);
  accessible = λ path s. false;
  opendir = λ path s. (s.opens, s);
  readdir_all = λ dir s. ([], s);
  open_create = λ path s. (some 3, record s { file = [] });
  write = λ fd b s. record s { file = s.file ++ b };
  close = λ fd s. s;
  popen = λ cmd s. (some s.prints, s);
  stale = λ s i. s.dirt;
  send = λ fd b s. record s { file = b };
  recv = λ fd n s. (s.receives, s);
  mysql_library_init = λ s. s;
  mysql_init = λ s. (1, s);
  mysql_flags = default_mysql_flags;
  mysql_real_connect = λ conn ip usr passwd port s. (true, s);
  mysql_select_db = λ conn database s. (false, s);
  mysql_real_query = λ conn cmd s. query cmd s;
  mysql_store_result = λ conn s. (some 0, s);
  mysql_fetch_row = λ res s. (s.found, s);
  mysql_close = λ conn s. s;
}

abbrev pub sandbox : Host
sandbox = sandbox_with none

pub appends : IsAppending sandbox (λ s fd. s.file)
appends = record {
  sent-write = λ s fd b. refl;
  sent-open = λ s s' path fd e. ap (λ r. r.1.file) (sym e);
  sent-close = λ s fd. refl;
}

insert_sign-query :
    (s : Sandbox) (sign name : Bytes)
    → Lacks 39 sign
    → query (insert_sign sign name) s ≡ add_sign (s.references sign) sign s
insert_sign-query s sign name clean =
    ap (λ k. add_sign (s.references k) k s) (quoted-append sign _ clean)

insert_usr_cmd-query :
    (s : Sandbox) (usr passwd : Bytes)
    → Lacks 39 usr
    → query (insert_usr_cmd usr passwd) s ≡ add_user (s.users usr) usr s
unfolding insert_usr_cmd
insert_usr_cmd-query s usr passwd clean =
    ap (λ k. add_user (s.users k) k s) (quoted-append usr _ clean)

pub keeps_signs : KeepsSigns sandbox 1 (λ s. s.references)
keeps_signs = record {
  select_row = λ s sign q.
      let t = (sandbox.mysql_real_query 1 (select_sign sign) s).1 in
      (
        t,
        t,
        t,
        0,
        t.found,
        refl,
        refl,
        refl,
        rw (quoted-append sign [] q.0) (ground arith, ground arith),
        refl,
      );
  insert_row = λ s sign name q q' e. (
    record s { references = counted s.references sign },
    insert_sign-query s sign name q.0 ∙ ap (λ o. add_sign o sign s) e,
    λ x. refl,
  );
  update_row = λ s sign q e. (
    (sandbox.mysql_real_query 1 (update_sign sign) s).1,
    refl,
    λ x. ap (λ k. counted s.references k x) (quoted-append sign [] q.0),
  );
  make_link = λ s target path. (s, inl refl, refl);
}

pub keeps_users : (outcome : Outcome) → KeepsUsers (sandbox_with outcome) 1 (λ s. s.users)
unfolding insert_usr_cmd
keeps_users outcome = record {
  select_row = λ s usr q.
      let t = (sandbox.mysql_real_query 1 (select_usr usr) s).1 in
      (
        t,
        t,
        t,
        0,
        t.found,
        refl,
        refl,
        refl,
        rw (quoted-append usr (b';' ∷ []) q.0) (ground arith, ground arith),
        refl,
      );
  insert_row = λ s usr passwd q q' e. (
    record s { users = λ x. bytes_eq x usr || s.users x },
    insert_usr_cmd-query s usr passwd q.0 ∙ ap (λ b. add_user b usr s) e,
    λ x. refl,
  );
  mkdir_keeps = λ s t path r e. ap (λ k. k.1.users) (sym e);
}

add_sign-refused :
    (s : Sandbox) (sign : Bytes) (o : Option ℕ) → o ≢ none → add_sign o sign s ≡ (true, s)
add_sign-refused s sign none present = absurd (present refl)
add_sign-refused s sign (some n) present = refl

pub refuses_duplicates : RefusesDuplicates sandbox 1 (λ s. s.references)
refuses_duplicates = record {
  duplicate_row = λ s sign name q q' present. (
    s,
    insert_sign-query s sign name q.0 ∙ add_sign-refused s sign (s.references sign) present,
    refl,
  );
}

pub refuses_names : (outcome : Outcome) → RefusesNames (sandbox_with outcome) 1 (λ s. s.users)
refuses_names outcome = record {
  duplicate_row = λ s usr passwd q q' e.
      (s, insert_usr_cmd-query s usr passwd q.0 ∙ ap (λ b. add_user b usr s) e, refl);
}
