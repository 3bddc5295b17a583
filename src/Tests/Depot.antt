-- ===== src/Tests/Depot.antt =====
-- A small machine that receives one file: the parts in its temporary directory, the store, and the
-- tables of the sandbox.
pub mod Writes
pub mod Laws
use network_disk_server.Base.{
  sym, Bool-cases, append-nil, drop_all, ℕ, ◌≡◌, ◌∙◌, refl, ap, Bool, true, false, Option, none,
  some, List, [], ◌∷◌, ◌++◌, inl, inr, arith, ◌==◌, ==_self, if◌then◌else◌, drop, get_elem?, map,
  length, suc, ◌%◌, ◌+◌,
}
use network_disk_server.Base.Distinct.{has}
use network_disk_server.Base.Text.{
  Bytes, Lacks, bytes_eq, codes, c_str, c_str_lacking, value, value-to_string, to_string,
  to_string-Lacks,
}
use network_disk_server.Flags.{default_mysql_flags}
use network_disk_server.Host.{Host, eexist}
use network_disk_server.FileSys.{visible}
use network_disk_server.Upload.References.{KeepsSigns}
use network_disk_server.Upload.Store.Repeat.{Reopens}
use network_disk_server.Service.Users.{swap}
use network_disk_server.Upload.Store.{without, Files, Parts, Stage, Acts, path_of, indices, lookup}
use network_disk_server.Tests.Sandbox.{Sandbox, sandbox, clean_state, keeps_signs}

-- The directories as the one user or the other sees them, and a change that a user makes.
abbrev pub view : Bool → Files → Files
view true f = f
view false f = swap f

abbrev on : Bool → (Files → Files) → Files → Files
on who h f = view who (h (view who f))

abbrev same : Bool → Bool → Bool
same true who = who
same false true = false
same false false = true

-- What the one descriptor is open on: nothing, or a part of a user, at its front or at its end.
pub data Place : Type 0 where
  nowhere : Place
  at_front at_end : Bool → ℕ → Place

abbrev front_of : Bool → Place → Option ℕ
front_of who (at_front w i) = if same w who then some i else none
front_of who _ = none

abbrev end_of : Bool → Place → Option ℕ
end_of who (at_end w i) = if same w who then some i else none
end_of who _ = none

pub record Depot : Type 0 where
  pub machine : Sandbox
  pub files : Files
  pub place : Place

abbrev pub empty_depot : Depot
empty_depot = record {
  machine = clean_state;
  files = record { parts = []; stored = none; others = [] };
  place = nowhere;
}

-- Not MD5, but a text of 32 bytes that depends on its input.
abbrev pub digest : Bytes → Bytes
digest b = (b'0' + length b % 10) ∷ codes "1234567890123456789012345678901"

-- The sign of the one file.
abbrev pub sign : Bytes
sign = digest (codes "abcde")

-- The parts are at `u/`, the name, `/tmp/`, the sign, a slash and their index.
abbrev index_at : ℕ → Bytes → ℕ
index_at n path = value (drop n path) 0

-- The names are `ann` and `bob`.
abbrev who_of : Option ℕ → Bool
who_of none = true
who_of (some c) = c == b'a'

abbrev who_at : ℕ → Bytes → Bool
who_at n path = who_of (get_elem? path n)

abbrev name : Bool → Bytes
name true = codes "ann"
name false = codes "bob"

abbrev put : ℕ → Bytes → Parts → Parts
put i x [] = []
put i x ((k, b) ∷ ps) = if i == k then (k, b ++ x) ∷ ps else (k, b) ∷ put i x ps

-- A write to the front of a part.
abbrev over : ℕ → Bytes → Parts → Parts
over i x [] = []
over i x ((k, b) ∷ ps) = if i == k then (k, x ++ drop (length x) b) ∷ ps else (k, b) ∷ over i x ps

abbrev write_at : Place → Bytes → Files → Files
write_at nowhere x f = f
write_at (at_front who i) x f = on who (λ f. record f { parts = over i x f.parts }) f
write_at (at_end who i) x f = on who (λ f. record f { parts = put i x f.parts }) f

abbrev sum_line : Option Bytes → Bytes
sum_line none = []
sum_line (some b) = digest b ++ codes "  f\n"

abbrev dir_of : Option Parts → Option ℕ
dir_of none = none
dir_of (some ps) = some 4

-- `mv` finds no directory of that name in the store.
abbrev moved_if : Option Parts → Files → Files
moved_if none f = record f { parts = []; stored = some f.parts }
moved_if (some ps) f = f

abbrev moved : Files → Files
moved f = moved_if f.stored f

abbrev with_part : Bool → ℕ → Bool → Depot → Depot
with_part who i true s = record s { place = at_front who i }
with_part who i false s = record s {
  place = at_end who i;
  files = on who (λ f. record f { parts = (i, []) ∷ f.parts }) s.files;
}

-- `open` makes a part that is not there.
abbrev open_part : Bool → ℕ → Depot → Depot
open_part who i s = with_part who i (has i (indices (view who s.files).parts)) s

-- The commands begin with `md` and `mv`.
abbrev run : Bytes → Depot → Option Bytes × Depot
run cmd s = elim (get_elem? cmd 1) [
  | none ↦ (none, s)
  | some c ↦
      if c == b'd'
      then (some (sum_line (lookup (index_at 50 cmd) (view (who_at 9 cmd) s.files).parts)), s)
      else (some [], record s { files = on (who_at 5 cmd) moved s.files })
]

abbrev pub on_machine : {A : Type 0} → (Sandbox → A × Sandbox) → Depot → A × Depot
on_machine f s = let (a, m) = f s.machine in (a, record s { machine = m })

abbrev pub depot : Host
depot = record {
  State = Depot;
  mkdir = λ path s. (some eexist, s);
  remove = λ path s. (
    none,
    record s {
      files =
          on (who_at 2 path) (λ f. record f { parts = without (index_at 43 path) f.parts }) s.files;
    },
  );
  symlink = λ target path s. (none, s);
  accessible = λ path s. has (index_at 43 path) (indices (view (who_at 2 path) s.files).parts);
  opendir = λ path s. (
    if bytes_eq path (codes "f/" ++ sign)
        then dir_of s.files.stored
        else some (if who_at 2 path then 5 else 6),
    s,
  );
  readdir_all = λ dir s. (map to_string (indices (view (dir == 5) s.files).parts), s);
  open_create = λ path s. (some 3, open_part (who_at 2 path) (index_at 43 path) s);
  write = λ fd b s. record s { files = write_at s.place b s.files };
  close = λ fd s. s;
  popen = run;
  stale = λ s i. 0;
  send = λ fd b s. s;
  recv = λ fd n s. (none, s);
  mysql_library_init = λ s. s;
  mysql_init = λ s. (1, s);
  mysql_flags = default_mysql_flags;
  mysql_real_connect = λ conn ip usr passwd port s. (true, s);
  mysql_select_db = λ conn database s. (false, s);
  mysql_real_query = λ conn cmd. on_machine (sandbox.mysql_real_query conn cmd);
  mysql_store_result = λ conn. on_machine (sandbox.mysql_store_result conn);
  mysql_fetch_row = λ res. on_machine (sandbox.mysql_fetch_row res);
  mysql_close = λ conn s. s;
}

abbrev pub stage_of : Bool → ℕ → Stage
stage_of who shard = record {
  host = depot;
  flags = record { usr_dir = codes "u/"; files_dir = codes "f/" };
  conn = 1;
  usr = name who;
  sign = sign;
  file_name = codes "a.txt";
  shard = shard;
  digest = digest;
  files = λ s. view who s.files;
  references = λ s. s.machine.references;
  cursor = λ s fd. end_of who s.place;
}

abbrev pub stage : ℕ → Stage
stage = stage_of true

-- Where the other user's parts are open.
abbrev pub bob_cursor : Depot → ℕ → Option ℕ
bob_cursor s fd = end_of false s.place
