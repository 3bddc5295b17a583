-- ===== src/Upload/Store.antt =====
-- What an upload in code/src/long_connect/upload_rpc.cpp is for: the parts of a file are collected
-- and then moved to the store together. The state of one upload as its parts, and what the system
-- calls on its paths do to them.
pub mod Calls
pub mod Links
pub mod Receive
pub mod Speed
pub mod Repeat
pub mod Replace
pub mod Refuse
use network_disk_server.Base.{
  ℕ, ◌≤◌, ◌<◌, ◌≡◌, ◌⊎◌, Bool, true, false, Option, none, some, List, [], ◌∷◌, ◌++◌, ◌==◌,
  if◌then◌else◌, length, drop,
}
use network_disk_server.Base.Distinct.{has}
use network_disk_server.Base.Text.{Bytes, codes, c_str, Lacks}
use network_disk_server.Host.{Host, eexist}
use network_disk_server.Shell.{msg_code, upload, string_of, shellout_max_len}
use network_disk_server.Shell.Output.{fresh_array}
use network_disk_server.FileSys.{visible}
use network_disk_server.Mysql.{Mmysql}
use network_disk_server.Upload.Messages.{Request, Flags}
use network_disk_server.Upload.{
  file_dir, usr_files_dir, usr_upload_dir, sign_dir, file_path, mv_cmd,
}
use network_disk_server.Upload.References.{KeepsSigns}

-- The parts of a file with their indices, the last one to arrive first.
abbrev pub Parts : Type 0
Parts = List (ℕ × Bytes)

-- The user's temporary directory for the file, the file's directory in the store, if it is there, and
-- the temporary directory of another user for the same file.
pub record Files : Type 0 where
  pub parts : Parts
  pub stored : Option Parts
  pub others : Parts

abbrev pub indices : Parts → List ℕ
indices [] = []
indices ((i, body) ∷ ps) = i ∷ indices ps

abbrev pub lookup : ℕ → Parts → Option Bytes
lookup i [] = none
lookup i ((k, body) ∷ ps) = if i == k then some body else lookup i ps

-- The parts other than `i`.
abbrev pub without : ℕ → Parts → Parts
without i [] = []
without i ((k, body) ∷ ps) = if i == k then without i ps else (k, body) ∷ without i ps

-- One more part: the last one that was missing moves all of them to the store.
abbrev pub received : ℕ → ℕ → Bytes → Files → Files
received shard i body f =
    if shard == length ((i, body) ∷ f.parts)
    then record f { parts = []; stored = some ((i, body) ∷ f.parts) }
    else record f { parts = (i, body) ∷ f.parts }

-- The array of `ShellOut`, which is not set, begins with other bytes than a NUL.
abbrev pub Leftover : (h : Host) → Type 0
Leftover h = (u : h.State) × (c : ℕ) × (cs : Bytes) × (string_of (fresh_array h u) ≡ some (c ∷ cs))

-- The array begins with a NUL, whatever the state.
abbrev pub StartsEmpty : (h : Host) → Type 0
StartsEmpty h = (u : h.State) → string_of (fresh_array h u) ≡ some []

-- One file that one user uploads to a machine: `files` reads the two directories, `references` the
-- table SignMap, and `cursor` the part that a descriptor is open on, at its end.
pub record Stage : Type 1 where
  pub host : Host
  pub open host use {State}
  pub flags : Flags
  pub conn : ℕ
  pub usr : Bytes
  pub sign : Bytes
  pub file_name : Bytes
  pub shard : ℕ
  -- what md5sum computes
  pub digest : Bytes → Bytes
  pub files : State → Files
  pub references : State → Bytes → Option ℕ
  pub cursor : State → ℕ → Option ℕ

module _ (g : Stage) where
  abbrev pub base : Mmysql
  base = record { sql_conn = some g.conn }

  -- The request for part `i`.
  abbrev pub part : ℕ → Bytes → Request
  part i body = record {
    op_type = msg_code upload;
    shard = g.shard;
    part_index = i;
    part_sign = g.digest body;
    file_name = g.file_name;
    file_sign = g.sign;
    usr = g.usr;
    body = body;
  }

  abbrev pub path_of : ℕ → Bytes
  path_of i = file_path g.host g.flags base (part i [])

  abbrev pub temporary : Bytes
  temporary = sign_dir g.host g.flags base (part 0 [])

  abbrev pub Same : g.State → g.State → Type 0
  Same s t = (g.files t ≡ g.files s) × (g.references t ≡ g.references s)

  -- The directories that `Do` makes.
  pub data IsUploadDir : Bytes → Type 0 where
    links : IsUploadDir (usr_files_dir g.host g.flags base (part 0 []))
    home : IsUploadDir (g.flags.usr_dir ++ g.usr)
    uploads : IsUploadDir (usr_upload_dir g.host g.flags base (part 0 []))
    parts : IsUploadDir (temporary ++ codes "/")

  -- The user's home is there, so the directories can be made. Only opening a new part, writing to it
  -- and moving the directory change the parts; nothing here changes the table, and the calls on the
  -- database and the making of a link do not change the parts. The last byte of the array of
  -- `ShellOut`, which is not set, is a NUL, so that a NUL follows whatever a command prints.
  pub record Acts : Type 0 where
    pub signs : KeepsSigns g.host g.conn g.references
    pub make_dir :
        (s : g.State) (path : Bytes)
        → IsUploadDir path
        → (t : g.State) × ((g.host.mkdir (c_str path) s ≡ (none, t))
            ⊎ (g.host.mkdir (c_str path) s ≡ (some eexist, t)))
          × Same s t
    pub not_stored :
        (s : g.State)
        → (g.files s).stored ≡ none
        → (t : g.State) × (g.host.opendir (c_str (file_dir g.host g.flags base (part 0 []))) s
            ≡ (none, t))
          × Same s t
    pub is_stored :
        (s : g.State) (ps : Parts)
        → (g.files s).stored ≡ some ps
        → (d : ℕ) × (t : g.State) × (g.host.opendir
              (c_str (file_dir g.host g.flags base (part 0 [])))
              s
            ≡ (some d, t))
          × Same s t
    pub look_part :
        (s : g.State) (i : ℕ)
        → g.host.accessible (c_str (path_of i)) s ≡ has i (indices (g.files s).parts)
    pub open_part :
        (s : g.State) (i : ℕ)
        → has i (indices (g.files s).parts) ≡ false
        → (fd : ℕ) × (t : g.State) × (g.host.open_create (c_str (path_of i)) s ≡ (some fd, t))
          × (g.files t ≡ record (g.files s) { parts = (i, []) ∷ (g.files s).parts })
          × (g.references t ≡ g.references s)
          × (g.cursor t fd ≡ some i)
    pub write_part :
        (s : g.State) (fd i : ℕ) (b x : Bytes) (rest : Parts)
        → g.cursor s fd ≡ some i
        → (g.files s).parts ≡ (i, b) ∷ rest
        → (g.files (g.host.write fd x s) ≡ record (g.files s) { parts = (i, b ++ x) ∷ rest })
          × (g.references (g.host.write fd x s) ≡ g.references s)
    pub close_part : (s : g.State) (fd : ℕ) → Same s (g.host.close fd s)
    pub sum_part :
        (s : g.State) (i : ℕ) (b : Bytes)
        → lookup i (g.files s).parts ≡ some b
        → (t : g.State) × (line : Bytes) × (g.host.popen (c_str (codes "md5sum " ++ path_of i)) s
            ≡ (some (g.digest b ++ line), t))
          × Lacks 0 line
          × (length line < 224)
          × Same s t
    pub digest_size : (b : Bytes) → (length (g.digest b) ≡ 32) × Lacks 0 (g.digest b)
    pub list_parts :
        (s : g.State) (i : ℕ) (b : Bytes) (rest : Parts)
        → (g.files s).parts ≡ (i, b) ∷ rest
        → (d : ℕ) × (u t : g.State) × (names : List Bytes) × (g.host.opendir (c_str temporary) s
            ≡ (some d, u))
          × (g.host.readdir_all d u ≡ (names, t))
          × (length (visible names) ≡ length ((i, b) ∷ rest))
          × Same s t
    pub move_parts :
        (s : g.State) (i : ℕ) (b : Bytes) (rest : Parts)
        → (g.files s).stored ≡ none
        → (g.files s).parts ≡ (i, b) ∷ rest
        → (t : g.State) × (g.host.popen (c_str (mv_cmd g.host g.flags base (part 0 []))) s
            ≡ (some [], t))
          × (g.files t ≡ record (g.files s) { parts = []; stored = some ((i, b) ∷ rest) })
          × (g.references t ≡ g.references s)
    pub ended :
        (s : g.State) (k : ℕ)
        → k < shellout_max_len
        → (tail : Bytes) × (string_of (drop k (fresh_array g.host s)) ≡ some tail)
    pub keep_symlink : (s : g.State) (a b : Bytes) → g.files (g.host.symlink a b s).1 ≡ g.files s
    pub keep_query :
        (s : g.State) (conn : ℕ) (cmd : Bytes)
        → g.files (g.host.mysql_real_query conn cmd s).1 ≡ g.files s
    pub keep_result :
        (s : g.State) (conn : ℕ) → g.files (g.host.mysql_store_result conn s).1 ≡ g.files s
    pub keep_row :
        (s : g.State) (result : ℕ) → g.files (g.host.mysql_fetch_row result s).1 ≡ g.files s
