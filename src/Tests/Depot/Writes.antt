-- ===== src/Tests/Depot/Writes.antt =====
-- The machine that receives a file: its tables, the names that it reads off paths, and its writes.
use network_disk_server.Base.{
  sym, Bool-cases, append-nil, drop_all, ℕ, ◌≡◌, ◌∙◌, refl, ap, Bool, true, false, some, List, [],
  ◌∷◌, ◌++◌, inl, inr, arith, ◌==◌, ==_self, if◌then◌else◌, drop, map, length, suc,
}
use network_disk_server.Base.Text.{
  Bytes, Lacks, codes, c_str, c_str_lacking, value, value-to_string, to_string, to_string-Lacks,
}
use network_disk_server.FileSys.{visible}
use network_disk_server.Upload.Race.Steps.{RefusesDuplicates}
use network_disk_server.Upload.References.{KeepsSigns}
use network_disk_server.Upload.{mv_cmd}
use network_disk_server.Upload.Store.{Files, Parts, path_of, base, part, indices, lookup}
use network_disk_server.Tests.Sandbox.{Sandbox, keeps_signs, refuses_duplicates}
use network_disk_server.Service.Users.{swap}
use network_disk_server.Tests.Depot.{
  Depot, Place, nowhere, at_front, at_end, front_of, end_of, view, on, same, who_at, write_at,
  digest, index_at, put, over, depot, stage_of, name,
}

abbrev returned : {A : Type 0} → Depot → A × Sandbox → A × Depot
returned s r = (r.0, record s { machine = r.1 })

pub keeps : KeepsSigns depot 1 (λ s. s.machine.references)
keeps = record {
  select_row = λ s sign q.
      let (s1, s2, s3, result, row, asked, got, fetched, found, kept) =
        keeps_signs.select_row s.machine sign q in
      (
        record s { machine = s1 },
        record s { machine = s2 },
        record s { machine = s3 },
        result,
        row,
        ap (returned s) asked,
        ap (returned s) got,
        ap (returned s) fetched,
        found,
        kept,
      );
  insert_row = λ s sign name q q' e.
      let (t, added, after) = keeps_signs.insert_row s.machine sign name q q' e in
      (record s { machine = t }, ap (returned s) added, after);
  update_row = λ s sign q e.
      let (t, added, after) = keeps_signs.update_row s.machine sign q e in
      (record s { machine = t }, ap (returned s) added, after);
  make_link = λ s target path. (s, inl refl, refl);
}

pub refuses : RefusesDuplicates depot 1 (λ s. s.machine.references)
refuses = record {
  duplicate_row = λ s sign name q q' present.
      let (t, refused, kept) = refuses_duplicates.duplicate_row s.machine sign name q q' present in
      (record s { machine = t }, ap (returned s) refused, kept);
}

abbrev Undotted : List Bytes → Type 0
Undotted [] = Unit {0}
Undotted (name ∷ names) = Lacks b'.' name × Undotted names

pub visible-length : (names : List Bytes) → Undotted names → length (visible names) ≡ length names
unfolding visible
visible-length [] u = refl
visible-length ([] ∷ names) u = ap suc (visible-length names u.1)
visible-length ((c ∷ name) ∷ names) u = ground (arith, visible-length names u.1)

pub length-to_string : (is : List ℕ) → length (map to_string is) ≡ length is
length-to_string [] = refl
length-to_string (i ∷ is) = ap suc (length-to_string is)

pub undotted : (is : List ℕ) → Undotted (map to_string is)
undotted [] = tt
undotted (i ∷ is) = (to_string-Lacks b'.' i (omega arith), undotted is)

pub length-indices : (ps : Parts) → length (indices ps) ≡ length ps
length-indices [] = refl
length-indices ((i, b) ∷ ps) = ap suc (length-indices ps)

-- What the machine reads off the path of a part, the directory of the parts and the commands.
digits_index : (i : ℕ) → value (c_str (to_string i)) 0 ≡ i
digits_index i =
    ap (λ t. value t 0) (c_str_lacking (to_string i) (to_string-Lacks 0 i (omega arith)))
    ∙ value-to_string i

pub path_index :
    (who : Bool) (shard i : ℕ) → index_at 43 (c_str (path_of (stage_of who shard) i)) ≡ i
unfolding c_str
path_index true shard i = digits_index i
path_index false shard i = digits_index i

pub path_who : (who : Bool) (shard i : ℕ) → who_at 2 (c_str (path_of (stage_of who shard) i)) ≡ who
unfolding c_str
path_who true shard i = refl
path_who false shard i = refl

pub command_index :
    (who : Bool) (shard i : ℕ)
    → index_at 50 (c_str (codes "md5sum " ++ path_of (stage_of who shard) i)) ≡ i
unfolding c_str
command_index true shard i = digits_index i
command_index false shard i = digits_index i

pub command_who :
    (who : Bool) (shard i : ℕ)
    → who_at 9 (c_str (codes "md5sum " ++ path_of (stage_of who shard) i)) ≡ who
unfolding c_str
command_who true shard i = refl
command_who false shard i = refl

pub digest-Lacks : (b : Bytes) → Lacks 0 (digest b)
digest-Lacks b = ((λ e. omega arith), ground arith)

pub view-view : (who : Bool) (f : Files) → view who (view who f) ≡ f
view-view true f = refl
view-view false f = refl

pub view-on : (who : Bool) (h : Files → Files) (f : Files) → view who (on who h f) ≡ h (view who f)
view-on who h f = view-view who (h (view who f))

put_parts :
    (k i : ℕ) (b x : Bytes) (ps rest : Parts)
    → some k ≡ some i
    → ps ≡ (i, b) ∷ rest
    → put k x ps ≡ (i, b ++ x) ∷ rest
put_parts k i b x ps rest at there =
    let here : (k == i) ≡ true = ground (arith, ==_self i) in
    ap (put k x) there ∙ ap (λ c. if c then (i, b ++ x) ∷ rest else (i, b) ∷ put k x rest) here

pub put_end :
    (who : Bool) (f : Files) (i : ℕ) (b x : Bytes) (rest : Parts) (p : Place)
    → end_of who p ≡ some i
    → (view who f).parts ≡ (i, b) ∷ rest
    → view who (write_at p x f) ≡ record (view who f) { parts = (i, b ++ x) ∷ rest }
put_end who f i b x rest nowhere at there = cc
put_end who f i b x rest (at_front w k) at there = cc
put_end true f i b x rest (at_end true k) at there =
    ap (λ (ps : Parts). record f { parts = ps }) (put_parts k i b x f.parts rest at there)
put_end false f i b x rest (at_end false k) at there =
    ap (λ (ps : Parts). record (swap f) { parts = ps }) (put_parts k i b x f.others rest at there)
put_end true f i b x rest (at_end false k) at there = cc
put_end false f i b x rest (at_end true k) at there = cc

over-same : (i : ℕ) (b : Bytes) (ps : Parts) → lookup i ps ≡ some b → over i b ps ≡ ps
over-same i b [] e = refl
over-same i b ((k, c) ∷ ps) e = elim (Bool-cases (i == k)) [
  | inl same ↦
      let found : c ≡ b = ground arith in
      ap (λ t. if t then (k, b ++ drop (length b) c) ∷ ps else (k, c) ∷ over i b ps) same
      ∙ ap (λ (d : Bytes). (k, d) ∷ ps)
          (ap (λ d. b ++ drop (length b) d) found
            ∙ ap (λ d. b ++ d) (drop_all (length b) b (omega arith))
            ∙ append-nil b
            ∙ sym found)
  | inr other ↦
      ap (λ t. if t then (k, b ++ drop (length b) c) ∷ ps else (k, c) ∷ over i b ps) other
      ∙ ap (λ r. (k, c) ∷ r) (over-same i b ps (ground arith))
]

over_there :
    (k i : ℕ) (b : Bytes) (ps : Parts) → some k ≡ some i → lookup i ps ≡ some b → over k b ps ≡ ps
over_there k i b ps at there =
    ap (λ j. over j b ps) (let e : k ≡ i = ground arith in e) ∙ over-same i b ps there

pub put_same :
    (who : Bool) (f : Files) (i : ℕ) (b : Bytes) (p : Place)
    → front_of who p ≡ some i
    → lookup i (view who f).parts ≡ some b
    → view who (write_at p b f) ≡ view who f
put_same who f i b nowhere at there = cc
put_same who f i b (at_end w k) at there = cc
put_same true f i b (at_front true k) at there =
    ap (λ (ps : Parts). record f { parts = ps }) (over_there k i b f.parts at there)
put_same false f i b (at_front false k) at there =
    ap (λ (ps : Parts). record (swap f) { parts = ps }) (over_there k i b f.others at there)
put_same true f i b (at_front false k) at there = cc
put_same false f i b (at_front true k) at there = cc

pub mv_who :
    (who : Bool) (shard : ℕ)
    → (let g = stage_of who shard in
        who_at 5 (c_str (mv_cmd depot g.flags (base g) (part g 0 []))) ≡ who)
unfolding c_str
mv_who true shard = refl
mv_who false shard = refl
