-- ===== src/Tests/Depot/Laws.antt =====
-- The machine that receives a file keeps the parts of both users.
use mathlib.Core.Path.{ap₂}
use network_disk_server.Upload.{file_dir}
use network_disk_server.Base.{
  ℕ, ◌≡◌, ◌∙◌, refl, ap, Bool, true, false, Option, none, some, [], ◌∷◌, inr, arith, ◌==◌, map,
  length,
}
use network_disk_server.Base.Distinct.{has}
use network_disk_server.Base.Text.{bytes_eq, codes, c_str, to_string}
use network_disk_server.Upload.Store.Repeat.{Reopens}
use network_disk_server.Shell.{shellout_max_len}
use network_disk_server.Shell.Output.{string_of-zeroed}
use network_disk_server.Upload.Handler.Situation.{Unsummed}
use network_disk_server.Upload.Store.Replace.{Removes}
use network_disk_server.Upload.Store.{
  StartsEmpty, Parts, Acts, temporary, base, part, indices, lookup, without,
}
use network_disk_server.Tests.Depot.{
  Depot, at_end, front_of, end_of, view, on, sum_line, dir_of, moved, moved_if, with_part,
  open_part, depot, stage, stage_of,
}
use network_disk_server.Tests.Depot.Writes.{
  keeps, visible-length, length-to_string, undotted, length-indices, path_index, path_who,
  command_index, command_who, digest-Lacks, view-on, put_end, put_same, mv_who,
}

store_looked :
    (who : Bool) (s : Depot)
    → (let g = stage_of who 0 in
        depot.opendir (c_str (file_dir depot g.flags (base g) (part g 0 []))) s)
      ≡ (dir_of s.files.stored, s)
unfolding c_str bytes_eq
store_looked who s = refl

stored_of :
    {o : Option Parts} (who : Bool) (s : Depot) → (view who s.files).stored ≡ o → s.files.stored ≡ o
stored_of true s e = e
stored_of false s e = e

at_its_end : (who : Bool) (i : ℕ) → end_of who (at_end who i) ≡ some i
at_its_end true i = refl
at_its_end false i = refl

abbrev handle : Bool → ℕ
handle true = 5
handle false = 6

handle-who : (who : Bool) → (handle who == 5) ≡ who
handle-who true = refl
handle-who false = refl

parts_looked :
    (who : Bool) (shard : ℕ) (s : Depot)
    → depot.opendir (c_str (temporary (stage_of who shard))) s ≡ (some (handle who), s)
unfolding c_str bytes_eq
parts_looked true shard s = refl
parts_looked false shard s = refl

pub acts_of : (who : Bool) (shard : ℕ) → Acts (stage_of who shard)
unfolding c_str
acts_of who shard = record {
  signs = keeps;
  make_dir = λ s path is. (s, inr refl, (refl, refl));
  not_stored =
      λ s e. (s, store_looked who s ∙ ap (λ o. (dir_of o, s)) (stored_of who s e), (refl, refl));
  is_stored = λ s ps e.
      (4, s, store_looked who s ∙ ap (λ o. (dir_of o, s)) (stored_of who s e), (refl, refl));
  look_part = λ s i.
      ap₂ (λ w k. has k (indices (view w s.files).parts)) (path_who who shard i)
        (path_index who shard i);
  open_part = λ s i new. (
    3,
    with_part who i false s,
    ap₂ (λ w k. (some 3, open_part w k s)) (path_who who shard i) (path_index who shard i)
        ∙ ap (λ b. (some 3, with_part who i b s)) new,
    view-on who (λ f. record f { parts = (i, []) ∷ f.parts }) s.files,
    refl,
    at_its_end who i,
  );
  write_part = λ s fd i b x rest at there. (put_end who s.files i b x rest s.place at there, refl);
  close_part = λ s fd. (refl, refl);
  sum_part = λ s i b found. (
    s,
    codes "  f\n",
    ap₂ (λ w k. (some (sum_line (lookup k (view w s.files).parts)), s)) (command_who who shard i)
          (command_index who shard i)
        ∙ ap (λ o. (some (sum_line o), s)) found,
    ground arith,
    omega arith,
    (refl, refl),
  );
  digest_size = λ b. (refl, digest-Lacks b);
  list_parts = λ s i b rest there. (
    handle who,
    s,
    s,
    map to_string (indices (view who s.files).parts),
    parts_looked who shard s,
    ap (λ w. (map to_string (indices (view w s.files).parts), s)) (handle-who who),
    visible-length _ (undotted (indices (view who s.files).parts))
        ∙ length-to_string (indices (view who s.files).parts)
        ∙ length-indices (view who s.files).parts
        ∙ ap length there,
    (refl, refl),
  );
  move_parts = λ s i b rest gone there. (
    record s { files = on who moved s.files },
    ap (λ w. (some [], record s { files = on w moved s.files })) (mv_who who shard),
    view-on who moved s.files
        ∙ ap (λ o. moved_if o (view who s.files)) gone
        ∙ ap (λ ps. record (view who s.files) { parts = []; stored = some ps }) there,
    refl,
  );
  ended = λ s k h. ([], string_of-zeroed (λ i. 0) 0 shellout_max_len k (λ i. refl) h);
  keep_symlink = λ s a b. refl;
  keep_query = λ s conn cmd. refl;
  keep_result = λ s conn. refl;
  keep_row = λ s result. refl;
}

pub starts_empty : StartsEmpty depot
starts_empty u = string_of-zeroed (λ i. 0) 0 shellout_max_len 0 (λ i. refl) (omega arith)

pub acts : (shard : ℕ) → Acts (stage shard)
acts = acts_of true

-- The part that the descriptor is at the front of.
abbrev pub front : Depot → ℕ → Option ℕ
front s fd = front_of true s.place

pub stage-Reopens : (shard : ℕ) → Reopens (stage shard) front
stage-Reopens shard = record {
  reopen_part = λ s i there. (
    3,
    with_part true i true s,
    ap₂ (λ w k. (some 3, open_part w k s)) (path_who true shard i) (path_index true shard i)
        ∙ ap (λ b. (some 3, with_part true i b s)) there,
    (refl, refl),
    refl,
  );
  overwrite_part = λ s fd i b at there. (put_same true s.files i b s.place at there, refl);
}

pub stage-Removes : (shard : ℕ) → Removes (stage shard)
stage-Removes shard = record {
  remove_part = λ s i. (
    none,
    record s { files = on true (λ f. record f { parts = without i f.parts }) s.files },
    ap₂
        (λ w k.
          (none, record s { files = on w (λ f. record f { parts = without k f.parts }) s.files }))
        (path_who true shard i) (path_index true shard i),
    refl,
    refl,
  );
}

pub stage-Unsummed : (shard : ℕ) → Unsummed (stage shard)
unfolding c_str
stage-Unsummed shard = record {
  sum_moved = λ s ps i there gone. (
    s,
    ap₂ (λ w k. (some (sum_line (lookup k (view w s.files).parts)), s)) (command_who true shard i)
          (command_index true shard i)
        ∙ ap (λ (ps : Parts). (some (sum_line (lookup i ps)), s)) gone,
    (refl, refl),
  );
}
