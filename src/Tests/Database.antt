-- ===== src/Tests/Database.antt =====
-- The tables on the sandbox.
use network_disk_server.Base.{◌≡◌, refl, false, none, some, [], ◌∷◌, ◌||◌, arith, inl}
use network_disk_server.Base.Int.{pos}
use network_disk_server.Base.Text.{Bytes, codes, bytes_eq}
use network_disk_server.Mysql.{Mmysql}
use network_disk_server.Upload.References.{link_all, references-link_all}
use network_disk_server.Register.{View, insert_usr_cmd, regist}
use network_disk_server.Register.Commands.{insert_usr_cmd_injective, insert_usr_cmd_ambiguous}
use network_disk_server.Register.Accounts.{regist_new, regist_stranded}
use network_disk_server.Tests.Sandbox.{
  sandbox, sandbox_with, Sandbox, clean_state, keeps_signs, keeps_users,
}

abbrev connected : Mmysql
connected = record { sql_conn = some 1 }

abbrev sign : Bytes
sign = codes "0011"

abbrev name : Bytes
name = codes "a.txt"

-- The same link three times.
references-link_all_example :
    (t : Sandbox) × (link_all sandbox connected sign name
        (codes "f/0011")
        (codes "u" ∷ codes "u" ∷ codes "u" ∷ [])
        clean_state
      ≡ some (pos 0, t))
    × (t.references sign ≡ some 3)
references-link_all_example =
    references-link_all sandbox 1 (λ s. s.references) keeps_signs sign name (omega arith)
      (omega arith) (codes "f/0011") (codes "u") (codes "u" ∷ codes "u" ∷ []) clean_state refl

insert_usr_cmd_injective_example : (codes "ann" ≡ codes "ann") × (codes "pw" ≡ codes "pw")
insert_usr_cmd_injective_example =
    insert_usr_cmd_injective (codes "ann") (codes "pw") (codes "ann") (codes "pw") (omega arith)
      (omega arith) (omega arith) (omega arith) refl

insert_usr_cmd_ambiguous_example :
    insert_usr_cmd (codes "a','b") (codes "c") ≡ insert_usr_cmd (codes "a") (codes "b','c")
insert_usr_cmd_ambiguous_example = insert_usr_cmd_ambiguous (codes "a") (codes "b") (codes "c")

abbrev view : View
view = record { sql = connected }

abbrev taken_state : Sandbox
taken_state = record clean_state { users = λ x. bytes_eq x (codes "ann") }

regist_new_example :
    (u : Sandbox) × (regist sandbox (codes "/u/") view (codes "ann") (codes "pw") clean_state
      ≡ some (codes "Success: regist usr ann", u))
    × ((x : Bytes) → u.users x ≡ (bytes_eq x (codes "ann") || false))
regist_new_example =
    regist_new sandbox 1 _ (keeps_users none) (codes "/u/") (codes "ann") (codes "pw") (omega arith)
      (omega arith) clean_state refl (λ t. (t, inl refl))

-- mkdir fails with 28, the disk is full.
regist_stranded_example :
    (u v : Sandbox) × (regist
        (sandbox_with (some 28))
        (codes "/u/")
        view
        (codes "ann")
        (codes "pw")
        clean_state
      ≡ some (codes "Fail: create usr dir failed", u))
    × ((x : Bytes) → u.users x ≡ (bytes_eq x (codes "ann") || false))
    × (regist (sandbox_with (some 28)) (codes "/u/") view (codes "ann") (codes "pw") u
        ≡ some (codes "Fail: usr is existed, usr: ann", v))
regist_stranded_example =
    regist_stranded (sandbox_with (some 28)) 1 _ (keeps_users (some 28)) (codes "/u/") (codes "ann")
      (codes "pw") (omega arith) (omega arith) clean_state refl (λ t. (t, 28, refl, omega arith))
