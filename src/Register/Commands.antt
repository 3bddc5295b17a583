-- ===== src/Register/Commands.antt =====
-- The SQL text that `RegisterView` of code/src/short_connect/register_view.cpp builds from a name and
-- a password.
use mathlib.Core.List.{append_cancel_left}
use network_disk_server.Base.{◌≡◌, ◌++◌, append_assoc}
use network_disk_server.Base.Text.{Bytes, codes, Lacks, separator_ends}
use network_disk_server.Register.{insert_usr_cmd}

-- If the names and the passwords hold no quote, equal commands come from equal names and equal
-- passwords.
pub insert_usr_cmd_injective :
    (usr passwd usr' passwd' : Bytes)
    → Lacks 39 usr
    → Lacks 39 usr'
    → Lacks 39 passwd
    → Lacks 39 passwd'
    → insert_usr_cmd usr passwd ≡ insert_usr_cmd usr' passwd'
    → (usr ≡ usr') × (passwd ≡ passwd')
unfolding insert_usr_cmd
insert_usr_cmd_injective usr passwd usr' passwd' hu hu' hp hp' e =
    let (same, rest) =
      separator_ends 39 usr usr' _ _ hu hu'
        (append_cancel_left (codes "INSERT INTO Usr (name, passwd) VALUES('") _ _ e) in
    (
      same,
      (separator_ends 39 passwd passwd' _ _ hp hp' (append_cancel_left (codes ",'") _ _ rest)).0,
    )

-- Two texts with quote, comma, quote between them, given as the name, make the same command as the
-- first of them as the name and the second as the front of the password.
pub insert_usr_cmd_ambiguous :
    (usr middle passwd : Bytes)
    → insert_usr_cmd (usr ++ (codes "','" ++ middle)) passwd
      ≡ insert_usr_cmd usr (middle ++ (codes "','" ++ passwd))
unfolding insert_usr_cmd
insert_usr_cmd_ambiguous usr middle passwd = simp append_assoc
