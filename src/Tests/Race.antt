-- ===== src/Tests/Race.antt =====
-- Two threads at a time on the sandbox.
use network_disk_server.Base.{
  ◌+◌, ◌≤◌, ◌≡◌, refl, Bool, true, false, none, some, List, [], ◌∷◌, arith,
}
use network_disk_server.Base.Int.{pos, minus_one}
use network_disk_server.Base.Interleave.{interleave}
use network_disk_server.Base.Text.{codes}
use network_disk_server.Mysql.{Mmysql}
use network_disk_server.Upload.Race.{LinkPhase, links, returns, LinkCall, link_turn}
use network_disk_server.Upload.Race.Steps.{total, success}
use network_disk_server.Upload.Race.Counts.{link_turn-Gained, link_turn-Refused}
use network_disk_server.Register.{View}
use network_disk_server.Register.Race.{RegistPhase, asks, regist_step}
use network_disk_server.Register.Race.Winner.{won, regist_step-Won}
use network_disk_server.Tests.Sandbox.{
  sandbox, Sandbox, clean_state, keeps_signs, keeps_users, refuses_duplicates, refuses_names,
}

abbrev base : Mmysql
base = record { sql_conn = some 1 }

abbrev ann_call : LinkCall
ann_call = record {
  src = codes "f/0011";
  dst = codes "ann/0011";
  sign = codes "0011";
  file_name = codes "a.txt";
}

abbrev bob_call : LinkCall
bob_call = record {
  src = codes "f/0011";
  dst = codes "bob/0011";
  sign = codes "0011";
  file_name = codes "b.txt";
}

-- Both calls end.
abbrev turns : List Bool
turns = true ∷ false ∷ true ∷ true ∷ false ∷ false ∷ []

link_turn-Gained_example :
    (p p' : LinkPhase) × (t : Sandbox) × (interleave
        (link_turn sandbox base ann_call)
        (link_turn sandbox base bob_call)
        turns
        links
        links
        clean_state
      ≡ some ((p, p'), t))
    × (total (t.references (codes "0011")) ≡ 0 + (success p + success p'))
link_turn-Gained_example =
    link_turn-Gained sandbox 1 (λ s. s.references) keeps_signs refuses_duplicates (codes "0011")
      (omega arith) (codes "f/0011") (codes "ann/0011") (codes "a.txt") (codes "f/0011")
      (codes "bob/0011") (codes "b.txt") (omega arith) (omega arith) turns clean_state

link_turn-Refused_example :
    (t : Sandbox) × (interleave
        (link_turn sandbox base ann_call)
        (link_turn sandbox base bob_call)
        (true ∷ false ∷ true ∷ false ∷ true ∷ false ∷ [])
        links
        links
        clean_state
      ≡ some ((returns (pos 0), returns minus_one), t))
    × (t.references (codes "0011") ≡ some 1)
link_turn-Refused_example =
    link_turn-Refused sandbox 1 (λ s. s.references) keeps_signs refuses_duplicates (codes "0011")
      (omega arith) (codes "f/0011") (codes "ann/0011") (codes "a.txt") (codes "f/0011")
      (codes "bob/0011") (codes "b.txt") (omega arith) (omega arith) clean_state refl

abbrev view : View
view = record { sql = base }

regist_step-Won_example :
    (p p' : RegistPhase) × (t : Sandbox) × (interleave
        (regist_step sandbox (codes "/u/") view (codes "ann") (codes "pw"))
        (regist_step sandbox (codes "/u/") view (codes "ann") (codes "wp"))
        turns
        asks
        asks
        clean_state
      ≡ some ((p, p'), t))
    × (won (codes "ann") p + won (codes "ann") p' + 0 ≤ 1)
regist_step-Won_example =
    regist_step-Won sandbox (λ s. s.users) (codes "/u/") (codes "ann") (omega arith) 1 1
      (keeps_users none) (keeps_users none) (refuses_names none) (refuses_names none) (codes "pw")
      (codes "wp") (omega arith) (omega arith) turns clean_state
