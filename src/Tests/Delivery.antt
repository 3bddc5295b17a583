-- ===== src/Tests/Delivery.antt =====
-- Whole uploads on the machine that receives one file.
use network_disk_server.Base.{
  if◌then◌else◌, Bool, false, ◌≡◌, refl, some, none, List, [], ◌∷◌, arith, map, true,
}
use network_disk_server.Base.Text.{Bytes, codes, bytes_eq}
use network_disk_server.Upload.References.{counted}
use network_disk_server.Upload.{do_upload}
use network_disk_server.Upload.Messages.{empty_response, answer}
use network_disk_server.Upload.Store.Replace.{do_upload-Replaces}
use network_disk_server.Upload.Store.Repeat.{do_upload-Repeats}
use network_disk_server.Upload.Store.{Leftover, Parts, Stage, Same, base, part}
use network_disk_server.Service.Uploads.{send_all, request}
use network_disk_server.Service.Again.{speedy, send_all-Speeds}
use network_disk_server.Tests.Depot.{Depot, depot, empty_depot, stage, sign}
use network_disk_server.Tests.Depot.Laws.{acts, front, stage-Reopens, stage-Removes}
use network_disk_server.Tests.Sandbox.{clean_state}

abbrev three : Stage
three = stage 3

abbrev one : Stage
one = stage 1

abbrev two : Stage
two = stage 2

-- The second part comes first.
abbrev last_first : Parts
last_first = (1, codes "cd") ∷ (0, codes "ab") ∷ []

-- The file is in the store, and one user has it.
abbrev full_depot : Depot
full_depot = record empty_depot {
  files = record { parts = []; stored = some last_first; others = [] };
  machine = record clean_state { references = λ _. some 1 };
}

send_all-Speeds_example :
    (t : Depot) × (send_all depot two.flags (base two) (map (request two) last_first) full_depot
      ≡ some (map (speedy two) last_first, t))
    × (t.files ≡ full_depot.files)
    × (t.machine.references sign ≡ some 3)
send_all-Speeds_example =
    send_all-Speeds two (acts 2) (omega arith) (omega arith) last_first last_first 1 full_depot refl
      refl

-- One of two parts is there.
abbrev half_depot : Depot
half_depot = record empty_depot {
  files = record { parts = (1, codes "cd") ∷ []; stored = none; others = [] };
}

do_upload-Repeats_example :
    (t : Depot) × (do_upload depot two.flags
        (base two)
        (part two 1 (codes "cd"))
        empty_response
        half_depot
      ≡ some (answer empty_response true "success", t))
    × Same two half_depot t
do_upload-Repeats_example =
    do_upload-Repeats two (acts 2) front (stage-Reopens 2) (omega arith) 1 (codes "cd")
      (omega arith) (omega arith) empty_response half_depot refl refl refl

-- Other contents in its place, which complete the file.
do_upload-Replaces_example :
    (noisy : Bool) × (t : Depot) × (do_upload depot one.flags
        (base one)
        (part one 1 (codes "cdx"))
        empty_response
        half_depot
      ≡ some (
        if noisy
            then answer empty_response false "mv failed"
            else answer empty_response true "success",
        t,
      ))
    × (t.files ≡ record half_depot.files { parts = []; stored = some ((1, codes "cdx") ∷ []) })
    × ((x : Bytes) → t.machine.references x ≡ (if noisy then none else counted (λ _. none) sign x))
    × (noisy ≡ true → Leftover depot)
unfolding bytes_eq
do_upload-Replaces_example =
    do_upload-Replaces one (acts 1) (stage-Removes 1) (omega arith) (omega arith) (omega arith) 1
      (codes "cdx") (codes "cd") (omega arith) (omega arith) refl empty_response half_depot refl
      refl

abbrev first_first : Parts
first_first = (0, codes "ab") ∷ (1, codes "cd") ∷ []

-- Ann is through before Bob has sent his last part.
abbrev turns : List Bool
turns = true ∷ false ∷ true ∷ false ∷ []
