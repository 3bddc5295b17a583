-- ===== src/Tests/Disk.antt =====
-- Files, commands and the upload handler on the sandbox.
use network_disk_server.Base.{
  ℕ, ◌<◌, ◌≡◌, ◌≢◌, ◌↔◌, refl, ◌⊎◌, Bool, true, none, some, [], ◌∷◌, ◌++◌, arith,
}
use network_disk_server.Base.Int.{to_int32, pos}
use network_disk_server.Base.Text.{Bytes, codes, c_str, bytes_eq, to_string}
use network_disk_server.FileSys.{
  write_all, write, write_loop, write_len, mkdir, exist_dir, exist_file, ls_dir, visible,
}
use network_disk_server.FileSys.Writing.{write-stutter, write-long, repeat, stutter, rounds_of}
use network_disk_server.FileSys.Rounds.{Runs, write_loop-Runs}
use network_disk_server.Shell.{shell_out, md5_sum}
use network_disk_server.Shell.Output.{md5_sum-overflows}
use network_disk_server.Mysql.{Mmysql}
use network_disk_server.Upload.{
  do_upload, store_part, write_part, verify_part, admit_part, after_mkdir, make_upload_dirs,
  check_arrival, all_part_arrived,
}
use network_disk_server.Base.Distinct.{has}
use network_disk_server.Upload.Arrival.{all_part_arrived_iff}
use network_disk_server.Host.{Host}
use network_disk_server.Upload.Messages.{Request, Response, default_flags, empty_response, answer}
use network_disk_server.Upload.Success.{do_upload-Success, Verified, Linked}
use network_disk_server.Service.{send, dispatch, echo}
use network_disk_server.Service.Replies.{send-IsInitialized, IsInitialized}
use network_disk_server.Tests.Sandbox.{sandbox, Sandbox, clean_state, appends}

-- 32 bytes in the place of a digest.
abbrev digest : Bytes
digest = codes "0123456789abcdef0123456789abcdef"

abbrev line : Bytes
line = codes "  /tmp/f\n"

abbrev signing : Sandbox
signing = record clean_state { prints = digest ++ line }

write-stutter_example :
    (t' : Sandbox) × (write sandbox (codes "hello") (codes "f") clean_state ≡ some (pos 0, t'))
    × (t'.file ≡ stutter write_len (rounds_of 5) (codes "hello") 5)
unfolding c_str
write-stutter_example =
    write-stutter sandbox _ appends (codes "hello") (codes "f") 3 clean_state clean_state refl
      (omega arith)

abbrev long_text : Bytes
long_text = repeat 4096 (1 ∷ []) ++ (2 ∷ [])

write_loop-Runs_example :
    (t : Sandbox) × (write_loop sandbox 1 3 long_text 4097 clean_state ≡ some (tt, t))
    × Runs sandbox 3 long_text 4097 clean_state t
write_loop-Runs_example = write_loop-Runs sandbox 3 long_text 1 4097 clean_state (omega arith)

write-long_example :
    (t' : Sandbox) × (write sandbox long_text (codes "f") clean_state ≡ some (pos 0, t'))
    × (t'.file ≢ c_str long_text)
unfolding c_str
write-long_example =
    write-long sandbox _ appends long_text (codes "f") 3 clean_state clean_state refl (omega arith)
      (λ e. cc e)

abbrev chatty : Sandbox
chatty = record clean_state { prints = repeat 257 (1 ∷ []) }

md5_sum-overflows_example : md5_sum sandbox (codes "/tmp/f") [] chatty ≡ none
md5_sum-overflows_example =
    md5_sum-overflows sandbox (codes "/tmp/f") [] chatty.prints chatty chatty refl (omega arith)

abbrev part : Request
part = record {
  op_type = 5;
  shard = 2;
  part_index = 0;
  part_sign = digest;
  file_name = codes "a.txt";
  file_sign = codes "00112233445566778899aabbccddeeff";
  usr = codes "ann";
  body = codes "hi";
}

abbrev connected : Mmysql
connected = record { sql_conn = some 1 }

-- The first of two parts is written and its sign agrees.
abbrev stored : Sandbox
stored = record signing { file = codes "hi" }

do_upload-part :
    do_upload sandbox default_flags connected part empty_response signing
    ≡ some (answer empty_response true "success", stored)
unfolding do_upload store_part write_part verify_part admit_part after_mkdir make_upload_dirs
    check_arrival all_part_arrived mkdir exist_dir exist_file ls_dir write write_all to_int32
    md5_sum shell_out bytes_eq c_str
do_upload-part = refl

do_upload-Success_example :
    Verified sandbox default_flags connected part
    ⊎ Linked sandbox default_flags connected part stored
do_upload-Success_example =
    do_upload-Success sandbox default_flags connected part empty_response
      (answer empty_response true "success") signing stored do_upload-part refl

abbrev reply : Response
reply = record (echo part empty_response) { res = some true; body = some (codes "upload success") }

send-part : send sandbox default_flags connected part empty_response signing ≡ some (reply, stored)
unfolding send dispatch do_upload store_part write_part verify_part admit_part after_mkdir
    make_upload_dirs check_arrival all_part_arrived mkdir exist_dir exist_file ls_dir write
    write_all to_int32 md5_sum shell_out bytes_eq c_str
send-part = refl

send-IsInitialized_example : IsInitialized reply
send-IsInitialized_example =
    (send-IsInitialized sandbox default_flags connected part reply signing stored (omega arith)
      send-part).0

abbrev second_part : Request
second_part = record part { part_index = 12 }

-- The same part with other contents.
abbrev sent_again : Request
sent_again = record second_part { body = codes "ho" }

-- A directory that holds the parts 1 and 0 of two.
abbrev listing : Host
listing = record sandbox {
  opendir = λ path s. (some 5, s);
  readdir_all = λ dir s. (codes "." ∷ codes "1" ∷ codes ".." ∷ codes "0" ∷ [], s);
}

below_two : (k : ℕ) → has k (1 ∷ 0 ∷ []) ≡ true → k < 2
below_two k h = ground arith

all_part_arrived_iff_example :
    (arrived : Bool) × (all_part_arrived listing (codes "/t") 2 clean_state
      ≡ some (arrived, clean_state))
    × ((arrived ≡ true) ↔ ((i : ℕ) → i < 2 → has i (1 ∷ 0 ∷ []) ≡ true))
unfolding visible to_string
all_part_arrived_iff_example =
    all_part_arrived_iff listing (codes "/t") 2 5 clean_state clean_state clean_state
      (codes "." ∷ codes "1" ∷ codes ".." ∷ codes "0" ∷ []) (1 ∷ 0 ∷ []) refl refl refl refl
      below_two (omega arith)
