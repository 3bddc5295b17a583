-- ===== src/Tests/Menu.antt =====
-- The menu of the client on a small terminal, and a registration served from end to end.
use network_disk_server.Base.{
  ◌≡◌, refl, ap, Bool, true, false, Option, none, some, [], ◌∷◌, ◌++◌, arith, if◌then◌else◌,
}
use network_disk_server.Base.Int.{to_int32, ℤ, pos}
use network_disk_server.Base.Fallible.{act, ◌>>◌, ◌>>=◌}
use network_disk_server.Base.Text.{Bytes, codes, c_str, bytes_eq, bytes_eq_self}
use network_disk_server.Json.{Json}
use network_disk_server.Shell.{msg_code, upload, string_of, bytes_from, md5_sum, shell_out}
use network_disk_server.Mysql
use network_disk_server.Register
use network_disk_server.Register.{View, regist, send_response}
use network_disk_server.Control
use network_disk_server.Control.{Control}
use network_disk_server.Flags.{default_rpc_flags}
use network_disk_server.Client.Station.{Station}
use network_disk_server.Client.Terminal.{Terminal}
use network_disk_server.Client.Upload.{
  do_request, do_upload_file, get_file_size, open_file, upload_parts, upload_part, shard_of, fill,
  part_request,
}
use network_disk_server.Client.Menu.{
  regist_request, parse_response, upload_op, upload_typed, with_endl,
}
use network_disk_server.Client.Menu.Registration.{KeepsMembers, regist_request-served}
use network_disk_server.Client.Menu.Reports.{parse_response-reads, upload_op-success}
use network_disk_server.Worker.{serve_client}
use network_disk_server.Tests.Sandbox.{sandbox, Sandbox, clean_state}

-- JSON values.
data Val : Type 0 where
  nothing : Val
  number : ℤ → Val
  text : Bytes → Val
  object : (Bytes → Val) → Val

abbrev member_of : Val → Bytes → Val
member_of (object f) key = f key
member_of _ key = nothing

abbrev with_member : Val → Bytes → Val → Option Val
with_member nothing key x = some (object (λ k. if bytes_eq k key then x else nothing))
with_member (object f) key x = some (object (λ k. if bytes_eq k key then x else f k))
with_member _ key x = none

abbrev get_member : Val → Bytes → Option (Val × Val)
get_member nothing key = some (nothing, object (λ k. nothing))
get_member (object f) key = some (f key, object f)
get_member _ key = none

abbrev is_object : Val → Bool
is_object nothing = true
is_object (object f) = true
is_object _ = false

abbrev int_of : Val → Option ℤ
int_of nothing = some (pos 0)
int_of (number n) = some n
int_of _ = none

abbrev string_value : Val → Option Bytes
string_value nothing = some []
string_value (text s) = some s
string_value _ = none

-- What `registOp` makes of "ann" and "pw".
abbrev ann_request : Val
ann_request = object (λ k.
    if bytes_eq k (codes "Passwd")
    then text (codes "pw")
    else if bytes_eq k (codes "Name")
    then text (codes "ann")
    else if bytes_eq k (codes "Type")
    then number (pos 0)
    else nothing)

-- A parser that reads every text as that request, or as an error.
abbrev val_json : Bool → Json
val_json readable = record {
  Value = Val;
  parse = λ s. (readable, ann_request);
  null = nothing;
  text = text;
  number = number;
  member = get_member;
  set_member = with_member;
  as_int = int_of;
  as_string = string_value;
  to_styled = λ v. codes "{}";
}

sets_member :
    (v : Val) (key : Bytes) (x : Val)
    → is_object v ≡ true
    → (w : Val) × (with_member v key x ≡ some w)
      × (is_object w ≡ true)
      × (member_of w key ≡ x)
      × ((other : Bytes) → bytes_eq other key ≡ false → member_of w other ≡ member_of v other)
sets_member nothing key x ok = (
  object (λ k. if bytes_eq k key then x else nothing),
  refl,
  refl,
  ap (λ b. if b then x else nothing) (bytes_eq_self key),
  λ other e. ap (λ b. if b then x else nothing) e,
)
sets_member (object f) key x ok = (
  object (λ k. if bytes_eq k key then x else f k),
  refl,
  refl,
  ap (λ b. if b then x else f key) (bytes_eq_self key),
  λ other e. ap (λ b. if b then x else f other) e,
)
sets_member (number n) key x ok = cc
sets_member (text s) key x ok = cc

gets_member :
    (v : Val) (key : Bytes)
    → is_object v ≡ true
    → (w : Val) × (get_member v key ≡ some (member_of v key, w))
      × (is_object w ≡ true)
      × ((other : Bytes) → member_of w other ≡ member_of v other)
gets_member nothing key ok = (object (λ k. nothing), refl, refl, λ other. refl)
gets_member (object f) key ok = (object f, refl, refl, λ other. refl)
gets_member (number n) key ok = cc
gets_member (text s) key ok = cc

keeps_members : KeepsMembers (val_json true) (λ v. is_object v ≡ true) member_of
keeps_members = record {
  null_object = refl;
  get_null = λ key. refl;
  sets = sets_member;
  gets = gets_member;
  text_string = λ s clean. refl;
  null_zero = refl;
}

abbrev registering : Control
registering = record { view_map = (0, record { sql = record { sql_conn = some 1 } }) ∷ [] }

set_up : Control.init sandbox true clean_state ≡ some ((registering, true, true), clean_state)
unfolding Control.init Register.init Mysql.init
set_up = refl

ann_request_lem : regist_request (val_json true) (codes "ann") (codes "pw") ≡ some ann_request
unfolding regist_request c_str
ann_request_lem = refl

read_back :
    (req : Val)
    → regist_request (val_json true) (codes "ann") (codes "pw") ≡ some req
    → ◌≡◌ {A = Bool × Val} (true, ann_request) (true, req)
read_back req e = ap (λ v. (true, v)) (ground (arith, ann_request_lem))

-- The request is there to be received.
abbrev asked : Sandbox
asked = record clean_state { receives = some (codes "{}") }

regist_request-served_example :
    (req : Val) × (regist_request (val_json true) (codes "ann") (codes "pw") ≡ some req)
    × (view : View) × (serve_client sandbox (val_json true) (codes "/u/") registering 9 asked
        ≡ ((regist sandbox (codes "/u/") view (codes "ann") (codes "pw")
                >>= send_response sandbox (val_json true) 9 nothing)
              >> act (λ s. s))
            asked)
regist_request-served_example =
    regist_request-served (val_json true) (λ v. is_object v ≡ true) member_of keeps_members sandbox
      (codes "/u/") registering (clean_state, clean_state, true, true, set_up) (codes "ann")
      (codes "pw") 9 asked asked (omega arith) (omega arith)
      (λ req e. (refl, omega arith, omega arith, read_back req e))

-- A service that cannot be reached, behind a channel that can be set up.
abbrev cut_off : Station
cut_off = record {
  host = sandbox;
  fopen = λ path s. (some 4, s);
  fclose = λ fp s. s;
  fseek_end = λ fp s. (true, s);
  ftell = λ fp s. pos 0;
  rewind = λ fp s. s;
  fread = λ fp n s. ([], s);
  malloc = λ n s. (0 ∷ 0 ∷ [], s);
  rpc_flags = default_rpc_flags;
  server = codes "10.0.24.3:8125";
  channel_init = λ flags server s. (true, s);
  send = λ q s. (none, s);
  md5 = λ b. b;
}

-- What is printed stays in the file of the sandbox; no server accepts a connection.
abbrev terminal : Bool → Terminal
terminal readable = record {
  station = cut_off;
  json = val_json readable;
  print = λ b s. record s { file = s.file ++ b };
  read_word = λ s. (codes "f", s);
  read_int = λ s. (pos 5, s);
  strerror = λ s. codes "refused";
  socket = λ s. (some 8, s);
  connect = λ fd ip port s. (false, s);
  send_msg = λ fd b s. (true, s);
  json_stream = λ v. [];
}

abbrev stopped : Sandbox
stopped = record clean_state { receives = some (codes "{}") }

-- A buffer whose memory is zeroed: the response is read as it was sent.
parse_response-reads_example :
    parse_response (terminal true) 8 stopped ≡ some (some ann_request, stopped)
unfolding string_of bytes_from
parse_response-reads_example =
    parse_response-reads (terminal true) 8 stopped stopped (codes "{}") [] true ann_request refl
      (omega arith) (omega arith) refl refl

-- No part reaches the service, and the upload is reported as a success.
abbrev reported : Sandbox
reported = record clean_state {
  file =
      (with_endl (codes "Error: not login, Login first") ++ codes "file: ")
      ++ with_endl (codes "upload file: fsuccess");
}

upload_op-run : upload_op (terminal true) (codes "ann") clean_state ≡ some (tt, reported)
unfolding upload_op upload_typed do_request do_upload_file get_file_size open_file upload_parts
    upload_part shard_of to_int32 fill md5_sum shell_out bytes_from string_of c_str part_request
upload_op-run = refl

upload_op-success_example :
    (file : Bytes) × (v : Sandbox) × (w : Sandbox) × (do_request cut_off
        (msg_code upload)
        file
        (codes "ann")
        v
      ≡ some (pos 0, w))
    × (reported
        ≡ (terminal true).print (with_endl (codes "upload file: " ++ (file ++ codes "success"))) w)
upload_op-success_example =
    upload_op-success (terminal true) (codes "ann") clean_state reported (λ v. refl) upload_op-run
