-- ===== src/Client/Menu.antt =====
-- code/cmd/clientMain.cpp: the menu of the client program and its operations.
pub mod Registration
pub mod Reports
pub mod Loop
use network_disk_server.Base.{
  ℕ, ◌-◌, Bool, true, false, Option, none, some, [], ◌∷◌, ◌++◌, ◌==◌, String, length, take,
}
use network_disk_server.Base.Int.{ℤ, pos, negsuc, nonzero}
use network_disk_server.Base.Fallible.{M, pure, call, act, look, ◌>>=◌, ◌>>◌}
use network_disk_server.Base.Text.{Bytes, codes, c_str, to_string}
use network_disk_server.Json.{Json}
use network_disk_server.Shell.{
  bytes_from, string_of, or_fault, MsgType, msg_code, register, login, exit, upload, download,
}
use network_disk_server.Register.{try}
use network_disk_server.Client.Terminal.{Terminal}
use network_disk_server.Client.Upload.{do_request}

-- `RESPONSE_MAX_LEN`
abbrev pub response_max_len : ℕ
response_max_len = 1024

-- `g_usr`, `g_is_login`, `g_ser_ip`, `g_short_conn_port` and `g_long_conn_port`, which nothing assigns.
abbrev pub g_usr : Bytes
g_usr = codes "lxw01"

abbrev pub g_is_login : Bool
g_is_login = false

abbrev pub g_ser_ip : Bytes
g_ser_ip = codes "10.0.24.3"

abbrev pub g_short_conn_port : ℕ
g_short_conn_port = 8124

abbrev pub g_long_conn_port : ℕ
g_long_conn_port = 8125

-- `<< endl`
abbrev pub with_endl : Bytes → Bytes
with_endl s = s ++ (10 ∷ [])

-- `char res_buf[RESPONSE_MAX_LEN]`, which is not set, after `recv`.
unfoldable pub response_buffer : (ℕ → ℕ) → Bytes → Bytes
response_buffer garbage bytes =
    let kept = take response_max_len bytes in
    kept ++ bytes_from garbage (length kept) (response_max_len - length kept)

module _ (j : Json) where
  open j use {Value, null, text, number, set_member}

  -- `req_json` of `registOp`
  unfoldable pub regist_request : Bytes → Bytes → Option Value
  regist_request usr passwd = elim (set_member null (codes "Type") (number (pos 0))) [
    | none ↦ none
    | some typed ↦ elim (set_member typed (codes "Name") (text (c_str usr))) [
      | none ↦ none
      | some named ↦ set_member named (codes "Passwd") (text (c_str passwd))
    ]
  ]

-- `op_type == static_cast<int>(type)`
abbrev pub is_op : MsgType → ℤ → Bool
is_op type (pos n) = n == msg_code type
is_op type (negsuc n) = false

module _ (t : Terminal) where
  open t use {State, station, json, print, read_word, read_int, strerror, socket, connect, send_msg}

  -- `cout << msg << endl`, and without `endl`
  abbrev pub print_line : Bytes → M State (Unit {0})
  print_line msg = act (print (with_endl msg))

  abbrev pub prompt : String → M State (Unit {0})
  prompt msg = act (print (codes msg))

  abbrev host_close : ℕ → M State (Unit {0})
  host_close fd = act (station.host.close fd)

  -- `cout << msg << strerror(errno) << endl; close(fd); return false;`
  unfoldable pub give_up : ℕ → String → M State (Option ℕ)
  give_up fd msg = do
    error ← look strerror
    print_line (codes msg ++ error)
    host_close fd
    pure none

  -- The descriptor where the source returns true.
  unfoldable pub send_short_req : Bytes → M State (Option ℕ)
  send_short_req req_msg = do
    r ← call socket
    elim r [
      | none ↦ do
        error ← look strerror
        print_line (codes "create socket error, err:" ++ error)
        pure none
      | some fd ↦ do
        connected ← call (connect fd g_ser_ip g_short_conn_port)
        elim connected [
          | false ↦ give_up fd "Error: connect failed"
          | true ↦ do
            sent ← call (send_msg fd (c_str req_msg))
            elim sent [
              | false ↦ give_up fd "Error: send msg error: "
              | true ↦ do print_line (codes "send: " ++ c_str req_msg); pure (some fd)
            ]
        ]
    ]

  -- The value where the source returns true.
  unfoldable pub parse_response : ℕ → M State (Option json.Value)
  parse_response fd = do
    garbage ← look station.host.stale
    r ← call (station.host.recv fd response_max_len)
    elim r [
      | none ↦ do
        error ← look strerror
        print_line (codes "Error: recv response error, err: " ++ error)
        host_close fd
        pure none
      | some bytes ↦ do
        res_buf ← or_fault station.host (string_of (response_buffer garbage bytes))
        let (parsed, json_val) = json.parse res_buf
        elim parsed [
          | true ↦ pure (some json_val)
          | false ↦ do
            print_line (codes "Error: parse response failed, res_buf: " ++ res_buf)
            host_close fd
            pure none
        ]
    ]

  unfoldable pub show_response : Option json.Value → M State (Unit {0})
  show_response none = print_line (codes "Error: parse response json failed")
  show_response (some val) = do
    (response, val') ← try station.host json (json.member val (codes "Response"))
    print_line (codes "Server: " ++ t.json_stream response)

  -- `registOp` after the input.
  unfoldable pub send_regist : Bytes → Bytes → M State (Unit {0})
  send_regist usr passwd = do
    req_json ← try station.host json (regist_request json usr passwd)
    r ← send_short_req (json.to_styled req_json)
    elim r [
      | none ↦ print_line (codes "Error: send request failed")
      | some fd ↦ parse_response fd >>= show_response
    ]

  unfoldable pub regist_op : M State (Unit {0})
  regist_op = do
    prompt "input usr: "
    usr ← call read_word
    prompt "input passwd: "
    passwd ← call read_word
    prompt "repeat passwd: "
    repeat_passwd ← call read_word
    send_regist usr passwd

  unfoldable pub login_op : M State (Unit {0})
  login_op = print_line (codes "in loginOp")

  -- `uploadOp` after the test of the login, which does not return.
  unfoldable pub upload_typed : Bytes → M State (Unit {0})
  upload_typed usr = do
    prompt "file: "
    upload_file ← call read_word
    code ← do_request station (msg_code upload) upload_file usr
    elim (nonzero code) [
      | false ↦ print_line (codes "upload file: " ++ (upload_file ++ codes "success"))
      | true ↦ print_line (codes "Error: upload file err")
    ]

  unfoldable pub upload_op : Bytes → M State (Unit {0})
  upload_op usr = elim g_is_login [
    | true ↦ upload_typed usr
    | false ↦ print_line (codes "Error: not login, Login first") >> upload_typed usr
  ]

  -- The `switch`; `exitOp` and `downloadOp` do nothing.
  unfoldable pub choose : ℤ → M State (Unit {0})
  choose op_type = elim (is_op register op_type) [
    | true ↦ regist_op
    | false ↦ elim (is_op login op_type) [
      | true ↦ login_op
      | false ↦ elim (is_op exit op_type) [
        | true ↦ pure tt
        | false ↦ elim (is_op upload op_type) [
          | true ↦ upload_op g_usr
          | false ↦ elim (is_op download op_type) [
            | true ↦ pure tt
            | false ↦ print_line (codes "Error: not support!")
          ]
        ]
      ]
    ]
  ]

  -- `"|\t" name "\t|"`
  abbrev item : String → M State (Unit {0})
  item name = print_line ((b'|' ∷ 9 ∷ codes name) ++ (9 ∷ b'|' ∷ []))

  unfoldable pub show_menu : M State (Unit {0})
  show_menu = do
    print_line (codes "select operation type")
    item "0: regist"
    item "1: login"
    item "2: exit"
    item "3: share"
    item "4: delete"
    item "5: upload"
    item "6: download"
    item "7: share"
    prompt "input type num: "

  unfoldable pub show_offline : M State (Unit {0})
  show_offline = do
    print_line []
    print_line (codes "========================================")
    print_line (codes "!!!not online, please login or regist first")
    print_line (codes "========================================")

  -- One round of `while (1)`.
  unfoldable pub main_round : M State (Unit {0})
  main_round = do
    elim g_is_login [ true ↦ pure tt | false ↦ show_offline ]
    show_menu
    op_type ← call read_int
    print_line (to_string (msg_code upload))
    choose op_type
