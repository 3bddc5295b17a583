-- ===== src/Tests/Reader.antt =====
-- A small client machine with one file, which each stream reads from its front.
use network_disk_server.Base.{
  ℕ, zero, suc, ap, ◌≡◌, refl, true, none, some, [], ◌∷◌, ◌++◌, arith, length, take, drop,
}
use network_disk_server.Base.Int.{pos}
use network_disk_server.Base.Text.{Bytes, codes}
use network_disk_server.Shell.{msg_code, upload, string_of, bytes_from}
use network_disk_server.Flags.{default_rpc_flags}
use network_disk_server.Client.Upload.{do_request}
use network_disk_server.Client.Station.{Station}
use network_disk_server.Client.Upload.Files.{HasFile, do_request-overreads}
use network_disk_server.Tests.Network.{desk_host}
use network_disk_server.Tests.Depot.{digest, sign}

abbrev content : Bytes
content = codes "abcde"

abbrev blank : ℕ → Bytes
blank zero = []
blank (suc n) = 0 ∷ blank n

length-blank : (n : ℕ) → length (blank n) ≡ n
length-blank zero = refl
length-blank (suc n) = ap suc (length-blank n)

abbrev reader : Station
reader = record {
  host = record desk_host { popen = λ cmd s. (some (sign ++ codes "  a.txt\n"), s) };
  fopen = λ path s. (some 4, record s { unread = content });
  fclose = λ fp s. s;
  fseek_end = λ fp s. (true, s);
  ftell = λ fp s. pos (length content);
  rewind = λ fp s. s;
  fread = λ fp n s. (take n s.unread, record s { unread = drop n s.unread });
  malloc = λ n s. (blank n, s);
  rpc_flags = default_rpc_flags;
  server = codes "10.0.24.3:8125";
  channel_init = λ flags server s. (true, s);
  send = λ q s. (none, record s { sent = s.sent ++ (q ∷ []) });
  md5 = digest;
}

reader-HasFile : HasFile reader (λ s fp. s.unread) (codes "a.txt") content sign
unfolding string_of bytes_from
reader-HasFile = record {
  channel = λ s. (s, refl);
  sum_file = λ s. (s, codes "  a.txt\n", [], refl, ground arith, omega arith, refl);
  sign_size = (refl, ground arith);
  open_front = λ s. (4, record s { unread = content }, refl, refl);
  seek_end = λ s u fp e. (u, refl, refl);
  fread_front = λ s fp n. (record s { unread = drop n s.unread }, refl);
  malloc_block = λ s n. (blank n, s, refl, length-blank n, refl);
}

do_request-overreads_example :
    do_request reader
      (msg_code upload)
      (codes "a.txt")
      (codes "ann")
      (record { unread = []; sent = [] })
    ≡ none
do_request-overreads_example =
    do_request-overreads reader _ (codes "a.txt") content sign (codes "ann") reader-HasFile
      (omega arith) (omega arith) (omega arith) (record { unread = []; sent = [] })
