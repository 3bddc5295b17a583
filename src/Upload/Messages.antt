-- ===== src/Upload/Messages.antt =====
-- code/proto/NetDisk.proto: the messages, and code/include/gflag_def.h: the flags of the storage.
use network_disk_server.Base.{ℕ, Bool, Option, none, some, String}
use network_disk_server.Base.Text.{Bytes, codes}

-- `NetDiskRequest`. The `uint32` fields are below 2 ^ 32.
pub record Request : Type 0 where
  pub op_type : ℕ
  pub shard : ℕ
  pub part_index : ℕ
  pub part_sign : Bytes
  pub file_name : Bytes
  pub file_sign : Bytes
  pub usr : Bytes
  pub body : Bytes

-- `NetDiskResponse`; `none` is a field that is not set.
pub record Response : Type 0 where
  pub res : Option Bool
  pub shard : Option ℕ
  pub part_index : Option ℕ
  pub file_name : Option Bytes
  pub body : Option Bytes

abbrev pub empty_response : Response
empty_response = record {
  res = none;
  shard = none;
  part_index = none;
  file_name = none;
  body = none;
}

-- `set_res` and `set_body`
abbrev pub answer : Response → Bool → String → Response
answer r b text = record r { res = some b; body = some (codes text) }

-- `response->set_body("this part already exist")`
abbrev pub already : Response → Response
already r = record r { body = some (codes "this part already exist") }

pub record Flags : Type 0 where
  pub usr_dir : Bytes
  pub files_dir : Bytes

abbrev pub default_flags : Flags
default_flags = record {
  usr_dir = codes "/home/ubuntu/network-disk-server/server_data/usr/";
  files_dir = codes "/home/ubuntu/network-disk-server/server_data/files/";
}
