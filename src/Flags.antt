-- ===== src/Flags.antt =====
-- code/include/gflag_def.h: the flags of the connection to the database and of the RPC channel, with
-- their default values. The storage's are in Upload/Messages, the server's in Startup/Entry.
use network_disk_server.Base.{ℕ, []}
use network_disk_server.Base.Int.{ℤ, pos, minus_one}
use network_disk_server.Base.Text.{Bytes, codes}

pub record MysqlFlags : Type 0 where
  pub mysql_ip : Bytes
  pub mysql_port : ℕ
  pub mysql_database : Bytes
  pub mysql_usr : Bytes
  pub mysql_passwd : Bytes

abbrev pub default_mysql_flags : MysqlFlags
default_mysql_flags = record {
  mysql_ip = codes "127.0.0.1";
  mysql_port = 3306;
  mysql_database = codes "lxw01";
  mysql_usr = codes "root";
  mysql_passwd = codes "root";
}

-- The flags that `DoRequest` puts into the options of its channel, and the load balancer.
pub record RpcFlags : Type 0 where
  pub protocol : Bytes
  pub connection_type : Bytes
  pub timeout_ms : ℤ
  pub max_retry : ℤ
  pub load_balancer : Bytes

abbrev pub default_rpc_flags : RpcFlags
default_rpc_flags = record {
  protocol = codes "baidu_std";
  connection_type = [];
  timeout_ms = pos 100;
  max_retry = pos 3;
  load_balancer = [];
}

-- `idle_timeout_s` of the long server.
abbrev pub default_idle_timeout_s : ℤ
default_idle_timeout_s = minus_one
