-- ===== src/Config.antt =====
-- config.go: the configuration of a server. An int or a duration, which is a number of
-- nanoseconds, is an integer of any size.
use byterpc.Common.{ℕ, ◌*◌, ℤ, pos, Text, codes, Result, ok}

pub record ServerConfig : Type 0 where
  pub psm : Text
  pub port : ℤ
  pub codec_type : Text
  pub request_timeout : ℤ
  pub connection_timeout : ℤ
  pub retries : ℤ
  pub load_balance : Text
  pub max_concurrency_on_method : ℤ
  pub max_concurrency_on_service : ℤ

abbrev second : ℕ
second = 1000000000

unfoldable pub default_config : ServerConfig
default_config = record {
  psm = codes "byterpc.default.basic";
  port = pos 8888;
  codec_type = codes "gob";
  request_timeout = pos (second * 30);
  connection_timeout = pos 0;
  retries = pos 3;
  load_balance = codes "random";
  max_concurrency_on_method = pos 10000;
  max_concurrency_on_service = pos (10000 * 10);
}

unfoldable pub check : ServerConfig → Result (Unit {0})
check c = ok tt
