-- ===== src/Registry/Settings.antt =====
-- `RegistryConfig` of registry.go and what `WrapKVConfig` makes of it for the store. A TLS
-- configuration is known by a number, and a duration is a number of nanoseconds.
use byterpc.Common.{ℕ, Bool, List, Option, some, Text, Result, ok}

pub record RegistryConfig : Type 0 where
  pub registry_type : Text
  pub addrs : List Text
  pub tls : Option ℕ
  pub connection_timeout : ℕ
  pub bucket : Text
  pub persist_connection : Bool
  pub username : Text
  pub password : Text

-- `store.Config`; the client's TLS files are those of an empty `store.ClientTLSConfig`.
pub record StoreConfig : Type 0 where
  pub client_tls : Option (Unit {0})
  pub tls : Option ℕ
  pub connection_timeout : ℕ
  pub bucket : Text
  pub persist_connection : Bool
  pub username : Text
  pub password : Text

unfoldable pub wrap_kv_config : RegistryConfig → StoreConfig
wrap_kv_config config = record {
  client_tls = some tt;
  tls = config.tls;
  connection_timeout = config.connection_timeout;
  bucket = config.bucket;
  persist_connection = config.persist_connection;
  username = config.username;
  password = config.password;
}

unfoldable pub check_registry_config : RegistryConfig → Result (Unit {0})
check_registry_config config = ok tt
