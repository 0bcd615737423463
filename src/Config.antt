-- ===== src/Config.antt =====
-- config.rs: the configuration.
use rxiu.Base.{ℕ, Bool, true}

pub record AppConfig : Type 0 where
  pub rs_concurrency : ℕ
  pub rs_sync_concurrency : ℕ
  pub rs_block_size_mb : ℕ
  pub rs_global_sync : Bool
  pub rs_replication_factor : ℕ
  pub renew_enabled : Bool
  pub renew_check_interval : ℕ

abbrev pub default : AppConfig
default = record {
  rs_concurrency = 8;
  rs_sync_concurrency = 8;
  rs_block_size_mb = 16;
  rs_global_sync = true;
  rs_replication_factor = 2;
  renew_enabled = true;
  renew_check_interval = 300;
}
