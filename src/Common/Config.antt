-- ===== src/Common/Config.antt =====
-- common/src/config.rs: the configuration of a broker.
use gaffa.Prelude.{ℕ, String}

pub record BrokerConfig : Type 0 where
  pub host : String
  pub port : ℕ
  pub data_dir : String
  pub broker_id : ℕ
  pub replication_factor : ℕ
  pub max_isr_lag : ℕ

-- `BrokerConfig::default()`
abbrev pub default_config : BrokerConfig
default_config = record {
  host = "127.0.0.1";
  port = 9092;
  data_dir = "/tmp/gaffa";
  broker_id = 0;
  replication_factor = 1;
  max_isr_lag = 1000;
}
