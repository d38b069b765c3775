-- ===== src/TcpConfig.antt =====
-- `TCPConfig` of libsponge/tcp_helpers/tcp_config.hh.
use cs144_lab_assignment.Common.{ℕ, Option, none}
use cs144_lab_assignment.WrappingIntegers.{WrappingInt32}

-- `TCPConfig::MAX_PAYLOAD_SIZE`
abbrev pub max_payload_size : ℕ
max_payload_size = 1452

-- `TCPConfig::MAX_RETX_ATTEMPTS`
abbrev pub max_retx_attempts : ℕ
max_retx_attempts = 8

pub record TcpConfig : Type 0 where
  pub rt_timeout : ℕ
  pub recv_capacity : ℕ
  pub send_capacity : ℕ
  pub fixed_isn : Option WrappingInt32

-- The configuration with the initial values of its fields, `TIMEOUT_DFLT` and `DEFAULT_CAPACITY`.
abbrev pub default : TcpConfig
default = record {
  rt_timeout = 1000;
  recv_capacity = 64000;
  send_capacity = 64000;
  fixed_isn = none;
}
