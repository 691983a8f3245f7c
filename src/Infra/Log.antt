-- ===== src/Infra/Log.antt =====
-- infrastructure/include/log.h and src/log.cpp: the set-up of the logger. spdlog is a library; here
-- it keeps its level, its thread pool and the sinks of its default logger.
use dts_framework.Common.{
  ℕ, ◌≡◌, refl, Bool, true, false, Option, none, some, List, [], ◌∷◌, ◌++◌, if◌then◌else◌, Text,
  codes,
}
use dts_framework.Infra.Ctl.Builtins.{Level, trace, debug, info, warn, error, critical}
use dts_framework.Infra.RotatingSink.{TsRotatingSink, new_sink}

pub data SpdLevel : Type 0 where
  spd_trace spd_debug spd_info spd_warn spd_err spd_critical spd_off : SpdLevel

unfoldable pub to_spdlog_level : Level → SpdLevel
to_spdlog_level trace = spd_trace
to_spdlog_level debug = spd_debug
to_spdlog_level info = spd_info
to_spdlog_level warn = spd_warn
to_spdlog_level error = spd_err
to_spdlog_level critical = spd_critical

unfoldable pub from_spdlog_level : SpdLevel → Level
from_spdlog_level spd_trace = trace
from_spdlog_level spd_debug = debug
from_spdlog_level spd_info = info
from_spdlog_level spd_warn = warn
from_spdlog_level spd_err = error
from_spdlog_level spd_critical = critical
from_spdlog_level spd_off = info

pub record FileConfig : Type 0 where
  pub enable : Bool
  pub dir : Text
  pub name_pattern : Text
  pub max_size_mb : ℕ
  pub max_total_mb : ℕ

pub record Config : Type 0 where
  pub pool_size : ℕ
  pub pool_threads : ℕ
  pub level : Level
  pub console : Bool
  pub file : FileConfig

unfoldable pub default_config : Config
default_config = record {
  pool_size = 8192;
  pool_threads = 1;
  level = info;
  console = true;
  file = record {
    enable = true;
    dir = codes "/var/log/dts";
    name_pattern = codes "dts_{}-%Y%m%d%H%M%S";
    max_size_mb = 5;
    max_total_mb = 5120;
  };
}

pub data Sink : Type 0 where
  stdout_sink : Sink
  file_sink : TsRotatingSink → Sink

-- `g_init`, and what spdlog keeps.
pub record Spdlog : Type 0 where
  pub init : Bool
  pub level : SpdLevel
  pub pool : Option (ℕ × ℕ)
  pub sinks : List Sink

unfoldable pub sinks_of : Config → List Sink
unfolding new_sink
sinks_of cfg =
    let file =
      file_sink
        (new_sink cfg.file.dir cfg.file.name_pattern cfg.file.max_size_mb cfg.file.max_total_mb) in
    (if cfg.console then stdout_sink ∷ [] else []) ++ (if cfg.file.enable then file ∷ [] else [])

-- `Init`
unfoldable pub init_log : Config → Spdlog → Spdlog
unfolding sinks_of to_spdlog_level
init_log cfg l = if l.init then l else record {
  init = true;
  level = to_spdlog_level cfg.level;
  pool = some (cfg.pool_size, cfg.pool_threads);
  sinks = sinks_of cfg;
}

-- `Shutdown`: spdlog drops its loggers and its pool.
unfoldable pub shutdown : Spdlog → Spdlog
shutdown l = record l { init = false; pool = none; sinks = [] }

unfoldable pub set_level : Level → Spdlog → Spdlog
unfolding to_spdlog_level
set_level level l = record l { level = to_spdlog_level level }

unfoldable pub get_level : Spdlog → Level
unfolding from_spdlog_level
get_level l = from_spdlog_level l.level

-- The level that was set is the one that is read, whatever it is.
pub get_level-set_level : (level : Level) (l : Spdlog) → get_level (set_level level l) ≡ level
unfolding get_level set_level
get_level-set_level trace l = refl
get_level-set_level debug l = refl
get_level-set_level info l = refl
get_level-set_level warn l = refl
get_level-set_level error l = refl
get_level-set_level critical l = refl
