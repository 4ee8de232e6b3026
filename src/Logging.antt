-- ===== src/Logging.antt =====
-- worker/logger.go and utils/log.go: the logger that asynq and Redis are given, over zerolog.
use serving_agent.Common.{String, List, Exec}
use serving_agent.Platform.{Json}

-- zerolog's levels, of which the source names these.
pub data Level : Type 0 where
  debug : Level
  info : Level
  warn : Level
  error : Level
  fatal : Level
  panic : Level

-- `logLevelSeverity`
abbrev pub log_level_severity : Level → String
log_level_severity debug = "DEBUG"
log_level_severity info = "INFO"
log_level_severity warn = "WARNING"
log_level_severity error = "ERROR"
log_level_severity panic = "CRITICAL"
log_level_severity fatal = "CRITICAL"

-- What `InitZerolog` sets: the level below which nothing is written, the names of two fields, and the
-- text of a level.
pub record ZerologSettings : Type 0 where
  pub global_level : Level
  pub level_field_name : String
  pub level_field_marshal : Level → String
  pub timestamp_field_name : String
  pub time_field_format : String

-- `InitZerolog`; the format is `time.RFC3339Nano`.
abbrev pub init_zerolog : ZerologSettings
init_zerolog = record {
  global_level = info;
  level_field_name = "severity";
  level_field_marshal = log_level_severity;
  timestamp_field_name = "time";
  time_field_format = "2006-01-02T15:04:05.999999999Z07:00";
}

-- zerolog's `WithLevel(level).Msg(text)`, which never ends the program, and Go's `fmt.Sprint` and
-- `fmt.Sprintf`.
pub record Zerolog (W : Type 0) : Type 0 where
  pub with_level : Level → String → Exec W (Unit {0})
  pub sprint : List Json → String
  pub sprintf : String → List Json → String

-- The methods of `Logger`, under one name each.
module _ {W : Type 0} (zerolog : Zerolog W) where
  abbrev pub print : Level → List Json → Exec W (Unit {0})
  print level args = zerolog.with_level level (zerolog.sprint args)

  abbrev pub printf : String → List Json → Exec W (Unit {0})
  printf format args = zerolog.with_level debug (zerolog.sprintf format args)

  abbrev pub log_debug : List Json → Exec W (Unit {0})
  log_debug args = print debug args

  abbrev pub log_info : List Json → Exec W (Unit {0})
  log_info args = print info args

  abbrev pub log_warn : List Json → Exec W (Unit {0})
  log_warn args = print warn args

  abbrev pub log_error : List Json → Exec W (Unit {0})
  log_error args = print error args

  abbrev pub log_fatal : List Json → Exec W (Unit {0})
  log_fatal args = print fatal args
