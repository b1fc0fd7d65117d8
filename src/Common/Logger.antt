-- ===== src/Common/Logger.antt =====
-- DriftDetectorSvc/internal/logger/logger.go, which InventorySvc and ParserSvc have as well: a logger is made,
-- or the service does not start. The loggers of zap are a parameter; what is logged is left out.
use infrastructure_managemen.Common.{String, ◌==◌, ◌||◌, if◌then◌else◌, Result, ok, err, map_err}
use infrastructure_managemen.Common.Text.{trim_space, to_lower}

pub data Level : Type 0 where
  debug info warn error : Level

pub data LoggerError : Type 0 where
  unsupported_level : String → LoggerError
  not_built : String → LoggerError

-- The switch over the normalized text; the error names the text as it was.
unfoldable pub level_of : String → String → Result LoggerError Level
level_of normalized level =
    if normalized == "debug"
    then ok debug
    else if normalized == "info" || normalized == ""
    then ok info
    else if normalized == "warn" || normalized == "warning"
    then ok warn
    else if normalized == "error"
    then ok error
    else err (unsupported_level level)

-- zap's cfg.Build()
abbrev pub Build : Type 0
Build = Level → Result String (Unit {0})

abbrev pub built : Build → Result LoggerError Level → Result LoggerError (Unit {0})
built build (err e) = err e
built build (ok level) = map_err not_built (build level)

-- logger.New
unfoldable pub new_logger : Build → String → Result LoggerError (Unit {0})
new_logger build level = built build (level_of (to_lower (trim_space level)) level)
