-- ===== src/Log.antt =====
-- src/logger.h: the line that `log_message` prints.
use lang_os_distributed_file.Base.{◌≡◌, refl, ◌++◌, Text, lit}

pub data LogLevel : Type 0 where
  log_info log_warn log_error log_debug : LogLevel

abbrev level_str : LogLevel → Text
level_str log_info = lit "INFO"
level_str log_warn = lit "WARN"
level_str log_error = lit "ERROR"
level_str log_debug = lit "DEBUG"

-- "[%s] [%s] [%s] %s\n", with the local time as `strftime` writes it into `time_buf`.
unfoldable log_message : Text → LogLevel → Text → Text → Text
log_message time_buf level source message =
    lit "["
    ++ (time_buf
        ++ (lit "] ["
            ++ (source ++ (lit "] [" ++ (level_str level ++ (lit "] " ++ (message ++ lit "\n")))))))

cache_hit :
    log_message (lit "2025-11-20 10:00:00") log_debug (lit "Cache") (lit "HIT")
    ≡ lit "[2025-11-20 10:00:00] [Cache] [DEBUG] HIT\n"
unfolding log_message
cache_hit = refl
