-- ===== src/Logging/Macros.antt =====
-- logging.h: the macros that start a message. The compiler gives an expansion its place in the
-- source; `CREATE_VNE_LOGGER_CATEGORY` gives it a category.
use vnelogging.Common.{ℕ, Text}
use vnelogging.LogLevel.{LogLevel, trace, debug, info, warn, error, fatal}
use vnelogging.TimeStamp.{local}
use vnelogging.LogStream
use vnelogging.LogStream.{LogStream}
use vnelogging.Logging.{default_logger_name}

-- `__FILE__`, `VNE_FUNCTION_NAME` and `__LINE__`.
pub record Site : Type 0 where
  pub file : Text
  pub function : Text
  pub line : ℕ

unfoldable pub vne_log_impl : Text → Text → LogLevel → Site → LogStream
vne_log_impl logger category level site =
    LogStream.new logger category level local site.file site.function site.line

-- Logger and category.
unfoldable pub vne_log_trace_lc : Text → Text → Site → LogStream
unfolding vne_log_impl
vne_log_trace_lc logger category site = vne_log_impl logger category trace site

unfoldable pub vne_log_debug_lc : Text → Text → Site → LogStream
unfolding vne_log_impl
vne_log_debug_lc logger category site = vne_log_impl logger category debug site

unfoldable pub vne_log_info_lc : Text → Text → Site → LogStream
unfolding vne_log_impl
vne_log_info_lc logger category site = vne_log_impl logger category info site

unfoldable pub vne_log_warn_lc : Text → Text → Site → LogStream
unfolding vne_log_impl
vne_log_warn_lc logger category site = vne_log_impl logger category warn site

unfoldable pub vne_log_error_lc : Text → Text → Site → LogStream
unfolding vne_log_impl
vne_log_error_lc logger category site = vne_log_impl logger category error site

unfoldable pub vne_log_fatal_lc : Text → Text → Site → LogStream
unfolding vne_log_impl
vne_log_fatal_lc logger category site = vne_log_impl logger category fatal site

-- Logger only; the category is `VNE_LOGGER_CATEGORY`.
unfoldable pub vne_log_trace_l : Text → Text → Site → LogStream
unfolding vne_log_trace_lc
vne_log_trace_l vne_logger_category logger site = vne_log_trace_lc logger vne_logger_category site

unfoldable pub vne_log_debug_l : Text → Text → Site → LogStream
unfolding vne_log_debug_lc
vne_log_debug_l vne_logger_category logger site = vne_log_debug_lc logger vne_logger_category site

unfoldable pub vne_log_info_l : Text → Text → Site → LogStream
unfolding vne_log_info_lc
vne_log_info_l vne_logger_category logger site = vne_log_info_lc logger vne_logger_category site

unfoldable pub vne_log_warn_l : Text → Text → Site → LogStream
unfolding vne_log_warn_lc
vne_log_warn_l vne_logger_category logger site = vne_log_warn_lc logger vne_logger_category site

unfoldable pub vne_log_error_l : Text → Text → Site → LogStream
unfolding vne_log_error_lc
vne_log_error_l vne_logger_category logger site = vne_log_error_lc logger vne_logger_category site

unfoldable pub vne_log_fatal_l : Text → Text → Site → LogStream
unfolding vne_log_fatal_lc
vne_log_fatal_l vne_logger_category logger site = vne_log_fatal_lc logger vne_logger_category site

-- The default logger.
unfoldable pub vne_log_trace : Text → Site → LogStream
unfolding vne_log_trace_l
vne_log_trace vne_logger_category site =
    vne_log_trace_l vne_logger_category default_logger_name site

unfoldable pub vne_log_debug : Text → Site → LogStream
unfolding vne_log_debug_l
vne_log_debug vne_logger_category site =
    vne_log_debug_l vne_logger_category default_logger_name site

unfoldable pub vne_log_info : Text → Site → LogStream
unfolding vne_log_info_l
vne_log_info vne_logger_category site = vne_log_info_l vne_logger_category default_logger_name site

unfoldable pub vne_log_warn : Text → Site → LogStream
unfolding vne_log_warn_l
vne_log_warn vne_logger_category site = vne_log_warn_l vne_logger_category default_logger_name site

unfoldable pub vne_log_error : Text → Site → LogStream
unfolding vne_log_error_l
vne_log_error vne_logger_category site =
    vne_log_error_l vne_logger_category default_logger_name site

unfoldable pub vne_log_fatal : Text → Site → LogStream
unfolding vne_log_fatal_l
vne_log_fatal vne_logger_category site =
    vne_log_fatal_l vne_logger_category default_logger_name site
