-- ===== src/Examples/Data.antt =====
-- A host and the data that the examples share.
use vnelogging.Common.{ℕ, true, none, [], codes}
use vnelogging.LogLevel.{info, error}
use vnelogging.TimeStamp.{Tm, TimeProvider, local}
use vnelogging.Host.{Host, linux, returned}
use vnelogging.LogFormatter.{LogRecord}

-- The 9th of July 2024, five past eleven at night, and a second later at each reading.
abbrev pub evening : ℕ → Tm
evening s = record { tm_year = 124; tm_mon = 6; tm_mday = 9; tm_hour = 23; tm_min = 5; tm_sec = s }

abbrev pub clock : TimeProvider
clock = record { now = λ k. k; local_time = evening; gm_time = evening }

-- A Linux host with an empty environment, where directories exist and files open.
abbrev pub host : Host
host = record {
  platform = linux;
  getenv = λ name. none;
  time = clock;
  current_path = λ k. returned (codes "/work/build");
  parent_path = λ path. [];
  exists = λ k path. returned true;
  create_directories = λ k path. returned true;
  open_file = λ k path append. true;
}

abbrev pub started : LogRecord
started = record {
  name = codes "core";
  level = info;
  time_stamp_type = local;
  message = codes "started";
  file = codes "main.cpp";
  function = codes "main";
  line = 42;
}

abbrev pub failed : LogRecord
failed = record started { level = error; message = codes "failed" }
