-- ===== src/Examples/Calendar.antt =====
-- Time stamps and folders of the host's evening.
use vnelogging.Common.{ℕ, ◌≤◌, ◌≡◌, refl, ◌↔◌, ◌⊎◌, inl, true, false, Text, codes, arith}
use vnelogging.TimeStamp.{local, get_time_stamp, calendar}
use vnelogging.TimeStamp.Reading.{IsCalendar, read_stamp, get_time_stamp-reads_back}
use vnelogging.Host.{Host, World, initial, returned, thrown}
use vnelogging.Logging.Paths.{
  is_build_directory, create_logging_folder, ensure_log_directory_exists,
}
use vnelogging.Logging.Paths.BuildDirectory.{Occurs, is_build_directory_iff}
use vnelogging.Logging.Paths.Folders.{IsWilling, create_logging_folder-eq_iff}
use vnelogging.Logging.Paths.Refused.{create_logging_folder-refused}
use vnelogging.Examples.Data.{evening, clock, host}

evening-IsCalendar : (s : ℕ) → s ≤ 60 → IsCalendar (evening s)
evening-IsCalendar s h = record {
  month = omega arith;
  day = omega arith;
  hour = omega arith;
  minute = omega arith;
  second = h;
}

get_time_stamp-reads_back_example :
    read_stamp b'-' b' ' b':' (get_time_stamp local clock 5) ≡ evening 5
unfolding calendar
get_time_stamp-reads_back_example =
    get_time_stamp-reads_back local clock 5 (evening-IsCalendar 5 (omega arith))

abbrev robin : Text
robin = codes "/home/robin"

is_build_directory_iff_example :
    (is_build_directory robin ≡ true)
    ↔ (Occurs (codes "build") robin ⊎ (Occurs (codes "out") robin ⊎ Occurs (codes "bin") robin))
is_build_directory_iff_example = is_build_directory_iff robin

host-IsWilling : IsWilling host
host-IsWilling = record { makes = λ k path. inl refl }

-- The process at the sixth reading of the clock.
abbrev later : World
later = record initial { ticks = 5 }

create_logging_folder-eq_iff_example :
    ((create_logging_folder host (codes "/var/log") (codes "a.log") initial).0
      ≡ (create_logging_folder host (codes "/var/log") (codes "a.log") later).0)
    ↔ (evening 0 ≡ evening 5)
create_logging_folder-eq_iff_example =
    create_logging_folder-eq_iff host host-IsWilling (codes "/var/log") (codes "a.log") initial
      later (evening-IsCalendar 0 (omega arith)) (evening-IsCalendar 5 (omega arith))

-- The host with a file system that throws.
abbrev broken : Host
broken = record host {
  exists = λ k path. thrown (codes "denied");
  create_directories = λ k path. returned false;
}

create_logging_folder-refused_example :
    ((create_logging_folder broken (codes "/var/log") (codes "a.log") initial).0 ≡ codes "a.log")
    × ((ensure_log_directory_exists broken (codes "/var/log") initial).0 ≡ false)
create_logging_folder-refused_example =
    create_logging_folder-refused broken
      (record { has_files = λ e. cc; absent = λ k path. tt; refused = λ k path. tt })
      (codes "/var/log") (codes "a.log") initial
