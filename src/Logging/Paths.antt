-- ===== src/Logging/Paths.antt =====
-- The path functions of logging.cpp.
pub mod BuildDirectory
pub mod Folders
pub mod Refused
use vnelogging.Common.{
  Bool, true, false, ◌||◌, ◌&&◌, Option, none, some, [], ◌∷◌, ◌++◌, ◌==◌, Text, codes, is_empty,
  if◌then◌else◌,
}
use vnelogging.TimeStamp.{put_time}
use vnelogging.Host.{
  Host, Platform, windows, macos, ios, visionos, android, linux, web, Outcome, returned, thrown, M,
  pure, ◌>>=◌, tick,
}

abbrev or_none : Option Text → Text
or_none none = []
or_none (some value) = value

-- The name of the variable with the home directory.
home_variable : Platform → Text
home_variable windows = codes "USERPROFILE"
home_variable _ = codes "HOME"

unfoldable pub get_home_directory : Host → Text
unfolding home_variable
get_home_directory h = or_none (h.getenv (home_variable h.platform))

unfoldable pub get_path_separator : Platform → Text
get_path_separator windows = codes "\\"
get_path_separator _ = codes "/"

starts : Text → Text → Bool
starts [] text = true
starts (c ∷ word) [] = false
starts (c ∷ word) (d ∷ text) = c == d && starts word text

-- `path.find(word) != std::string::npos`
unfoldable pub contains : Text → Text → Bool
unfolding starts
contains word [] = starts word []
contains word (d ∷ text) = starts word (d ∷ text) || contains word text

unfoldable pub is_build_directory : Text → Bool
is_build_directory path =
    contains (codes "build") path
    || (contains (codes "out") path
        || (contains (codes "bin") path || contains (codes "cmake-build") path))

current_of : Outcome Text → Text
current_of (returned path) = path
current_of (thrown what) = codes "."

unfoldable pub get_current_directory : Host → M Text
unfolding current_of
get_current_directory h = elim h.platform [
  | web ↦ pure (codes ".")
  | _ ↦ do k ← tick; pure (current_of (h.current_path k))
]

made : Outcome Bool → Bool
made (returned b) = b
made (thrown what) = false

make_all : Host → Text → M Bool
unfolding made
make_all h path = do k ← tick; pure (made (h.create_directories k path))

there_or_made : Host → Text → Outcome Bool → M Bool
unfolding make_all
there_or_made h path (returned true) = pure true
there_or_made h path (returned false) = make_all h path
there_or_made h path (thrown what) = pure false

-- Outside the web: an empty path fails, one that is there is enough, an exception is a failure.
create_on_disk : Host → Text → M Bool
unfolding there_or_made
create_on_disk h path =
    if is_empty path then pure false else do k ← tick; there_or_made h path (h.exists k path)

unfoldable pub create_directories : Host → Text → M Bool
unfolding create_on_disk
create_directories h path = elim h.platform [ web ↦ pure true | _ ↦ create_on_disk h path ]

-- What stands between the platform's own choices and the working directory: `none` to fall through.
in_home : Text → Text → Option Text
in_home home tail = if is_empty home then none else some (home ++ tail)

in_variable : Option Text → Text → Option Text → Option Text
in_variable none tail otherwise = otherwise
in_variable (some dir) tail otherwise = some (dir ++ tail)

unfoldable pub platform_choice : Host → Option Text
unfolding in_home in_variable
platform_choice h = elim h.platform [
  | windows ↦
      in_variable (h.getenv (codes "LOCALAPPDATA")) (codes "\\VertexNova\\logs")
        (in_home (get_home_directory h) (codes "\\AppData\\Local\\VertexNova\\logs"))
  | macos ↦ in_home (get_home_directory h) (codes "/Library/Logs/VertexNova")
  | ios ↦ in_home (get_home_directory h) (codes "/Documents/VertexNova/logs")
  | visionos ↦ none
  | android ↦ some (codes "/data/data/com.vertexnova.app/files/logs")
  | linux ↦
      in_variable (h.getenv (codes "XDG_DATA_HOME")) (codes "/VertexNova/logs")
        (in_home (get_home_directory h) (codes "/.local/share/VertexNova/logs"))
  | web ↦ some []
]

fall_back : Host → M Text
fall_back h = do
  cwd ← get_current_directory h
  pure (
      if is_build_directory cwd
      then cwd ++ (get_path_separator h.platform ++ codes "logs")
      else codes "logs")

chosen : Host → Option Text → M Text
unfolding fall_back
chosen h none = fall_back h
chosen h (some dir) = pure dir

unfoldable pub get_platform_specific_log_directory : Host → M Text
unfolding chosen
get_platform_specific_log_directory h = chosen h (platform_choice h)

-- `getLogDirectory`
unfoldable pub get_log_directory : Host → M Text
get_log_directory h = get_platform_specific_log_directory h

unfoldable pub ensure_log_directory_exists : Host → Text → M Bool
ensure_log_directory_exists h log_dir =
    if is_empty log_dir then pure false else create_directories h log_dir

-- `createLoggingFolder`
unfoldable pub create_logging_folder : Host → Text → Text → M Text
create_logging_folder h base_dir filename = do
  k ← tick
  let sep = get_path_separator h.platform
  let stamped = base_dir ++ (sep ++ put_time b'-' b'_' b'-' (h.local_time (h.now k)))
  in_stamped ← create_directories h stamped
  if in_stamped then pure (stamped ++ (sep ++ filename)) else do
    in_base ← create_directories h base_dir
    pure (if in_base then base_dir ++ (sep ++ filename) else filename)
