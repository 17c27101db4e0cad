-- ===== src/PathUtils.antt =====
-- include/vertexnova/logging/utils/path_utils.h: the directories of the project. The macros come from
-- the config.h that the build generates, and each may be undefined.
use vnelogging.Common.{Option, none, some, [], Text}

-- The macros of config.h that the header tests.
pub record Config : Type 0 where
  pub vne_root_dir : Option Text
  pub vne_src_dir : Option Text
  pub vne_include_dir : Option Text
  pub vne_third_party_dir : Option Text
  pub vne_tests_dir : Option Text
  pub vne_test_data_dir : Option Text
  pub vne_build_dir : Option Text

-- `#ifdef`: the macro's text, or `std::string()`.
or_empty : Option Text → Text
or_empty none = []
or_empty (some text) = text

module _ (config : Config) where
  unfoldable pub get_root_dir : Text
  unfolding or_empty
  get_root_dir = or_empty config.vne_root_dir

  unfoldable pub get_src_dir : Text
  unfolding or_empty
  get_src_dir = or_empty config.vne_src_dir

  unfoldable pub get_include_dir : Text
  unfolding or_empty
  get_include_dir = or_empty config.vne_include_dir

  unfoldable pub get_third_party_dir : Text
  unfolding or_empty
  get_third_party_dir = or_empty config.vne_third_party_dir

  unfoldable pub get_tests_dir : Text
  unfolding or_empty
  get_tests_dir = or_empty config.vne_tests_dir

  unfoldable pub get_test_data_dir : Text
  unfolding or_empty
  get_test_data_dir = or_empty config.vne_test_data_dir

  unfoldable pub get_build_dir : Text
  unfolding or_empty
  get_build_dir = or_empty config.vne_build_dir
