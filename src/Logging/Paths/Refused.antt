-- ===== src/Logging/Paths/Refused.antt =====
-- logging.cpp: `createLoggingFolder` where the file system refuses.
use vnelogging.Common.{ℕ, ◌≡◌, ◌≢◌, refl, Bool, true, false, Text, is_empty, inl, inr, Bool-cases}
use vnelogging.Host.{
  Host, Platform, windows, macos, ios, visionos, android, linux, web, Outcome, returned, thrown,
  World, pure,
}
use vnelogging.Logging.Paths.{
  create_on_disk, there_or_made, make_all, made, create_directories, create_logging_folder,
  ensure_log_directory_exists,
}

-- An answer that is no success: "no", or an exception.
abbrev pub Refuses : Outcome Bool → Type 0
Refuses (returned true) = ⊥
Refuses (returned false) = Unit
Refuses (thrown what) = Unit

-- A host with a file system in which nothing is there and nothing can be made.
pub record IsReluctant (h : Host) : Type 0 where
  pub has_files : h.platform ≢ web
  pub absent : (k : ℕ) (path : Text) → Refuses (h.exists k path)
  pub refused : (k : ℕ) (path : Text) → Refuses (h.create_directories k path)

made-refused : (o : Outcome Bool) → Refuses o → made o ≡ false
unfolding made
made-refused (returned true) r = absurd r
made-refused (returned false) r = refl
made-refused (thrown what) r = refl

module _ (h : Host) (v : IsReluctant h) where
  there_or_made-refused :
      (path : Text) (o : Outcome Bool) (w : World)
      → Refuses o
      → (there_or_made h path o w).0 ≡ false
  unfolding there_or_made make_all
  there_or_made-refused path (returned true) w r = absurd r
  there_or_made-refused path (returned false) w r = made-refused _ (v.refused w.ticks path)
  there_or_made-refused path (thrown what) w r = refl

  create_on_disk-refused : (path : Text) (w : World) → (create_on_disk h path w).0 ≡ false
  unfolding create_on_disk
  create_on_disk-refused path w = elim (Bool-cases (is_empty path)) [
    | inl e ↦ rw e refl
    | inr n ↦ rw n (there_or_made-refused path (h.exists w.ticks path) _ (v.absent w.ticks path))
  ]

  create_directories-refused : (path : Text) (w : World) → (create_directories h path w).0 ≡ false
  unfolding create_directories
  create_directories-refused path w = at h.platform v.has_files
    where
      at :
          (p : Platform)
          → p ≢ web
          → (elim p as (λ _. World → Bool × World) [ web ↦ pure true | _ ↦ create_on_disk h path ]
              w).0
            ≡ false
      at windows ne = create_on_disk-refused path w
      at macos ne = create_on_disk-refused path w
      at ios ne = create_on_disk-refused path w
      at visionos ne = create_on_disk-refused path w
      at android ne = create_on_disk-refused path w
      at linux ne = create_on_disk-refused path w
      at web ne = absurd (ne refl)

-- Where no directory is there and none can be made, by whatever answers and exceptions, outside the
-- web, createLoggingFolder answers the bare file name and ensureLogDirectoryExists answers false.
pub create_logging_folder-refused :
    (h : Host)
    → IsReluctant h
    → (base_dir filename : Text) (w : World)
    → ((create_logging_folder h base_dir filename w).0 ≡ filename)
      × ((ensure_log_directory_exists h base_dir w).0 ≡ false)
unfolding create_logging_folder ensure_log_directory_exists
create_logging_folder-refused h v base_dir filename w = (
  rw (create_directories-refused h v _ _) (rw (create_directories-refused h v base_dir _) refl),
  elim (Bool-cases (is_empty base_dir)) [
    | inl e ↦ rw e refl
    | inr n ↦ rw n (create_directories-refused h v base_dir w)
  ],
)
