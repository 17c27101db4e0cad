-- ===== src/Logging/Paths/Folders.antt =====
-- logging.cpp: the folders that `createLoggingFolder` makes.
use mathlib.Core.List.{append_cancel_left, append_cancel_right}
use vnelogging.Common.{
  ℕ, suc, ◌+◌, ◌≡◌, refl, sym, ap, ◌∙◌, ◌↔◌, ◌⊎◌, inl, inr, Bool, true, false, [], ◌∷◌, ◌++◌, Text,
  is_empty, arith,
}
use vnelogging.Common.Decimal.{to_string}
use vnelogging.TimeStamp.{Tm, put_time}
use vnelogging.TimeStamp.Reading.{IsCalendar, read_stamp, read_stamp-put_time}
use vnelogging.Host.{
  Host, Platform, windows, macos, ios, visionos, android, linux, web, returned, World, pure,
}
use vnelogging.Logging.Paths.{
  get_path_separator, create_on_disk, there_or_made, make_all, made, create_directories,
  create_logging_folder,
}

-- Every directory is there or can be made.
pub record IsWilling (h : Host) : Type 0 where
  pub makes :
      (k : ℕ) (path : Text)
      → (h.exists k path ≡ returned true)
        ⊎ ((h.exists k path ≡ returned false) × (h.create_directories (suc k) path ≡ returned true))

is_empty-append : (xs ys : Text) → is_empty ys ≡ false → is_empty (xs ++ ys) ≡ false
is_empty-append [] ys h = h
is_empty-append (x ∷ xs) ys h = refl

is_empty-put_time : (d b t : ℕ) (tm : Tm) → is_empty (put_time d b t tm) ≡ false
unfolding put_time
is_empty-put_time d b t tm = is_empty-append (to_string (1900 + tm.tm_year)) _ refl

module _ (h : Host) (v : IsWilling h) where
  create_on_disk-willing :
      (path : Text) (w : World) → is_empty path ≡ false → (create_on_disk h path w).0 ≡ true
  unfolding create_on_disk there_or_made make_all made
  create_on_disk-willing path w e = elim (v.makes w.ticks path) [
    | inl there ↦ rw (e, there) refl
    | inr new ↦ rw (e, new.0, there_or_made, new.1) refl
  ]

  create_directories-willing :
      (path : Text) (w : World) → is_empty path ≡ false → (create_directories h path w).0 ≡ true
  unfolding create_directories
  create_directories-willing path w e = at h.platform
    where
      at :
          (p : Platform)
          → (elim p as (λ _. World → Bool × World) [ web ↦ pure true | _ ↦ create_on_disk h path ]
              w).0
            ≡ true
      at windows = create_on_disk-willing path w e
      at macos = create_on_disk-willing path w e
      at ios = create_on_disk-willing path w e
      at visionos = create_on_disk-willing path w e
      at android = create_on_disk-willing path w e
      at linux = create_on_disk-willing path w e
      at web = refl

  -- The folder for a time, and a file in it.
  abbrev folder_file : Text → Text → ℕ → Text
  folder_file base_dir filename time =
      let sep = get_path_separator h.platform in
      (base_dir ++ (sep ++ put_time b'-' b'_' b'-' (h.local_time time))) ++ (sep ++ filename)

  create_logging_folder-willing :
      (base_dir filename : Text) (w : World)
      → (create_logging_folder h base_dir filename w).0
        ≡ folder_file base_dir filename (h.now w.ticks)
  unfolding create_logging_folder
  create_logging_folder-willing base_dir filename w =
      rw
        (create_directories-willing _ _ (
          is_empty-append base_dir _ (
            is_empty-append (get_path_separator h.platform) _
              (is_empty-put_time b'-' b'_' b'-' (h.local_time (h.now w.ticks))))))
        refl

  folder_file_injective :
      (base_dir filename : Text) (time time' : ℕ)
      → IsCalendar (h.local_time time)
      → IsCalendar (h.local_time time')
      → folder_file base_dir filename time ≡ folder_file base_dir filename time'
      → h.local_time time ≡ h.local_time time'
  folder_file_injective base_dir filename time time' c c' e =
      let sep = get_path_separator h.platform in
      let stamps =
        append_cancel_left sep _ _
          (append_cancel_left base_dir _ _ (append_cancel_right _ _ (sep ++ filename) e)) in
      sym (reads_back time c) ∙ ap (read_stamp b'-' b'_' b'-') stamps ∙ reads_back time' c'
    where
      reads_back :
          (t : ℕ)
          → IsCalendar (h.local_time t)
          → read_stamp b'-' b'_' b'-' (put_time b'-' b'_' b'-' (h.local_time t)) ≡ h.local_time t
      reads_back t v =
          read_stamp-put_time b'-' b'_' b'-' _ (inl (omega arith)) (inr (omega arith))
            (inl (omega arith)) v

-- Where every directory is there or can be made, two calls of createLoggingFolder for the same base
-- and file answer the same path exactly if the clock gives them the same local time.
pub create_logging_folder-eq_iff :
    (h : Host)
    → IsWilling h
    → (base_dir filename : Text) (w w' : World) → IsCalendar (h.local_time (h.now w.ticks))
    → IsCalendar (h.local_time (h.now w'.ticks))
    → ((create_logging_folder h base_dir filename w).0
        ≡ (create_logging_folder h base_dir filename w').0)
      ↔ (h.local_time (h.now w.ticks) ≡ h.local_time (h.now w'.ticks))
create_logging_folder-eq_iff h v base_dir filename w w' c c' =
    rw
      (
        create_logging_folder-willing h v base_dir filename w,
        create_logging_folder-willing h v base_dir filename w',
      )
      (
        folder_file_injective h v base_dir filename (h.now w.ticks) (h.now w'.ticks) c c',
        λ e.
            ap
              (λ tm.
                let sep = get_path_separator h.platform in
                (base_dir ++ (sep ++ put_time b'-' b'_' b'-' tm)) ++ (sep ++ filename))
              e,
      )
