-- ===== src/LogSink/Opening.antt =====
-- file_log_sink.cpp: the constructor, whatever the file system answers.
use vnelogging.Common.{
  suc, ◌≡◌, ◌≢◌, ◌⊎◌, inl, inr, refl, subst, ap, ◌∙◌, Bool, true, false, [], ◌∷◌, ◌++◌, Bool-cases,
  Text, codes,
}
use vnelogging.Host.{Host, Outcome, returned, thrown, World}
use vnelogging.LogSink.{
  FileStream, closed, ensure_parent, make_directory, unless_there, open_after, open_stream,
  try_open, caught, new_file,
}

Outcome-cases {ℓ} :
    {A : Type ℓ} (o : Outcome A)
    → ((a : A) × (o ≡ returned a)) ⊎ ((what : Text) × (o ≡ thrown what))
Outcome-cases (returned a) = inl (a, refl)
Outcome-cases (thrown what) = inr (what, refl)

abbrev pub opened : FileStream
opened = record { is_open = true; accepted = []; flushed = [] }

abbrev screen : World → Text × Text
screen w = (w.stdout, w.stderr)

module _ (h : Host) where
  screen-unless_there :
      (dir : Text) (o : Outcome Bool) (w : World) → screen (unless_there h dir o w).1 ≡ screen w
  unfolding unless_there make_directory
  screen-unless_there dir (returned true) w = refl
  screen-unless_there dir (returned false) w = refl
  screen-unless_there dir (thrown what) w = refl

  screen-ensure_parent : (dir : Text) (w : World) → screen (ensure_parent h dir w).1 ≡ screen w
  unfolding ensure_parent
  screen-ensure_parent [] w = refl
  screen-ensure_parent (c ∷ dir) w =
      screen-unless_there (c ∷ dir) (h.exists w.ticks (c ∷ dir)) (record w { ticks = suc w.ticks })

  -- The two ways the `try` block ends.
  Ending : Text → Outcome FileStream → Type 0
  Ending filename o =
      ((o ≡ returned opened) × (filename ≢ [])) ⊎ ((what : Text) × (o ≡ thrown what))

  open_stream-Ending :
      (filename : Text) (append : Bool) (w : World)
      → filename ≢ []
      → let (o, v) = open_stream h filename append w in Ending filename o × (screen v ≡ screen w)
  unfolding open_stream Ending
  open_stream-Ending filename append w named =
      elim (Bool-cases (h.open_file w.ticks filename append)) [
        | inl y ↦ (inl (rw y refl, named), refl)
        | inr n ↦ (
          inr (codes "Couldn't open file " ++ (filename ++ codes " for write."), rw n refl),
          refl,
        )
      ]

  open_after-Ending :
      (filename : Text) (append : Bool) (made : Outcome Bool) (w : World)
      → filename ≢ []
      → let (o, v) = open_after h filename append made w in
        Ending filename o × (screen v ≡ screen w)
  unfolding open_after Ending
  open_after-Ending filename append (returned b) w named =
      open_stream-Ending filename append w named
  open_after-Ending filename append (thrown what) w named = (inr (what, refl), refl)

  try_open-Ending :
      (filename : Text) (append : Bool) (w : World)
      → let (o, v) = try_open h filename append w in Ending filename o × (screen v ≡ screen w)
  unfolding try_open Ending
  try_open-Ending [] append w = (inr (codes "No log file specified.", refl), refl)
  try_open-Ending (c ∷ name) append w =
      let (made, v) = ensure_parent h (h.parent_path (c ∷ name)) w in
      let (o, same) = open_after-Ending (c ∷ name) append made v (λ y. cc) in
      (o, same ∙ screen-ensure_parent (h.parent_path (c ∷ name)) w)

  -- A stream as it is after the constructor, with what the constructor adds to the error output.
  abbrev pub Result : Text → FileStream → Text → Text → Type 0
  Result filename stream before after =
      ((stream ≡ opened) × (after ≡ before) × (filename ≢ []))
      ⊎ ((what : Text) × (stream ≡ closed)
          × (after ≡ before ++ (codes "[ERROR] : " ++ (what ++ b'\n' ∷ []))))

  caught-Result :
      (filename : Text) (o : Outcome FileStream) (w : World)
      → Ending filename o
      → let (stream, v) = caught o w in
        Result filename stream w.stderr v.stderr × (v.stdout ≡ w.stdout)
  unfolding caught Ending
  caught-Result filename (returned stream) w (inl (e, named)) = (inl (cc, refl, named), refl)
  caught-Result filename (returned stream) w (inr (what, e)) = cc e
  caught-Result filename (thrown what) w (inl (e, named)) = cc e
  caught-Result filename (thrown what) w (inr (text, e)) = (inr (what, refl, refl), refl)

-- The constructor of a file sink never fails outwards, whatever the file system answers or throws:
-- the sink has the given name and mode, and either its stream is open and nothing was reported, for
-- a name that is not empty, or its stream is closed and exactly "[ERROR] : ", a text and a newline
-- were added to the error output. The standard output is untouched.
pub new_file-Result :
    (h : Host) (filename : Text) (append : Bool) (w : World)
    → let (sink, v) = new_file h filename append w in
      (sink.file_name ≡ filename)
      × (sink.is_append ≡ append)
      × (v.stdout ≡ w.stdout)
      × Result h filename sink.file_stream w.stderr v.stderr
unfolding new_file
new_file-Result h filename append w =
    let (o, same) = try_open-Ending h filename append w in
    let (outcome, u) = try_open h filename append w in
    let (result, out) = caught-Result h filename outcome u o in
    (
      refl,
      refl,
      out ∙ ap (λ (p : Text × Text). p.0) same,
      subst (λ before. Result h filename (caught outcome u).0 before (caught outcome u).1.stderr)
          (ap (λ (p : Text × Text). p.1) same) result,
    )

-- The pattern until another one is set.
pub pattern-new_file :
    (h : Host) (filename : Text) (append : Bool) (w : World)
    → (new_file h filename append w).0.pattern ≡ codes "%x [%l] [%!] %v"
unfolding new_file
pattern-new_file h filename append w = refl
