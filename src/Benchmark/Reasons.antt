-- ===== src/Benchmark/Reasons.antt =====
-- A run that analyze of runtime/kosmickrisp/benchmark.py has no reason to leave out.
use winecx_gptk.Common.{
  Bool, true, false, not, ◌&&◌, ◌||◌, Option, none, some, List, [], ◌∷◌, ◌++◌, all, AllOf, ◌⊎◌, inl,
  inr, Bool-cases, ◌≡◌, refl, ap, arith,
}
use winecx_gptk.Common.Text.{Text, codes, text_eq_sound}
use winecx_gptk.Benchmark.Jobs.{Settings, library_key}
use winecx_gptk.Benchmark.Analysis.{Summary, Hashes, Reason, get, is_text, note, reasons_of}

-- A run with its evidence, in the requested settings, on the driver and the scene of the plan.
pub record Sound {F : Type 0} (h : Hashes) (settings : Settings) (s : Summary F) : Type 0 where
  pub has_frames : s.frames_error ≡ false
  pub has_backend : s.backend_verified ≡ true
  pub no_errors : s.errors ≡ false
  pub no_rejections : s.rejections ≡ false
  pub requested : AllOf (λ (kv : Text × Text). get kv.0 s.effective ≡ some kv.1) settings
  pub library : (get library_key settings ≡ some (codes "False")) ⊎ (s.gpl ≡ true)
  pub same_driver : s.driver_sha256 ≡ some h.driver
  pub same_scene : s.scene_sha256 ≡ some h.scene
  pub exited : (s.natural_exit ≡ false) ⊎ (s.returncode ≡ false)

is_text_sound : (o : Option Text) (t : Text) → is_text o t ≡ true → o ≡ some t
is_text_sound none t h = absurd (ground arith)
is_text_sound (some s) t h = ap some (text_eq_sound s t h)

note-nil :
    (b : Bool) (r : Reason) (rest : List Reason) → note b r ++ rest ≡ [] → (b ≡ false) × (rest ≡ [])
note-nil false r rest e = (refl, e)
note-nil true r rest e = ground arith

note-nil_last : (b : Bool) (r : Reason) → note b r ≡ [] → b ≡ false
note-nil_last false r e = refl
note-nil_last true r e = ground arith

requested_all :
    (effective settings : Settings)
    → all (λ kv. is_text (get kv.0 effective) kv.1) settings ≡ true
    → AllOf (λ (kv : Text × Text). get kv.0 effective ≡ some kv.1) settings
requested_all effective [] h = tt
requested_all effective (kv ∷ kvs) h = (
  is_text_sound (get kv.0 effective) kv.1 (ground arith),
  requested_all effective kvs (ground arith),
)

library_of :
    (o : Option Text) (gpl : Bool)
    → (not (is_text o (codes "False")) && not gpl) ≡ false
    → (o ≡ some (codes "False")) ⊎ (gpl ≡ true)
library_of o gpl h = elim (Bool-cases gpl) [
  | inl g ↦ inr g
  | inr g ↦ inl (is_text_sound o (codes "False") (ground arith))
]

exit_of : (natural code : Bool) → (natural && code) ≡ false → (natural ≡ false) ⊎ (code ≡ false)
exit_of true code h = inr h
exit_of false code h = inl refl

-- Nothing is held against a run only if it is sound.
pub reasons_of-Sound :
    {F : Type 0} (h : Hashes) (settings : Settings) (s : Summary F)
    → reasons_of h settings s ≡ []
    → Sound h settings s
unfolding reasons_of
reasons_of-Sound h settings s e =
    let n1 = note-nil (s.frames_error || not s.backend_verified) _ _ e in
    let n2 = note-nil (s.errors || s.rejections) _ _ n1.1 in
    let n3 = note-nil (not (all (λ kv. is_text (get kv.0 s.effective) kv.1) settings)) _ _ n2.1 in
    let n4 =
      note-nil (not (is_text (get library_key settings) (codes "False")) && not s.gpl) _ _ n3.1 in
    let n5 = note-nil (not (is_text s.driver_sha256 h.driver)) _ _ n4.1 in
    let n6 = note-nil (not (is_text s.scene_sha256 h.scene)) _ _ n5.1 in
    let n7 = note-nil_last (s.natural_exit && s.returncode) _ n6.1 in
    record {
      has_frames = ground (arith, n1.0);
      has_backend = ground (arith, n1.0);
      no_errors = ground (arith, n2.0);
      no_rejections = ground (arith, n2.0);
      requested = requested_all s.effective settings (ground (arith, n3.0));
      library = library_of (get library_key settings) s.gpl n4.0;
      same_driver = is_text_sound s.driver_sha256 h.driver (ground (arith, n5.0));
      same_scene = is_text_sound s.scene_sha256 h.scene (ground (arith, n6.0));
      exited = exit_of s.natural_exit s.returncode n7;
    }
