-- ===== src/Investigate/Profile/Replacing.antt =====
-- replace_save of runtime/kosmickrisp/gameplay.py: it ends with the new saves, whatever else holds of
-- the disk is kept, and the old saves are not lost before the new ones are in their place.
use winecx_gptk.Common.{Bool, true, false, Option, none, some, is_some, ◌≡◌, refl, if◌then◌else◌}
use winecx_gptk.Common.Text.{Text}
use winecx_gptk.Investigate.Profile.Disk.{Disk, Done, ok, failed, write, whole}
use winecx_gptk.Investigate.Profile.Saves.{
  os_error, Flagged, put_stage, tear_stage, drop_stage, move_away, move_back, move_in,
  drop_previous, moved_back, after_failed_move, moved_in, move_stage, moved_away, set_aside, staged,
  stage_saves, clean_up, failed_with, finish, new_stage, replace_save,
}
use winecx_gptk.Investigate.Profile.Triples.{At, Calm, Ends, Spec, Spec-then, Spec-write, Ends-if}

module _ {S : Type 0} where
  -- The places that `replace_save` works on.
  abbrev pub with_saves : Option S → Bool → Option S → Option S → Disk S → Disk S
  with_saves saves has_stage stage previous d = record d {
    saves = saves;
    has_stage = has_stage;
    stage = stage;
    previous = previous;
  }

  -- What holds of a disk whatever stands in these places.
  pub record Frame (F : Disk S → Type 0) : Type 0 where
    pub keep :
        (saves : Option S) (has_stage : Bool) (stage previous : Option S) (d : Disk S)
        → F d
        → F (with_saves saves has_stage stage previous d)

module _ {S : Type 0} {F : Disk S → Type 0} (frame : Frame F) (source : S) where
  abbrev pub Replaced : Disk S → Type 0
  Replaced d = F d × (d.saves ≡ some source)

  -- The copy is complete.
  abbrev Staged : Disk S → Type 0
  Staged d = F d × (d.stage ≡ some source)

  -- The end of `try`.
  abbrev EndsFlagged : Bool → Flagged S → Type 0
  EndsFlagged calm (r, moved) = Ends calm r Replaced F

  moved_back-F : (e : Text) (r : Done S) → Ends false r F F → EndsFlagged false (moved_back e r)
  moved_back-F e (ok d) h = h.0
  moved_back-F e (failed e' d) h = h

  after_failed_move-F :
      (e : Text) (moved : Bool) (d : Disk S)
      → At F d
      → EndsFlagged false (after_failed_move e moved d)
  after_failed_move-F e false d h = h
  after_failed_move-F e true d h =
      moved_back-F e (write move_back whole os_error d) (back.run d h tt)
    where
      back : Spec false F (write move_back whole os_error) F F
      back =
          Spec-write move_back whole os_error (λ fs x. refl) (λ t s fs x. refl)
            (λ x k. frame.keep x.previous x.has_stage x.stage none x k) (λ x k. k) (λ x k. k)
            (λ t s x k. k)

  moved_in-Ends :
      (calm moved : Bool) (r : Done S)
      → Ends calm r Replaced F
      → EndsFlagged calm (moved_in moved r)
  moved_in-Ends calm moved (ok d) h = h
  moved_in-Ends true moved (failed e d) h = absurd h
  moved_in-Ends false moved (failed e d) h = after_failed_move-F e moved d h

  move_stage-Ends :
      (calm moved : Bool) (d : Disk S)
      → At Staged d
      → Calm calm d
      → EndsFlagged calm (move_stage moved d)
  move_stage-Ends calm moved d h c =
      moved_in-Ends calm moved (write move_in whole os_error d) (into.run d h c)
    where
      into : Spec calm Staged (write move_in whole os_error) Replaced F
      into =
          Spec-write move_in whole os_error (λ fs x. refl) (λ t s fs x. refl)
            (λ x k. (frame.keep x.stage false none x.previous x k.0, k.1)) (λ x k. k.0) (λ x k. k.0)
            (λ t s x k. k.0)

  moved_away-Ends :
      (calm : Bool) (r : Done S) → Ends calm r Staged F → EndsFlagged calm (moved_away r)
  moved_away-Ends calm (ok d) h = move_stage-Ends calm true d h.0 h.1
  moved_away-Ends true (failed e d) h = absurd h
  moved_away-Ends false (failed e d) h = h

  pick-Ends :
      (calm test : Bool) (a b : Flagged S)
      → EndsFlagged calm a
      → EndsFlagged calm b
      → EndsFlagged calm (if test then a else b)
  pick-Ends calm true a b h k = h
  pick-Ends calm false a b h k = k

  set_aside-Ends :
      (calm : Bool) (d : Disk S) → At Staged d → Calm calm d → EndsFlagged calm (set_aside d)
  set_aside-Ends calm d h c =
      pick-Ends calm (is_some d.saves) (moved_away (write move_away whole os_error d))
        (move_stage false d)
        (moved_away-Ends calm (write move_away whole os_error d) (away.run d h c))
        (move_stage-Ends calm false d h c)
    where
      away : Spec calm Staged (write move_away whole os_error) Staged F
      away =
          Spec-write move_away whole os_error (λ fs x. refl) (λ t s fs x. refl)
            (λ x k. (frame.keep none x.has_stage x.stage x.saves x k.0, k.1)) (λ x k. k.0)
            (λ x k. k.0) (λ t s x k. k.0)

  staged-Ends : (calm : Bool) (r : Done S) → Ends calm r Staged F → EndsFlagged calm (staged r)
  staged-Ends calm (ok d) h = set_aside-Ends calm d h.0 h.1
  staged-Ends true (failed e d) h = absurd h
  staged-Ends false (failed e d) h = h

  stage_saves-Ends :
      (calm : Bool) (d : Disk S) → At F d → Calm calm d → EndsFlagged calm (stage_saves source d)
  stage_saves-Ends calm d h c =
      staged-Ends calm (write (put_stage source) tear_stage os_error d) (copied.run d h c)
    where
      copied : Spec calm F (write (put_stage source) tear_stage os_error) Staged F
      copied =
          Spec-write (put_stage source) tear_stage os_error (λ fs x. refl) (λ t s fs x. refl)
            (λ x k. (frame.keep x.saves x.has_stage (some source) x.previous x k, refl)) (λ x k. k)
            (λ x k. k.0) (λ t s x k. frame.keep x.saves x.has_stage (some s) x.previous x k)

  -- The cleanup keeps what it does not touch.
  clean_up-Spec :
      (P : Disk S → Type 0) (calm moved : Bool)
      → ((d : Disk S) → P d → F d)
      → ((d : Disk S) → P d → P (drop_stage d))
      → ((d : Disk S) → P d → P (drop_previous d))
      → Spec calm P (clean_up moved) P F
  clean_up-Spec P calm moved f h k =
      Spec-then
        (record {
          run = λ d p c.
              Ends-if P F calm d.has_stage (write drop_stage whole os_error d) (ok d)
                (drop.run d p c) (p, c);
        })
        (record {
          run = λ d p c.
              Ends-if P F calm moved (write drop_previous whole os_error d) (ok d) (drop'.run d p c)
                (p, c);
        })
    where
      drop : Spec calm P (write drop_stage whole os_error) P F
      drop =
          Spec-write drop_stage whole os_error (λ fs x. refl) (λ t s fs x. refl) h f f
            (λ t s x p. f x p)

      drop' : Spec calm P (write drop_previous whole os_error) P F
      drop' =
          Spec-write drop_previous whole os_error (λ fs x. refl) (λ t s fs x. refl) k f f
            (λ t s x p. f x p)

  failed_with-F :
      (e : Text) (r : Done S) → Ends false r F F → Ends false (failed_with e r) Replaced F
  failed_with-F e (ok d) h = h.0
  failed_with-F e (failed e' d) h = h

  finish-Ends :
      (calm moved : Bool) (r : Done S)
      → Ends calm r Replaced F
      → Ends calm (finish (r, moved)) Replaced F
  finish-Ends calm moved (ok d) h =
      (clean_up-Spec Replaced calm moved (λ x p. p.0)
          (λ x p. (frame.keep x.saves false none x.previous x p.0, p.1))
          (λ x p. (frame.keep x.saves x.has_stage x.stage none x p.0, p.1))).run
        d h.0 h.1
  finish-Ends true moved (failed e d) h = absurd h
  finish-Ends false moved (failed e d) h = failed_with-F e (clean_up moved d) (
      (clean_up-Spec F false moved (λ x p. p) (λ x p. frame.keep x.saves false none x.previous x p)
          (λ x p. frame.keep x.saves x.has_stage x.stage none x p)).run
        d h tt)

  -- Where it succeeds the new saves are there, and without faults it succeeds.
  pub replace_save-Spec : (calm : Bool) → Spec calm F (replace_save (some source)) Replaced F
  unfolding replace_save
  replace_save-Spec calm =
      Spec-then
        (Spec-write new_stage whole os_error (λ fs x. refl) (λ t s fs x. refl)
          (λ x k. frame.keep x.saves true none none x k) (λ x k. k) (λ x k. k) (λ t s x k. k))
        (record { run = λ d h c. finish-Ends calm _ _ (stage_saves-Ends calm d h c) })
