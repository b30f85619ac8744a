-- ===== src/Gameplay/Launch/Tests.antt =====
-- `command_for` of runtime/kosmickrisp/gameplay.py on the command of tests/test_kosmickrisp_gameplay.py.
use winecx_gptk.Common.{List, [], ◌∷◌, ◌++◌, ◌≡◌, refl}
use winecx_gptk.Common.Text.{Text, codes}
use winecx_gptk.Gameplay.Launch.Redirected.{IsLaunch, command_for-Launches}
use winecx_gptk.Gameplay.Launch.{
  built, via_steam, no_assignment, redirected, walk, assign_missing, completed, command_for,
}

abbrev base : List Text
base =
    codes "python"
    ∷ codes "--runs"
    ∷ codes "old"
    ∷ codes "--seconds"
    ∷ codes "300"
    ∷ codes "--env"
    ∷ codes "KK_TEST_IDLE_TRIGGER=/old/trigger"
    ∷ []

abbrev command : List Text
command =
    codes "python"
    ∷ codes "--runs"
    ∷ codes "warm"
    ∷ codes "--seconds"
    ∷ codes "1200"
    ∷ codes "--env"
    ∷ codes "KK_TEST_IDLE_TRIGGER=/new/idle-trigger"
    ∷ codes "--cache-log"
    ∷ codes "--env"
    ∷ codes "MESA_KK_METAL_CONCURRENCY_LOG=/new/metal.jsonl"
    ∷ codes "--env"
    ∷ codes "MESA_KK_VARIANT_LOG=/new/variants.jsonl"
    ∷ []

stale_trigger : command_for base (codes "warm") (codes "/new") (codes "1200") ≡ built command
unfolding command_for completed walk redirected assign_missing
stale_trigger = refl

steam_rejected :
    command_for (base ++ (codes "--via-steam" ∷ [])) (codes "warm") (codes "/new") (codes "1200")
    ≡ via_steam
unfolding command_for completed walk redirected assign_missing
steam_rejected = refl

without_assignment :
    command_for (codes "--env" ∷ []) (codes "warm") (codes "/new") (codes "1200") ≡ no_assignment
unfolding command_for completed walk redirected assign_missing
without_assignment = refl

-- An item of the base command that only looks like an assignment counts as one: there is no
-- `--env` for the variable.
stray_assignment :
    command_for
      (codes "python" ∷ codes "KK_TEST_IDLE_TRIGGER=/old" ∷ [])
      (codes "warm")
      (codes "/new")
      (codes "1200")
    ≡ built (
        codes "python"
        ∷ codes "KK_TEST_IDLE_TRIGGER=/old"
        ∷ codes "--cache-log"
        ∷ codes "--env"
        ∷ codes "MESA_KK_METAL_CONCURRENCY_LOG=/new/metal.jsonl"
        ∷ codes "--env"
        ∷ codes "MESA_KK_VARIANT_LOG=/new/variants.jsonl"
        ∷ [])
unfolding command_for completed walk redirected assign_missing
stray_assignment = refl

command_for-Launches_example :
    (command : List Text) × ((command_for base (codes "warm") (codes "/new") (codes "1200")
        ≡ built command)
      × IsLaunch (codes "/new") command)
command_for-Launches_example =
    command_for-Launches base (codes "warm") (codes "/new") (codes "1200") refl refl
      (refl, (refl, (refl, tt)))
