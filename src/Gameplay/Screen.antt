-- ===== src/Gameplay/Screen.antt =====
-- What a recognised screen text means: startup_menu, startup_action and action of
-- runtime/kosmickrisp/gameplay.py, and menu_observation of investigation_analysis.py.
use winecx_gptk.Common.{
  ℕ, Bool, false, not, ◌&&◌, ◌||◌, Option, none, some, List, [], ◌∷◌, ◌++◌, ◌==◌, leb,
  if◌then◌else◌,
}
use winecx_gptk.Common.Text.{Text, codes, contains, upper, any_in}

-- `str.split()` cuts at these (the ASCII white space).
is_space : ℕ → Bool
is_space c = c == 32 || (leb 9 c && leb c 13 || (leb 28 c && leb c 31))

abbrev emit : Text → List Text → List Text
emit [] rest = rest
emit (c ∷ cs) rest = (c ∷ cs) ∷ rest

-- `text.split()`, with the word that is being read.
split_from : Text → Text → List Text
unfolding is_space
split_from word [] = emit word []
split_from word (c ∷ cs) =
    let cut = emit word (split_from [] cs) in
    let more = split_from (word ++ c ∷ []) cs in if is_space c then cut else more

-- `' '.join(words)`
join_space : List Text → Text
join_space [] = []
join_space (w ∷ []) = w
join_space (w ∷ v ∷ vs) = w ++ 32 ∷ join_space (v ∷ vs)

unfoldable pub startup_menu : Text → Bool
unfolding split_from join_space any_in upper
startup_menu raw =
    let text = join_space (split_from [] (upper raw)) in
    contains (codes "CONTINUE GAME") text
    && ((contains (codes "SELECT") text || contains (codes "BACK") text)
        && not (any_in (codes "PAUSED" ∷ codes "LOADING" ∷ codes "QUIT TO MAIN MENU" ∷ []) text))

-- The commands that the helper receives. Positions of `move` are thousandths of the window.
pub data Input : Type 0 where
  key : ℕ → Option ℕ → Input
  move : ℕ → ℕ → Input

action_finished : Text → Option Input
action_finished text =
    if contains (codes "PAUSED") text
    then some (if contains (codes "QUIT TO MAIN MENU") text then key 49 none else move 701 878)
    else if contains (codes "QUIT GAME") text
    then some (key 49 none)
    else if contains (codes "CONTINUE GAME") text
    then some (move 665 878)
    else if contains (codes "PRESS ANY") text
    then some (key 49 none)
    else none

action_running : Text → Option Input
action_running text =
    if contains (codes "BOONTA") text && contains (codes "LAP") text
    then none
    else if contains (codes "PRESS ANY") text
        || (contains (codes "CONTINUE GAME") text
            || (((contains (codes "AUTOSAVE") text || contains (codes "AUT05AVE") text)
                  && contains (codes "OK") text)
                || (contains (codes "SEIZURE WARNING") text && contains (codes "CONTINUE") text)))
    then some (key 49 none)
    else if contains (codes "SKIP") text
    then some (key 3 (some 3))
    else none

unfoldable pub action : Text → Bool → Option Input
unfolding action_finished action_running upper
action raw finished =
    let text = upper raw in if finished then action_finished text else action_running text

unfoldable pub startup_action : Text → Option Input
unfolding action
startup_action text =
    if contains (codes "CONTINUE GAME") (upper text) then none else action text false

-- `menu_observation` of investigation_analysis.py
unfoldable pub menu_observation : Text → Bool
unfolding any_in upper
menu_observation raw =
    let text = upper raw in
    contains (codes "CONTINUE GAME") text
    && ((contains (codes "SELECT") text || contains (codes "BACK") text)
        && not (any_in (codes "PAUSED" ∷ codes "LOADING" ∷ []) text))
