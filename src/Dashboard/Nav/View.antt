-- ===== src/Dashboard/Nav/View.antt =====
-- dashboard/src/components/CommandPalette.tsx: what the palette shows.
use go_php.Prelude.{String, Option, none, some, List, [], ◌∷◌, map, ◌≡◌, refl, if◌then◌else◌}
use go_php.Dashboard.Nav.{Shell, Command, matching, select}

pub data Listed : Type 0 where
  no_commands : Listed
  entries : List String → Listed

listed : List Command → Listed
listed [] = no_commands
listed (c ∷ cs) = entries (map (λ (x : Command). x.label) (c ∷ cs))

-- The input's text with the list, or nothing while the palette is closed.
unfoldable palette : (String → String) → Shell → Option (String × Listed)
unfolding listed
palette lower s = if s.palette_open then some (s.query, listed (matching lower s)) else none

-- An entry that is chosen takes the palette away.
palette-select :
    (lower : String → String) (c : Command) (s : Shell) → palette lower (select c.action s) ≡ none
unfolding palette select
palette-select lower c s = refl
