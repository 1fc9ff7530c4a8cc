-- ===== src/Witnesses/Shell.antt =====
-- The shell and the configuration page at concrete inputs.
use go_php.Prelude.{◌≡◌, refl, some, true, List, [], ◌∷◌}
use go_php.Dashboard.Json.{Json, text, object, get_field, set_field, field, end}
use go_php.Dashboard.Config
use go_php.Dashboard.Config.{update, split_dots}
use go_php.Dashboard.Config.Update.{Written, update-Written}
use go_php.Dashboard.Nav
use go_php.Dashboard.Nav.Laws.{theme_persists}

abbrev small : Json
small = object (field "php" (object (field "binary" (text "php") end)) end)

abbrev smaller : Json
smaller = object (field "php" (object (field "binary" (text "php8") end)) end)

update-Written_example : Written (split_dots "php.binary") (text "php8") small smaller
update-Written_example = update-Written "php.binary" (text "php8") small smaller done
  where
    done : update "php.binary" (text "php8") small ≡ Config.done smaller
    done = unfold update get_field set_field in refl

abbrev evening : List Nav.Event
evening =
    Nav.presses true "k"
    ∷ Nav.toggles_theme
    ∷ Nav.follows "/sites"
    ∷ Nav.types "dark"
    ∷ Nav.selects Nav.switch_theme
    ∷ []

theme_persists_example :
    (Nav.start (Nav.run (Nav.start (some "light") "/") evening).stored_theme "/logs").dark_mode
    ≡ (Nav.run (Nav.start (some "light") "/") evening).dark_mode
theme_persists_example = theme_persists (some "light") "/" "/logs" evening
