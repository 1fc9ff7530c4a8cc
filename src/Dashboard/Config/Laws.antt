-- ===== src/Dashboard/Config/Laws.antt =====
-- The fields of the configuration form, and when the form is shown.
use go_php.Prelude.{String, ◌≡◌, refl, none, false, List, [], ◌∷◌, arith}
use go_php.Prelude.Int.{ℤ}
use go_php.Dashboard.Types.{GatewayConfig}
use go_php.Dashboard.Json.{Json, text, num, config_json, get_field, set_field}
use go_php.Dashboard.Hooks
use go_php.Dashboard.Hooks.{resolved, rejected, mounts, unmounts, refetches, settles}
use go_php.Dashboard.Config.{
  update, done, FormField, Page, Event, fetches, edits, resets, saves, closes_toast, saved, initial,
  step, run, shows_form, edit, reset, start_save, save_settled,
}

-- Every field of the form writes the field that it names, and no other.
abbrev pub EditsFields : GatewayConfig → String → ℤ → Type 0
EditsFields c v n =
    (update "server.addr" (text v) (config_json c)
      ≡ done (config_json (record c { server = record (c.server) { addr = v } })))
    × (update "server.read_timeout" (text v) (config_json c)
        ≡ done (config_json (record c { server = record (c.server) { read_timeout = v } })))
    × (update "server.write_timeout" (text v) (config_json c)
        ≡ done (config_json (record c { server = record (c.server) { write_timeout = v } })))
    × (update "php.binary" (text v) (config_json c)
        ≡ done (config_json (record c { php = record (c.php) { binary = v } })))
    × (update "php.socket_path" (text v) (config_json c)
        ≡ done (config_json (record c { php = record (c.php) { socket_path = v } })))
    × (update "php.max_children" (num n) (config_json c)
        ≡ done (config_json (record c { php = record (c.php) { max_children = n } })))
    × (update "php.request_timeout" (text v) (config_json c)
        ≡ done (config_json (record c { php = record (c.php) { request_timeout = v } })))
    × (update "logging.format" (text v) (config_json c)
        ≡ done (config_json (record c { logging = record (c.logging) { format = v } })))
    × (update "logging.level" (text v) (config_json c)
        ≡ done (config_json (record c { logging = record (c.logging) { level = v } })))
    × (update "security.symlink_mode" (text v) (config_json c)
        ≡ done (config_json (record c { security = record (c.security) { symlink_mode = v } })))
    × (update "security.max_body_size" (text v) (config_json c)
        ≡ done (config_json (record c { security = record (c.security) { max_body_size = v } })))

-- Each of the eleven fields of the form writes the field that it names, of any configuration, and no
-- other.
update-config_json : (c : GatewayConfig) (v : String) (n : ℤ) → EditsFields c v n
unfolding update get_field set_field
update-config_json c v n = (refl, refl, refl, refl, refl, refl, refl, refl, refl, refl, refl)

-- The page holds edits exactly if a configuration has arrived.
Arrived : Page → Type 0
Arrived p = p.config.value ≡ none → p.local ≡ none

fetch-Arrived : (p : Page) (e : Hooks.Event Json) → Arrived p → Arrived (step p (fetches e))
unfolding step Arrived Hooks.step
fetch-Arrived p (settles (resolved c)) h v = ground arith
fetch-Arrived p (settles (rejected x)) h v = ground arith
fetch-Arrived p mounts h v = h v
fetch-Arrived p unmounts h v = h v
fetch-Arrived p refetches h v = h v

edit-Arrived : (f : FormField) (v : Json) (p : Page) → Arrived p → Arrived (edit f v p)
unfolding edit Arrived
edit-Arrived f v p h e = ground arith

reset-Arrived : (p : Page) → Arrived p → Arrived (reset p)
unfolding reset Arrived
reset-Arrived p h e = ground arith

step-Arrived : (p : Page) (e : Event) → Arrived p → Arrived (step p e)
unfolding step Arrived save_settled
step-Arrived p (fetches e) h = fetch-Arrived p e h
step-Arrived p (edits f v) h = let k = edit-Arrived f v p h in λ e. ground arith
step-Arrived p resets h = let k = reset-Arrived p h in λ e. ground arith
step-Arrived p saves h = unfold start_save in λ e. ground arith
step-Arrived p closes_toast h = h
step-Arrived p (saved (resolved _)) h = h
step-Arrived p (saved (rejected x)) h = h

run-Arrived : (p : Page) (es : List Event) → Arrived p → Arrived (run p es)
unfolding run
run-Arrived p [] h = h
run-Arrived p (e ∷ es) h = run-Arrived (step p e) es (step-Arrived p e h)

-- As long as no configuration has arrived, the form is not shown, whatever else has happened: after a
-- load that failed the page still shows its loading text.
no_config_no_form :
    (es : List Event) → (run initial es).config.value ≡ none → shows_form (run initial es) ≡ false
unfolding Arrived initial shows_form
no_config_no_form es e = let k = run-Arrived initial es (λ _. refl) e in ground arith
