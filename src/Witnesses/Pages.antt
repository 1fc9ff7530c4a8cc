-- ===== src/Witnesses/Pages.antt =====
-- Sites, logs and extensions of a small gateway.
use go_php.Prelude.{
  ℕ, ◌≤◌, ◌≡◌, String, none, some, true, false, List, [], ◌∷◌, ◌++◌, length, last_n, arith,
}
use go_php.Prelude.Int.{pos}
use go_php.Dashboard.Types.{Site, active, LogEntry}
use go_php.Dashboard.Hooks
use go_php.Dashboard.Hooks.{resolved, rejected, error_object, refetches, unmounts, settles}
use go_php.Dashboard.Hooks.Laws.{Shows, run-initial-Shows, last_value, value-run-initial}
use go_php.Dashboard.Client.Calls.{update_site}
use go_php.Dashboard.Logs
use go_php.Dashboard.Logs.Laws.{messages, entries-run-messages}
use go_php.Dashboard.Extensions
use go_php.Dashboard.Extensions.Laws.{Inv, run-initial-Inv}
use go_php.Dashboard.Sites
use go_php.Dashboard.Sites.Handlers
use go_php.Dashboard.Sites.Handlers.{submit_call, toggle_ext}
use go_php.Dashboard.Sites.Laws.{edit-submit_unchanged, Clean, run-initial-Clean}

-- Two loads overlap: the second fails, then the first arrives.
abbrev overlapping : List (Hooks.Event ℕ)
overlapping =
    refetches
    ∷ settles (rejected (error_object "502"))
    ∷ settles (resolved 7)
    ∷ unmounts
    ∷ settles (resolved 8)
    ∷ []

run-initial-Shows_example : Shows (Hooks.run Hooks.initial overlapping)
run-initial-Shows_example = run-initial-Shows overlapping

value-run-initial_example :
    (Hooks.run Hooks.initial overlapping).value ≡ last_value true none overlapping
value-run-initial_example = value-run-initial overlapping

abbrev line : String → LogEntry ℕ
line m = record { timestamp = "10:00"; level = "info"; message = m; extra = none }

abbrev lines : List (LogEntry ℕ)
lines = line "a" ∷ line "b" ∷ []

entries-run-messages_example :
    (Logs.run Logs.initial (messages lines)).entries ≡ last_n 500 (Logs.initial.entries ++ lines)
entries-run-messages_example = entries-run-messages Logs.initial lines few
  where
    few : length (Logs.initial {Unknown = ℕ}).entries ≤ 500
    few = unfold Logs.initial in omega arith

abbrev clicks : List Extensions.Event
clicks =
    Extensions.selects "minimal"
    ∷ Extensions.toggles "xdebug"
    ∷ Extensions.saves
    ∷ Extensions.saves
    ∷ Extensions.save_waited
    ∷ Extensions.timer_fired
    ∷ []

run-initial-Inv_example : Inv (Extensions.run Extensions.initial clicks)
run-initial-Inv_example = run-initial-Inv clicks

abbrev blog : Site
blog = record {
  id = "blog";
  name = "Blog";
  port = pos 8085;
  webroot = "/srv/blog";
  domain = "";
  php_version = "8.3";
  status = active;
  routes = 2;
  ssl = false;
  created_at = "2024-01-01";
  updated_at = "2024-01-02";
  extensions = some ("gd" ∷ "zip" ∷ []);
  profile = some "wordpress";
}

edit-submit_unchanged_example :
    submit_call (Sites.open_edit blog Sites.initial) "2024-02-01"
    ≡ update_site "blog" (record blog { updated_at = "2024-02-01" })
edit-submit_unchanged_example =
    edit-submit_unchanged blog Sites.initial "2024-02-01" (λ e. cc) (λ e. cc)

abbrev visits : List Handlers.Event
visits =
    Handlers.edits blog
    ∷ Handlers.toggles_ext "xml"
    ∷ Handlers.closes
    ∷ Handlers.creates
    ∷ Handlers.submits Sites.initial (resolved tt)
    ∷ []

run-initial-Clean_example : Clean (Handlers.run Sites.initial visits)
run-initial-Clean_example = run-initial-Clean visits
