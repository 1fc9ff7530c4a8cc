-- ===== src/Dashboard/Logs.antt =====
-- dashboard/src/pages/Logs.tsx: the log stream over a WebSocket, with polling while it is down.
-- `toLowerCase` is the parameter `lower`: its tables are not part of the repository. `Unknown` is
-- the type of an entry's `extra`.
pub mod Laws
use go_php.Prelude.{
  ℕ, ◌-◌, String, Option, none, some, Bool, true, false, not, ◌||◌, ◌&&◌, List, [], ◌∷◌, ◌++◌,
  str_eq, length, drop, filter, ltb, if◌then◌else◌,
}
use go_php.Prelude.Text.{includes}
use go_php.Dashboard.Types.{LogEntry}
use go_php.Dashboard.Hooks.{
  Fetch, Settled, resolved, rejected, mounts, unmounts, refetches, settles,
}
use go_php.Dashboard.Hooks

pub record Page (Unknown : Type 0) : Type 0 where
  pub data_ : Fetch (List (LogEntry Unknown))
  pub entries : List (LogEntry Unknown)
  pub search : String
  pub filter_level : String
  pub ws_connected : Bool

pub data Event (Unknown : Type 0) : Type 0 where
  fetches : Hooks.Event (List (LogEntry Unknown)) → Event Unknown
  ws_opens ws_closes ws_fails ticks : Event Unknown
  -- `none` is a frame that JSON.parse throws on
  ws_message : Option (LogEntry Unknown) → Event Unknown
  searches filters : String → Event Unknown

-- prev.slice(-499): all of a list that is shorter
unfoldable pub slice_tail {ℓ} : {A : Type ℓ} → ℕ → List A → List A
slice_tail n xs = drop (length xs - n) xs

-- [...prev.slice(-499), entry]
unfoldable pub push_entry {ℓ} : {A : Type ℓ} → List A → A → List A
unfolding slice_tail
push_entry prev e = slice_tail 499 prev ++ e ∷ []

module _ {Unknown : Type 0} where
  unfoldable pub initial : Page Unknown
  unfolding Hooks.initial
  initial = record {
    data_ = Hooks.initial;
    entries = [];
    search = "";
    filter_level = "all";
    ws_connected = false;
  }

  -- The effect on [data]: a value that has arrived replaces the entries.
  arrive : Hooks.Event (List (LogEntry Unknown)) → Page Unknown → Page Unknown
  arrive (settles (resolved es)) p = if p.data_.mounted then record p { entries = es } else p
  arrive (settles (rejected e)) p = p
  arrive mounts p = p
  arrive unmounts p = p
  arrive refetches p = p

  unfoldable pub on_fetch : Hooks.Event (List (LogEntry Unknown)) → Page Unknown → Page Unknown
  unfolding arrive
  on_fetch e p = arrive e (record p { data_ = Hooks.step p.data_ e })

  -- useInterval's second argument: wsConnected ? null : 3000
  unfoldable pub poll_period : Page Unknown → Option ℕ
  poll_period p = if p.ws_connected then none else some 3000

  -- The timer's callback, which runs only while there is a period.
  unfoldable pub tick : Page Unknown → Page Unknown
  unfolding poll_period Hooks.load
  tick p = elim (poll_period p) [
    | none ↦ p
    | some ms ↦ if p.ws_connected then p else record p { data_ = Hooks.load p.data_ }
  ]

  unfoldable pub on_message : Option (LogEntry Unknown) → Page Unknown → Page Unknown
  unfolding push_entry
  on_message none p = p
  on_message (some e) p = record p { entries = push_entry p.entries e }

  unfoldable pub step : Page Unknown → Event Unknown → Page Unknown
  step p (fetches e) = on_fetch e p
  step p ws_opens = record p { ws_connected = true }
  step p ws_closes = record p { ws_connected = false }
  step p ws_fails = record p { ws_connected = false }
  step p ticks = tick p
  step p (ws_message m) = on_message m p
  step p (searches s) = record p { search = s }
  step p (filters l) = record p { filter_level = l }

  unfoldable pub run : Page Unknown → List (Event Unknown) → Page Unknown
  run p [] = p
  run p (e ∷ es) = run (step p e) es

-- The classes of a level.
unfoldable pub level_color : (String → String) → String → String
level_color lower level =
    if str_eq (lower level) "error"
    then "text-error"
    else if str_eq (lower level) "warn"
    then "text-warning"
    else if str_eq (lower level) "info"
    then "text-info"
    else if str_eq (lower level) "debug"
    then "text-text-muted"
    else "text-text-secondary"

-- The body of the card.
pub data Feed (Unknown : Type 0) : Type 0 where
  connecting no_entries : Feed Unknown
  lines : List (LogEntry Unknown) → Feed Unknown

module _ {Unknown : Type 0} where
  feed_of : List (LogEntry Unknown) → Feed Unknown
  feed_of [] = no_entries
  feed_of (e ∷ es) = lines (e ∷ es)

  is_empty : List (LogEntry Unknown) → Bool
  is_empty [] = true
  is_empty (e ∷ es) = false

-- What is shown.
module _ {Unknown : Type 0} (lower : String → String) where
  unfoldable pub matches : String → String → LogEntry Unknown → Bool
  matches search level e =
      includes (lower e.message) (lower search)
      && (str_eq level "all" || str_eq (lower e.level) level)

  unfoldable pub filtered : Page Unknown → List (LogEntry Unknown)
  unfolding matches
  filtered p = filter (matches p.search p.filter_level) p.entries

  unfoldable pub feed : Page Unknown → Feed Unknown
  unfolding feed_of filtered is_empty
  feed p = if p.data_.loading && is_empty p.entries then connecting else feed_of (filtered p)
