-- ===== src/Dashboard/Tester.antt =====
-- The request tracer of dashboard/src/pages/RequestExplorer.tsx, which dashboard/src/pages/Routes.tsx
-- holds a second time as its route tester: the URL, the last explanation, and whether a trace runs.
pub mod Inspector
pub mod Laws
pub mod View
use go_php.Prelude.{
  ℕ, zero, suc, String, Option, none, some, Bool, true, false, List, [], ◌∷◌, ◌++◌, if◌then◌else◌,
}
use go_php.Dashboard.Types.{Explanation}
use go_php.Dashboard.Hooks.{Settled, resolved, rejected}
use go_php.Dashboard.Client.Calls.{Call, explain_request}

-- `in_flight` holds the calls whose promises have not settled. It is no state of the page.
pub record Page : Type 0 where
  pub url : String
  pub result : Option Explanation
  pub loading : Bool
  pub in_flight : List Call

unfoldable pub initial : Page
initial = record { url = "/index.php"; result = none; loading = false; in_flight = [] }

-- handleTrace up to its await; the button is disabled while `loading`.
unfoldable pub trace : Page → Page
unfolding explain_request
trace p =
    if p.loading
    then p
    else record p { loading = true; in_flight = p.in_flight ++ explain_request p.url ∷ [] }

-- The call at a place settles: its result is shown, or none after an error, and loading ends.
abbrev remove_at : ℕ → List Call → List Call
remove_at n [] = []
remove_at zero (c ∷ cs) = cs
remove_at (suc n) (c ∷ cs) = c ∷ remove_at n cs

abbrev shown : Settled Explanation → Option Explanation
shown (resolved e) = some e
shown (rejected x) = none

abbrev call_at : ℕ → List Call → Option Call
call_at n [] = none
call_at zero (c ∷ cs) = some c
call_at (suc n) (c ∷ cs) = call_at n cs

unfoldable pub settle : ℕ → Settled Explanation → Page → Page
settle n r p = elim (call_at n p.in_flight) [
  | none ↦ p
  | some c ↦ record p { result = shown r; loading = false; in_flight = remove_at n p.in_flight }
]

pub data Event : Type 0 where
  types : String → Event
  traces : Event
  settles : ℕ → Settled Explanation → Event

unfoldable pub step : Page → Event → Page
unfolding trace settle
step p (types u) = record p { url = u }
step p traces = trace p
step p (settles n r) = settle n r p

unfoldable pub run : Page → List Event → Page
run p [] = p
run p (e ∷ es) = run (step p e) es
