-- ===== src/Dashboard/Tester/Laws.antt =====
-- The traces in flight.
use go_php.Prelude.{ℕ, zero, suc, ◌≡◌, refl, true, false, List, [], ◌∷◌, arith, ◌⊎◌, inl, inr}
use go_php.Dashboard.Types.{Explanation}
use go_php.Dashboard.Hooks.{Settled}
use go_php.Dashboard.Client.Calls.{Call, explain_request}
use go_php.Dashboard.Tester.{Page, Event, types, traces, settles, initial, trace, settle, step, run}

-- Nothing is in flight, or one call is and the page says so.
abbrev pub OneTrace : Page → Type 0
OneTrace p =
    ((p.loading ≡ false) × (p.in_flight ≡ []))
    ⊎ ((p.loading ≡ true) × ((c : Call) × (p.in_flight ≡ c ∷ [])))

trace-OneTrace : (p : Page) → OneTrace p → OneTrace (trace p)
unfolding trace
trace-OneTrace p (inl (idle, empty)) = inr (ground arith, (explain_request p.url, ground arith))
trace-OneTrace p (inr (busy, (c, one))) = inr (ground arith, (c, ground arith))

settle-OneTrace :
    (n : ℕ) (r : Settled Explanation) (p : Page) → OneTrace p → OneTrace (settle n r p)
unfolding settle
settle-OneTrace n r p (inl (idle, empty)) = inl (ground arith, ground arith)
settle-OneTrace zero r p (inr (busy, (c, one))) = inl (ground arith, ground arith)
settle-OneTrace (suc n) r p (inr (busy, (c, one))) = inr (ground arith, (c, ground arith))

step-OneTrace : (p : Page) (e : Event) → OneTrace p → OneTrace (step p e)
unfolding step
step-OneTrace p (types u) h = h
step-OneTrace p traces h = trace-OneTrace p h
step-OneTrace p (settles n r) h = settle-OneTrace n r p h

run-OneTrace : (p : Page) (es : List Event) → OneTrace p → OneTrace (run p es)
unfolding run
run-OneTrace p [] h = h
run-OneTrace p (e ∷ es) h = run-OneTrace (step p e) es (step-OneTrace p e h)

-- Whatever is typed, clicked and answered, at most one trace is in flight, and exactly while the page
-- is loading: an answer never arrives for an earlier trace than the last one.
pub run-initial-OneTrace : (es : List Event) → OneTrace (run initial es)
unfolding initial
run-initial-OneTrace es = run-OneTrace _ es (inl (refl, refl))
