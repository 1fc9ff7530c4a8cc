-- ===== src/Dashboard/Logs/Laws.antt =====
-- The entries of the log page, and its polling.
use go_php.Prelude.{
  ◌≤◌, ◌-◌, ◌≡◌, none, some, true, false, List, [], ◌∷◌, ◌++◌, length, length-append, last_n,
  last_n_of_le, last_n-drop-append, length-last_n-le, arith, tests, leb, ◌∙◌, ◌⊎◌, inl, inr,
  Bool-cases, sym, ap,
}
use mathlib.Core.List.{append_assoc, append-nil}
use go_php.Dashboard.Types.{LogEntry}
use go_php.Dashboard.Logs.{
  Page, Event, push_entry, slice_tail, on_message, step, run, ws_message, ticks, poll_period, tick,
}

push_entry-last_n {ℓ} :
    {A : Type ℓ} (xs : List A) (e : A) (ys : List A)
    → last_n 500 (push_entry xs e ++ ys) ≡ last_n 500 (xs ++ e ∷ ys)
unfolding push_entry slice_tail
push_entry-last_n xs e ys = elim (Bool-cases (leb 499 (length xs))) [
  | inl long ↦
      ap (last_n 500) (append_assoc (slice_tail 499 xs) (e ∷ []) ys)
      ∙ last_n-drop-append 500 (length xs - 499) xs (e ∷ ys) (omega arith) (omega tests)
  | inr short ↦
      let none_dropped : length xs - 499 ≡ 0 = ground arith in
      rw none_dropped (ap (last_n 500) (append_assoc xs (e ∷ []) ys))
]

length-push_entry-le {ℓ} : {A : Type ℓ} (xs : List A) (e : A) → length (push_entry xs e) ≤ 500
unfolding push_entry slice_tail
length-push_entry-le xs e =
    omega (arith, length-append (slice_tail 499 xs) (e ∷ []), length-last_n-le 499 xs)

module _ {Unknown : Type 0} where
  -- The frames that carry these entries.
  unfoldable pub messages : List (LogEntry Unknown) → List (Event Unknown)
  messages [] = []
  messages (e ∷ es) = ws_message (some e) ∷ messages es

  -- A stream of messages leaves the last 500 of the entries that were there and those that came, in
  -- their order, if the page held at most 500.
  pub entries-run-messages :
      (p : Page Unknown) (es : List (LogEntry Unknown))
      → length p.entries ≤ 500
      → (run p (messages es)).entries ≡ last_n 500 (p.entries ++ es)
  unfolding run messages step on_message
  entries-run-messages p [] h = rw append-nil (sym (last_n_of_le 500 p.entries h))
  entries-run-messages p (e ∷ es) h =
      entries-run-messages (step p (ws_message (some e))) es (length-push_entry-le p.entries e)
      ∙ push_entry-last_n p.entries e es

  -- Polling and the socket exclude one another: the timer has a period of 3000 ms exactly while the
  -- socket is down, and then a tick starts a load and leaves the entries; else it changes nothing.
  tick_lem :
      (p : Page Unknown)
      → ((p.ws_connected ≡ true) × (poll_period p ≡ none) × (step p ticks ≡ p))
        ⊎ ((p.ws_connected ≡ false)
            × (poll_period p ≡ some 3000)
            × ((step p ticks).data_.loading ≡ true)
            × ((step p ticks).entries ≡ p.entries))
  unfolding step tick poll_period
  tick_lem p = elim (Bool-cases p.ws_connected) [
    | inl up ↦ inl (up, ground arith, ground arith)
    | inr down ↦ inr (down, ground arith, ground arith, ground arith)
  ]
