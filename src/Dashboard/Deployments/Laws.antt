-- ===== src/Dashboard/Deployments/Laws.antt =====
-- Which releases can be activated from their rows.
use go_php.Prelude.{String, ◌≡◌, refl, ◌≢◌, none, some, true, false, arith, ◌⊎◌, inl, inr}
use go_php.Dashboard.Types.{Release, ReleaseState, active}
use go_php.Dashboard.Client.Calls.{activate_deployment}
use go_php.Dashboard.Deployments.{row}

-- A row has a button exactly if its release is not the active one, and the button asks the server to
-- activate that very release; the check mark stands on the rows that have no button.
row-activate :
    (locale : String → String) (r : Release)
    → ((r.state ≡ active) × ((row locale r).activate ≡ none) × ((row locale r).has_check ≡ true))
      ⊎ ((r.state ≢ active)
          × ((row locale r).activate ≡ some (activate_deployment r.id))
          × ((row locale r).has_check ≡ false))
unfolding row
row-activate locale r = go r.state refl
  where
    go :
        (s : ReleaseState)
        → r.state ≡ s
        → ((r.state ≡ active)
            × ((row locale r).activate ≡ none)
            × ((row locale r).has_check ≡ true))
          ⊎ ((r.state ≢ active)
              × ((row locale r).activate ≡ some (activate_deployment r.id))
              × ((row locale r).has_check ≡ false))
    go active e = inl (e, ground arith, ground arith)
    go _ e = inr (λ h. cc, ground arith, ground arith)
