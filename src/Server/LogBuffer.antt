-- ===== src/Server/LogBuffer.antt =====
-- `LogBuffer` of internal/ui/server.go: the buffer behind GET /api/logs. Its lock makes every method
-- one step.
use go_php.Prelude.{
  ℕ, ◌-◌, ◌≤◌, ◌≡◌, refl, List, [], ◌∷◌, ◌++◌, length, drop, last_n, last_n_of_le,
  last_n-last_n_append, length-last_n-le, ltb, if◌then◌else◌, arith, Bool-cases, inl, inr, ◌∙◌, sym,
  ap,
}
use mathlib.Core.List.{append_assoc, append-nil}

pub record LogBuffer (Entry : Type 0) : Type 0 where
  pub entries : List Entry
  pub max : ℕ

module _ {Entry : Type 0} where
  unfoldable pub new_log_buffer : ℕ → LogBuffer Entry
  new_log_buffer max = record { entries = []; max = max }

  -- append, then entries[len(entries)-max:] if there are more than max.
  unfoldable pub add : Entry → LogBuffer Entry → LogBuffer Entry
  add e b =
      let all = b.entries ++ e ∷ [] in
      record b { entries = if ltb b.max (length all) then drop (length all - b.max) all else all }

  -- The last n entries: n is cut to the size, and entries[total-n:] is copied.
  unfoldable pub recent : ℕ → LogBuffer Entry → List Entry
  recent n b =
      let total = length b.entries in
      let count = if ltb total n then total else n in drop (total - count) b.entries

  unfoldable pub size : LogBuffer Entry → ℕ
  size b = length b.entries

  unfoldable pub add_all : List Entry → LogBuffer Entry → LogBuffer Entry
  add_all [] b = b
  add_all (e ∷ es) b = add_all es (add e b)

  add_lem :
      (e : Entry) (b : LogBuffer Entry) → (add e b).entries ≡ last_n b.max (b.entries ++ e ∷ [])
  unfolding add
  add_lem e b = elim (Bool-cases (ltb b.max (length (b.entries ++ e ∷ [])))) [
    | inl over ↦ rw over
    | inr fits ↦ rw fits (sym (last_n_of_le b.max (b.entries ++ e ∷ []) (ground arith)))
  ]

  recent_lem : (n : ℕ) (b : LogBuffer Entry) → recent n b ≡ last_n n b.entries
  unfolding recent
  recent_lem n b = elim (Bool-cases (ltb (length b.entries) n)) [
    | inl more ↦
        let all : length b.entries - length b.entries ≡ length b.entries - n = ground arith in
        rw more (ap (λ k. drop k b.entries) all)
    | inr within ↦ rw within
  ]

  max-add : (e : Entry) (b : LogBuffer Entry) → (add e b).max ≡ b.max
  unfolding add
  max-add e b = refl

  length-add-le : (e : Entry) (b : LogBuffer Entry) → length (add e b).entries ≤ b.max
  length-add-le e b = rw add_lem (length-last_n-le b.max (b.entries ++ e ∷ []))

  entries-add_all :
      (es : List Entry) (b : LogBuffer Entry)
      → length b.entries ≤ b.max
      → (add_all es b).entries ≡ last_n b.max (b.entries ++ es)
  unfolding add_all
  entries-add_all [] b h = rw append-nil (sym (last_n_of_le b.max b.entries h))
  entries-add_all (e ∷ es) b h =
      entries-add_all es (add e b) (rw (max-add e b) (length-add-le e b))
      ∙ rw (max-add e b, add_lem e b)
          (last_n-last_n_append b.max (b.entries ++ e ∷ []) es
            ∙ ap (last_n b.max) (append_assoc b.entries (e ∷ []) es))

  -- The entries of a buffer that holds at most `max` are, after any additions, the last `max` of what
  -- it held and what was added, in their order; `Recent(n)` gives the last n of these.
  pub recent-add_all :
      (n : ℕ) (es : List Entry) (b : LogBuffer Entry)
      → length b.entries ≤ b.max
      → ((add_all es b).entries ≡ last_n b.max (b.entries ++ es))
        × (recent n (add_all es b) ≡ last_n n (last_n b.max (b.entries ++ es)))
  recent-add_all n es b h =
      let kept = entries-add_all es b h in (kept, recent_lem n (add_all es b) ∙ ap (last_n n) kept)
