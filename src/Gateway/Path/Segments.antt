-- ===== src/Gateway/Path/Segments.antt =====
-- The segments of a decoded text, and those that are left after dot segments are resolved.
use mathlib.Core.Path.{subst}
use mathlib.Core.List.{append_assoc, append-nil}
use go_php.Prelude.{
  ℕ, ◌≡◌, refl, true, false, List, [], ◌∷◌, ◌++◌, none, ◌==◌, All, arith, ◌⊎◌, inl, inr, Bool-cases,
  ap, sym, ◌∙◌,
}
use go_php.Gateway.Path.{
  has_byte, starts_c1, first_bad, split_slash, drop_last, Move, skip, up, enter, move, moved,
  collapse, join_slash,
}

abbrev pub NoByte : ℕ → List ℕ → Type 0
NoByte x s = has_byte x s ≡ false

-- No NUL and no control character.
abbrev pub NoControl : List ℕ → Type 0
NoControl s = first_bad s ≡ none

pub split_cases :
    (bs : List ℕ)
    → (s : List ℕ) × (ss : List (List ℕ)) × (split_slash bs ≡ s ∷ ss)
      × (starts_c1 s ≡ true → starts_c1 bs ≡ true)
unfolding split_slash
split_cases [] = ([], [], refl, λ h. h)
split_cases (b ∷ bs) = elim (Bool-cases (b == b'/')) [
  | inl slash ↦ ([], split_slash bs, rw slash refl, λ h. cc)
  | inr other ↦ let (s, ss, eq, same) = split_cases bs in (b ∷ s, ss, rw (other, eq) refl, λ h. h)
]

-- What every segment has that the text has, and a byte that is kept with the segment it begins.
split-All {ℓ} :
    (P : List ℕ → Type ℓ)
    → P []
    → ((b : ℕ) (bs : List ℕ) → P (b ∷ bs) → P bs)
    → ((b : ℕ) (s bs : List ℕ)
        → (b == b'/') ≡ false
        → (starts_c1 s ≡ true → starts_c1 bs ≡ true)
        → P (b ∷ bs)
        → P s
        → P (b ∷ s))
    → (bs : List ℕ) → P bs
    → All P (split_slash bs)
unfolding split_slash
split-All P empty tail cons [] h = (empty, tt)
split-All P empty tail cons (b ∷ bs) h = elim (Bool-cases (b == b'/')) [
  | inl slash ↦ rw slash (empty, split-All P empty tail cons bs (tail b bs h))
  | inr other ↦
      let (s, ss, eq, same) = split_cases bs in
      let rest : All P (s ∷ ss) = subst (All P) eq (split-All P empty tail cons bs (tail b bs h)) in
      rw (other, eq) (cons b s bs other same h rest.0, rest.1)
]

pub split-NoByte : (x : ℕ) (bs : List ℕ) → NoByte x bs → All (NoByte x) (split_slash bs)
unfolding has_byte
split-NoByte x =
    split-All (NoByte x) refl (λ b bs h. ground arith) (λ b s bs other same h k. ground arith)

pub split-NoControl : (bs : List ℕ) → NoControl bs → All NoControl (split_slash bs)
unfolding first_bad
split-NoControl =
    split-All NoControl refl (λ b bs h. ground arith) (λ b s bs other same h k. ground arith)

pub split-NoSlash : (bs : List ℕ) → All (NoByte b'/') (split_slash bs)
unfolding split_slash has_byte
split-NoSlash [] = (refl, tt)
split-NoSlash (b ∷ bs) = elim (Bool-cases (b == b'/')) [
  | inl slash ↦ rw slash (refl, split-NoSlash bs)
  | inr other ↦
      let (s, ss, eq, same) = split_cases bs in
      let rest : All (NoByte b'/') (s ∷ ss) = subst (All (NoByte b'/')) eq (split-NoSlash bs) in
      rw (other, eq) (rw other rest.0, rest.1)
]

drop_last-All {ℓ} : (P : List ℕ → Type ℓ) (ss : List (List ℕ)) → All P ss → All P (drop_last ss)
drop_last-All P [] h = tt
drop_last-All P (s ∷ []) h = tt
drop_last-All P (s ∷ t ∷ ss) h = (h.0, drop_last-All P (t ∷ ss) h.1)

append_one-All {ℓ} :
    (P : List ℕ → Type ℓ) (ss : List (List ℕ)) (s : List ℕ) → All P ss → P s → All P (ss ++ s ∷ [])
append_one-All P [] s h k = (k, tt)
append_one-All P (t ∷ ss) s h k = (h.0, append_one-All P ss s h.1 k)

Move-cases : (m : Move) → (m ≡ skip) ⊎ ((m ≡ up) ⊎ (m ≡ enter))
Move-cases skip = inl refl
Move-cases up = inr (inl refl)
Move-cases enter = inr (inr refl)

-- Every segment that is left is one of the text's, and is not empty, ".", or "..".
pub collapse-All {ℓ} :
    (P : List ℕ → Type ℓ) (result segs : List (List ℕ))
    → All (λ s. P s × (move s ≡ enter)) result
    → All P segs
    → All (λ s. P s × (move s ≡ enter)) (collapse result segs)
unfolding collapse
collapse-All P result [] h k = h
collapse-All P result (s ∷ segs) h k =
    collapse-All P (moved (move s) s result) segs
      (elim (Move-cases (move s)) [
        | inl skips ↦ rw skips h
        | inr (inl ups) ↦ rw ups (drop_last-All _ result h)
        | inr (inr enters) ↦ rw enters (append_one-All _ result s h (k.0, enters))
      ])
      k.1

-- Segments with nothing to resolve are all kept.
pub collapse_enter :
    (result segs : List (List ℕ))
    → All (λ s. move s ≡ enter) segs
    → collapse result segs ≡ result ++ segs
unfolding collapse
collapse_enter result [] h = sym (append-nil result)
collapse_enter result (s ∷ segs) h =
    let first : moved (move s) s result ≡ result ++ s ∷ [] = rw h.0 refl in
    ap (λ r. collapse r segs) first
    ∙ collapse_enter (result ++ s ∷ []) segs h.1
    ∙ append_assoc result (s ∷ []) segs

-- Joining the segments and splitting again.
pub split_append :
    (s rest : List ℕ) → NoByte b'/' s → split_slash (s ++ b'/' ∷ rest) ≡ s ∷ split_slash rest
unfolding split_slash has_byte
split_append [] rest h = refl
split_append (b ∷ s) rest h =
    let other : (b == b'/') ≡ false = ground arith in
    rw (other, split_append s rest (ground arith)) refl

split_one : (s : List ℕ) → NoByte b'/' s → split_slash s ≡ s ∷ []
unfolding split_slash has_byte
split_one [] h = refl
split_one (b ∷ s) h =
    let other : (b == b'/') ≡ false = ground arith in rw (other, split_one s (ground arith)) refl

pub split-join :
    (s : List ℕ) (ss : List (List ℕ))
    → All (NoByte b'/') (s ∷ ss)
    → split_slash (join_slash (s ∷ ss)) ≡ s ∷ ss
unfolding join_slash
split-join s [] h = split_one s h.0
split-join s (t ∷ ss) h =
    split_append s (join_slash (t ∷ ss)) h.0 ∙ ap (λ r. s ∷ r) (split-join t ss h.1)
