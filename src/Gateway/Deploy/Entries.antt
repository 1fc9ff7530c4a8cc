-- ===== src/Gateway/Deploy/Entries.antt =====
-- The map of releases: what a change, an insertion and a deletion do to it.
use mathlib.Core.Option.{some-injective}
use go_php.Prelude.{
  ℕ, zero, suc, String, ◌≡◌, refl, some, List, [], ◌∷◌, Bool, true, false, ◌||◌, str_eq, eq_iff,
  arith, inl, inr, Bool-cases, ◌∙◌, sym, ap, All,
}
use go_php.Gateway.Deploy.{
  Release, lookup_release, change, put_release, delete_release, delete_first,
}

abbrev pub has_id : String → List Release → Bool
has_id k [] = false
has_id k (r ∷ rs) = str_eq r.id k || has_id k rs

-- A map has one entry for a key.
abbrev pub Unique : List Release → Type 0
Unique [] = Unit
Unique (r ∷ rs) = (has_id r.id rs ≡ false) × Unique rs

pub change-All {ℓ κ} :
    (P : Release → Type ℓ) (Q : Release → Type κ) (id : String) (f : Release → Release)
    (rs : List Release)
    → ((r : Release) → P r → str_eq r.id id ≡ true → Q (f r))
    → ((r : Release) → P r → str_eq r.id id ≡ false → Q r)
    → All P rs
    → All Q (change id f rs)
unfolding change
change-All P Q id f [] hit miss h = tt
change-All P Q id f (r ∷ rs) hit miss h = elim (Bool-cases (str_eq r.id id)) [
  | inl same ↦ rw same (hit r h.0 same, change-All P Q id f rs hit miss h.1)
  | inr other ↦ rw other (miss r h.0 other, change-All P Q id f rs hit miss h.1)
]

pub put_release-All {ℓ} :
    (P : Release → Type ℓ) (n : Release) (rs : List Release)
    → P n
    → All P rs
    → All P (put_release n rs)
unfolding put_release
put_release-All P n [] new h = (new, tt)
put_release-All P n (r ∷ rs) new h = elim (Bool-cases (str_eq r.id n.id)) [
  | inl same ↦ rw same (new, h.1)
  | inr other ↦ rw other (h.0, put_release-All P n rs new h.1)
]

pub delete_release-All {ℓ} :
    (P : Release → Type ℓ) (id : String) (rs : List Release)
    → All P rs
    → All P (delete_release id rs)
unfolding delete_release
delete_release-All P id [] h = tt
delete_release-All P id (r ∷ rs) h = elim (Bool-cases (str_eq r.id id)) [
  | inl same ↦ rw same (delete_release-All P id rs h.1)
  | inr other ↦ rw other (h.0, delete_release-All P id rs h.1)
]

pub has_id-change :
    (k id : String) (f : Release → Release) (rs : List Release)
    → ((r : Release) → (f r).id ≡ r.id)
    → has_id k (change id f rs) ≡ has_id k rs
unfolding change
has_id-change k id f [] kept = refl
has_id-change k id f (r ∷ rs) kept = elim (Bool-cases (str_eq r.id id)) [
  | inl same ↦ rw (same, kept r) (ap (λ b. str_eq r.id k || b) (has_id-change k id f rs kept))
  | inr other ↦ rw other (ap (λ b. str_eq r.id k || b) (has_id-change k id f rs kept))
]

pub change-Unique :
    (id : String) (f : Release → Release) (rs : List Release)
    → ((r : Release) → (f r).id ≡ r.id)
    → Unique rs
    → Unique (change id f rs)
unfolding change
change-Unique id f [] kept h = tt
change-Unique id f (r ∷ rs) kept h = elim (Bool-cases (str_eq r.id id)) [
  | inl same ↦
      rw (same, kept r) (has_id-change r.id id f rs kept ∙ h.0, change-Unique id f rs kept h.1)
  | inr other ↦ rw other (has_id-change r.id id f rs kept ∙ h.0, change-Unique id f rs kept h.1)
]

has_id-put_release :
    (k : String) (n : Release) (rs : List Release)
    → str_eq n.id k ≡ false
    → has_id k (put_release n rs) ≡ has_id k rs
unfolding put_release
has_id-put_release k n [] h = ground arith
has_id-put_release k n (r ∷ rs) h = elim (Bool-cases (str_eq r.id n.id)) [
  | inl same ↦
      let differs : str_eq r.id k ≡ false = ap (λ j. str_eq j k) ((eq_iff r.id n.id).0 same) ∙ h in
      rw (same, h, differs) refl
  | inr other ↦ rw other (ap (λ b. str_eq r.id k || b) (has_id-put_release k n rs h))
]

pub put_release-Unique : (n : Release) (rs : List Release) → Unique rs → Unique (put_release n rs)
unfolding put_release
put_release-Unique n [] h = (refl, tt)
put_release-Unique n (r ∷ rs) h = elim (Bool-cases (str_eq r.id n.id)) [
  | inl same ↦ rw same (ap (λ j. has_id j rs) (sym ((eq_iff r.id n.id).0 same)) ∙ h.0, h.1)
  | inr other ↦
      let flipped : str_eq n.id r.id ≡ false = ground (arith, eq_iff r.id n.id, eq_iff n.id r.id) in
      rw other (has_id-put_release r.id n rs flipped ∙ h.0, put_release-Unique n rs h.1)
]

has_id-delete_release :
    (k id : String) (rs : List Release)
    → has_id k rs ≡ false
    → has_id k (delete_release id rs) ≡ false
unfolding delete_release
has_id-delete_release k id [] h = refl
has_id-delete_release k id (r ∷ rs) h = ground (arith, has_id-delete_release k id rs)

pub delete_release-Unique :
    (id : String) (rs : List Release) → Unique rs → Unique (delete_release id rs)
unfolding delete_release
delete_release-Unique id [] h = tt
delete_release-Unique id (r ∷ rs) h = elim (Bool-cases (str_eq r.id id)) [
  | inl same ↦ rw same (delete_release-Unique id rs h.1)
  | inr other ↦ rw other (has_id-delete_release r.id id rs h.0, delete_release-Unique id rs h.1)
]

pub delete_first-All {ℓ} :
    (P : Release → Type ℓ) (n : ℕ) (cut rs : List Release)
    → All P rs
    → All P (delete_first n cut rs)
unfolding delete_first
delete_first-All P zero cut rs h = h
delete_first-All P (suc n) [] rs h = h
delete_first-All P (suc n) (r ∷ cut) rs h =
    delete_first-All P n cut (delete_release r.id rs) (delete_release-All P r.id rs h)

pub delete_first-Unique :
    (n : ℕ) (cut rs : List Release) → Unique rs → Unique (delete_first n cut rs)
unfolding delete_first
delete_first-Unique zero cut rs h = h
delete_first-Unique (suc n) [] rs h = h
delete_first-Unique (suc n) (r ∷ cut) rs h =
    delete_first-Unique n cut (delete_release r.id rs) (delete_release-Unique r.id rs h)

pub lookup_release-id :
    (id : String) (rs : List Release) (r : Release)
    → lookup_release id rs ≡ some r
    → str_eq r.id id ≡ true
unfolding lookup_release
lookup_release-id id [] r h = absurd (cc)
lookup_release-id id (s ∷ rs) r h = elim (Bool-cases (str_eq s.id id)) [
  | inl same ↦
      let found : some s ≡ some r = rw same at h in
      ap (λ (x : Release). str_eq x.id id) (sym (some-injective _ _ found)) ∙ same
  | inr other ↦ lookup_release-id id rs r (rw other at h)
]

-- The entry that a lookup finds is the only one with its key.
absent-All {ℓ} :
    (P : Release → Type ℓ) (id : String) (rs : List Release)
    → has_id id rs ≡ false
    → All (λ r. str_eq r.id id ≡ true → P r) rs
absent-All P id [] h = tt
absent-All P id (r ∷ rs) h = elim (Bool-cases (str_eq r.id id)) [
  | inl same ↦ let no : true ≡ false = rw same at h in absurd (cc)
  | inr other ↦
      let rest : has_id id rs ≡ false = rw other at h in
      (λ same. absurd (cc), absent-All P id rs rest)
]

pub lookup_release-All {ℓ} :
    (P : Release → Type ℓ) (id : String) (rs : List Release) (r : Release)
    → Unique rs
    → lookup_release id rs ≡ some r
    → P r
    → All (λ s. str_eq s.id id ≡ true → P s) rs
unfolding lookup_release
lookup_release-All P id [] r u h p = tt
lookup_release-All P id (s ∷ rs) r u h p = elim (Bool-cases (str_eq s.id id)) [
  | inl same ↦
      let found : some s ≡ some r = rw same at h in
      let absent : has_id id rs ≡ false =
        ap (λ j. has_id j rs) (sym ((eq_iff s.id id).0 same)) ∙ u.0 in
      (λ e. rw (some-injective _ _ found) p, absent-All P id rs absent)
  | inr other ↦
      let later : lookup_release id rs ≡ some r = rw other at h in
      (λ same. absurd (cc), lookup_release-All P id rs r u.1 later p)
]
