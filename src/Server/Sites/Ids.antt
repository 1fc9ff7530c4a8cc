-- ===== src/Server/Sites/Ids.antt =====
-- The ids of a list of sites, as sites are added, replaced and cut out.
use mathlib.Core.Option.{some-injective}
use go_php.Prelude.{
  String, ◌≡◌, refl, some, List, [], ◌∷◌, ◌++◌, Bool, true, false, ◌||◌, str_eq, eq_iff, arith, inl,
  inr, Bool-cases, ◌∙◌, sym, ap,
}
use go_php.Server.Sites.{SiteConfig, lookup_site, replace_site, cut_site}

-- The list has a site with the id.
abbrev pub has_id : String → List SiteConfig → Bool
has_id k [] = false
has_id k (c ∷ cs) = str_eq c.id k || has_id k cs

pub has_id-append_one :
    (k : String) (d : SiteConfig) (cs : List SiteConfig)
    → has_id k (cs ++ d ∷ []) ≡ (has_id k cs || str_eq d.id k)
has_id-append_one k d [] = ground arith
has_id-append_one k d (c ∷ cs) = ground (arith, has_id-append_one k d cs)

pub has_id-replace_site :
    (k id : String) (d : SiteConfig) (cs : List SiteConfig)
    → d.id ≡ id
    → has_id k (replace_site id d cs) ≡ has_id k cs
unfolding replace_site
has_id-replace_site k id d [] h = refl
has_id-replace_site k id d (c ∷ cs) h = elim (Bool-cases (str_eq c.id id)) [
  | inl hit ↦ rw hit (ap (λ j. str_eq j k || has_id k cs) (h ∙ sym ((eq_iff c.id id).0 hit)))
  | inr miss ↦ rw miss (ap (λ b. str_eq c.id k || b) (has_id-replace_site k id d cs h))
]

pub has_id-cut_site :
    (k id : String) (cs : List SiteConfig)
    → str_eq id k ≡ false
    → has_id k (cut_site id cs) ≡ has_id k cs
unfolding cut_site
has_id-cut_site k id [] h = refl
has_id-cut_site k id (c ∷ cs) h = elim (Bool-cases (str_eq c.id id)) [
  | inl hit ↦
      let differs : str_eq c.id k ≡ false = ap (λ j. str_eq j k) ((eq_iff c.id id).0 hit) ∙ h in
      rw (hit, differs) refl
  | inr miss ↦ rw miss (ap (λ b. str_eq c.id k || b) (has_id-cut_site k id cs h))
]

pub lookup_site-id :
    (id : String) (cs : List SiteConfig) (c : SiteConfig) → lookup_site id cs ≡ some c → c.id ≡ id
unfolding lookup_site
lookup_site-id id [] c h = absurd (cc)
lookup_site-id id (d ∷ cs) c h = elim (Bool-cases (str_eq d.id id)) [
  | inl hit ↦
      let found : some d ≡ some c = rw hit at h in
      ap (λ (x : SiteConfig). x.id) (sym (some-injective _ _ found)) ∙ (eq_iff d.id id).0 hit
  | inr miss ↦ let later : lookup_site id cs ≡ some c = rw miss at h in lookup_site-id id cs c later
]

pub lookup_site-has_id :
    (id : String) (cs : List SiteConfig) (c : SiteConfig)
    → lookup_site id cs ≡ some c
    → has_id id cs ≡ true
unfolding lookup_site
lookup_site-has_id id [] c h = absurd (cc)
lookup_site-has_id id (d ∷ cs) c h = elim (Bool-cases (str_eq d.id id)) [
  | inl hit ↦ rw hit refl
  | inr miss ↦
      let later : lookup_site id cs ≡ some c = rw miss at h in
      rw (miss, lookup_site-has_id id cs c later) refl
]
