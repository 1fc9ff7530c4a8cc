-- ===== src/Server/Sites/Overlap.antt =====
-- Two requests that create sites and overlap: both load the list before either stores one.
use mathlib.Core.Path.{subst}
use mathlib.Core.List.{append_assoc}
use go_php.Prelude.{
  Bool, false, sym, ap, ◌∙◌, ◌≡◌, refl, List, [], ◌∷◌, ◌++◌, true, inl, inr, Option-cases,
}
use go_php.Server.SiteManager.{Started, started, start_site}
use go_php.Server.Sites.{
  SiteConfig, State, System, Response, one_site, log, listed, create_over, created, port_owner,
}
use go_php.Server.Sites.Running.{start_site-cases}

-- What a creation that answers with its site has done, over whatever list it had loaded.
abbrev Stored : SiteConfig → List SiteConfig → State → State → Type 0
Stored c loaded s t = (listed t ≡ loaded ++ c ∷ []) × (t.servers ≡ s.servers ++ c.id ∷ [])

started-Stored :
    (c : SiteConfig) (loaded : List SiteConfig) (o : Started) (s : State)
    → (o ≡ started (s.servers ++ c.id ∷ []))
    → Stored c loaded s (created loaded c o s).0
unfolding log
started-Stored c loaded o s up =
    subst (λ r. Stored c loaded s (created loaded c r s).0) (sym up) (refl, refl)

abbrev pub is_site : Response → Bool
is_site (one_site c) = true
is_site _ = false

created-Stored :
    (y : System) (c : SiteConfig) (loaded : List SiteConfig) (s : State)
    → is_site (created loaded c (start_site y.listen c.id c.webroot s.servers) s).1 ≡ true
    → Stored c loaded s (created loaded c (start_site y.listen c.id c.webroot s.servers) s).0
created-Stored y c loaded s h = elim (start_site-cases y.listen c.id c.webroot s.servers) [
  | inl (e, broken) ↦ let no : false ≡ true = rw broken at h in absurd (cc)
  | inr (up, free) ↦ started-Stored c loaded _ s up
]

create_over-Stored :
    (y : System) (c : SiteConfig) (loaded : List SiteConfig) (s : State)
    → is_site (create_over y c loaded s).1 ≡ true
    → Stored c loaded s (create_over y c loaded s).0
unfolding create_over
create_over-Stored y c loaded s h = elim (Option-cases (port_owner c.port loaded)) [
  | inr (o, taken) ↦ let no : false ≡ true = rw (taken, create_over) at h in absurd (cc)
  | inl free ↦ rw (free, create_over) (created-Stored y c loaded s (rw (free, create_over) at h))
]

-- If two requests that create sites overlap, so that both go on from the same list, and both answer with
-- their sites: the servers of both are kept, but the sites are the list that was loaded and the second
-- site.
pub overlap-Lost :
    (y z : System) (c d : SiteConfig) (s : State)
    → is_site (create_over y c (listed s) s).1 ≡ true
    → is_site (create_over z d (listed s) (create_over y c (listed s) s).0).1 ≡ true
    → let t = (create_over z d (listed s) (create_over y c (listed s) s).0).0 in
      (t.servers ≡ s.servers ++ c.id ∷ d.id ∷ []) × (listed t ≡ listed s ++ d ∷ [])
overlap-Lost y z c d s first second =
    let a = create_over-Stored y c (listed s) s first in
    let b = create_over-Stored z d (listed s) (create_over y c (listed s) s).0 second in
    (b.1 ∙ ap (λ r. r ++ d.id ∷ []) a.1 ∙ append_assoc s.servers (c.id ∷ []) (d.id ∷ []), b.0)
