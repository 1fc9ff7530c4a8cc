-- ===== src/Server/Sites/Create.antt =====
-- The answers to a request that creates a site.
use go_php.Prelude.{
  String, ◌≡◌, refl, ℕ, Option, none, some, [], ◌∷◌, ◌++◌, true, ◌⊎◌, inl, inr, Bool-cases,
  Option-cases,
}
use go_php.Server.SiteManager.{Started, start_error, started, start_site}
use go_php.Server.Sites.{
  SiteConfig, State, System, Response, failed, one_site, log, listed, create_site, create_over,
  created, completed, is_port, port_owner,
}

-- The list and the servers are those of before.
abbrev pub Same : State → State → Type 0
Same s t = (listed s ≡ listed t) × (s.servers ≡ t.servers)

-- What a creation leaves and answers: a failure, and the sites and servers as they were; or the site
-- at the end of the list, with a valid port that no site had.
abbrev pub CreateOutcome : State → State × Response → Type 0
CreateOutcome s (t, r) =
    ((n : ℕ) × (m : String) × (r ≡ failed n m) × Same t s)
    ⊎ ((c : SiteConfig) × (r ≡ one_site c)
        × (is_port c.port ≡ true)
        × (port_owner c.port (listed s) ≡ none)
        × (listed t ≡ listed s ++ c ∷ []))

refused : (s : State) (n : ℕ) (m : String) → CreateOutcome s (s, failed n m)
refused s n m = inl (n, m, refl, (refl, refl))

created-CreateOutcome :
    (c : SiteConfig) (o : Started) (s : State)
    → is_port c.port ≡ true
    → port_owner c.port (listed s) ≡ none
    → CreateOutcome s (created (listed s) c o s)
unfolding log
created-CreateOutcome c (start_error e) s good free = inl (_, _, refl, (refl, refl))
created-CreateOutcome c (started servers) s good free = inr (c, refl, good, free, refl)

create_over-CreateOutcome :
    (y : System) (c : SiteConfig) (s : State)
    → is_port c.port ≡ true
    → CreateOutcome s (create_over y c (listed s) s)
unfolding create_over
create_over-CreateOutcome y c s good = elim (Option-cases (port_owner c.port (listed s))) [
  | inr (o, taken) ↦ rw (taken, create_over) (refused s _ _)
  | inl free ↦
      rw (free, create_over)
        (created-CreateOutcome c (start_site y.listen c.id c.webroot s.servers) s good free)
]

-- With no other request in between, a request that creates a site either fails and leaves the sites
-- and the servers, or puts the site of the answer at the end of the list, with a port from 1 to 65535
-- that no listed site has.
pub create_site-CreateOutcome :
    (y : System) (b : Option SiteConfig) (s : State) → CreateOutcome s (create_site y b s)
unfolding create_site
create_site-CreateOutcome y none s = refused s _ _
create_site-CreateOutcome y (some b) s = elim (Bool-cases (is_port (completed y b).port)) [
  | inr bad ↦ rw bad (refused s _ _)
  | inl good ↦ rw good (elim (Option-cases y.mkdir_error) [
    | inr (e, wrong) ↦ rw wrong (refused s _ _)
    | inl made ↦ rw made (create_over-CreateOutcome y (completed y b) s good)
  ])
]
