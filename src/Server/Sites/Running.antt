-- ===== src/Server/Sites/Running.antt =====
-- Which servers run while sites are created, updated and deleted.
use mathlib.Core.Path.{subst}
use go_php.Prelude.{
  String, ◌≡◌, refl, Option, none, some, List, [], ◌∷◌, ◌++◌, true, false, ◌⊎◌, str_eq, eq_iff,
  arith, inl, inr, Bool-cases, Option-cases, ◌∙◌, sym, ap,
}
use go_php.Prelude.Text
use go_php.Prelude.Names.{
  contains, remove, Distinct, contains-remove, contains-append_one, remove-Distinct,
  append_one-Distinct,
}
use go_php.Server.SiteManager.{
  Listen, stat_fails, listen_fails, not_dir, opens, Started, start_error, started, is_running,
  start_site, stop_site, opened,
}
use go_php.Server.Sites.{
  SiteConfig, State, System, log, listed, create_site, create_over, lookup_site, cut_site, store,
  replace_with, update_site, delete_site, Request, creates, updates, deletes, step, run, created,
  restarted, updated, stopped, completed, merged, is_port, port_owner, needs_restart,
}
use go_php.Server.Sites.Ids.{
  has_id, has_id-append_one, has_id-replace_site, has_id-cut_site, lookup_site-id,
  lookup_site-has_id,
}

-- No server is kept twice, and each belongs to a site of the list.
pub record Hosted (s : State) : Type 0 where
  pub distinct : Distinct s.servers
  pub known : (k : String) → contains k s.servers ≡ true → has_id k (listed s) ≡ true

-- Starting a server fails, or adds the id.
abbrev Outcome : Started → String → List String → Type 0
Outcome r id servers = ((e : String) × (r ≡ start_error e)) ⊎ (r ≡ started (servers ++ id ∷ []))

opened-Outcome :
    (answer : Listen) (id webroot : String) (servers : List String)
    → Outcome (opened answer id webroot servers) id servers
opened-Outcome (stat_fails e) id webroot servers = inl (_, refl)
opened-Outcome (listen_fails e) id webroot servers = inl (_, refl)
opened-Outcome not_dir id webroot servers = inl (_, refl)
opened-Outcome opens id webroot servers = inr refl

abbrev already_running : String → String
already_running id = Text.◌++◌ "site " (Text.◌++◌ id " is already running")

pub start_site-cases :
    (answer : Listen) (id webroot : String) (servers : List String)
    → ((e : String) × (start_site answer id webroot servers ≡ start_error e))
      ⊎ ((start_site answer id webroot servers ≡ started (servers ++ id ∷ []))
          × (contains id servers ≡ false))
unfolding start_site is_running
start_site-cases answer id webroot servers = elim (Bool-cases (contains id servers)) [
  | inl taken ↦ inl (already_running id, rw taken refl)
  | inr free ↦ elim (Bool-cases (str_eq webroot "")) [
    | inl blank ↦ inl ("webroot is required", rw (free, blank) refl)
    | inr given ↦ elim (opened-Outcome answer id webroot servers) [
      | inl (e, broken) ↦ inl (e, rw (free, given) broken)
      | inr up ↦ inr (rw (free, given) up, free)
    ]
  ]
]

log-Hosted : (level message : String) (s : State) → Hosted s → Hosted (log level message s)
unfolding log
log-Hosted level message s v = record { distinct = v.distinct; known = v.known }

-- A new server, of a site that is put at the end.
start-Hosted :
    (c : SiteConfig) (s : State)
    → contains c.id s.servers ≡ false
    → Hosted s
    → Hosted (record s { sites = some (listed s ++ c ∷ []); servers = s.servers ++ c.id ∷ [] })
start-Hosted c s free v = record {
  distinct = append_one-Distinct c.id s.servers free v.distinct;
  known = λ k h.
      let both = contains-append_one c.id k s.servers in
      rw has_id-append_one (ground (arith, both, v.known k));
}

created-Hosted :
    (y : System) (c : SiteConfig) (s : State)
    → Hosted s
    → Hosted (created (listed s) c (start_site y.listen c.id c.webroot s.servers) s).0
created-Hosted y c s v = elim (start_site-cases y.listen c.id c.webroot s.servers) [
  | inl (e, broken) ↦ rw broken (log-Hosted _ _ s v)
  | inr (up, free) ↦ rw up (log-Hosted _ _ _ (start-Hosted c s free v))
]

create_over-Hosted :
    (y : System) (c : SiteConfig) (s : State) → Hosted s → Hosted (create_over y c (listed s) s).0
unfolding create_over
create_over-Hosted y c s v = elim (Option-cases (port_owner c.port (listed s))) [
  | inr (o, taken) ↦ rw (taken, create_over) v
  | inl free ↦ rw (free, create_over) (created-Hosted y c s v)
]

create_site-Hosted :
    (y : System) (b : Option SiteConfig) (s : State) → Hosted s → Hosted (create_site y b s).0
unfolding create_site
create_site-Hosted y none s v = v
create_site-Hosted y (some b) s v = elim (Bool-cases (is_port (completed y b).port)) [
  | inr bad ↦ rw bad v
  | inl good ↦ rw good (elim (Option-cases y.mkdir_error) [
    | inr (e, wrong) ↦ rw wrong v
    | inl made ↦ rw made (create_over-Hosted y (completed y b) s v)
  ])
]

stop_site-Hosted : (id : String) (s : State) → Hosted s → Hosted (stopped id s)
unfolding stop_site
stop_site-Hosted id s v = elim (Bool-cases (is_running id s.servers)) [
  | inr idle ↦ rw idle (record { distinct = v.distinct; known = v.known })
  | inl busy ↦ rw busy (record {
    distinct = remove-Distinct id s.servers v.distinct;
    known = λ k h. let left = contains-remove id k s.servers in ground (arith, left, v.known k);
  })
]

store-Hosted :
    (id : String) (c : SiteConfig) (s : State) → c.id ≡ id → Hosted s → Hosted (store id c s)
unfolding store
store-Hosted id c s h v = record {
  distinct = v.distinct;
  known = λ k m. has_id-replace_site k id c (listed s) h ∙ v.known k m;
}

updated-Hosted :
    (id : String) (c : SiteConfig) (s : State) → c.id ≡ id → Hosted s → Hosted (updated id c s).0
updated-Hosted id c s h v = log-Hosted _ _ _ (store-Hosted id c s h v)

-- A server of a listed site is started again.
rise-Hosted :
    (id : String) (s : State)
    → contains id s.servers ≡ false
    → has_id id (listed s) ≡ true
    → Hosted s
    → Hosted (record s { servers = s.servers ++ id ∷ [] })
rise-Hosted id s free here v = record {
  distinct = append_one-Distinct id s.servers free v.distinct;
  known = λ k h.
      let both = contains-append_one id k s.servers in
      elim (Bool-cases (str_eq id k)) [
        | inl same ↦ subst (λ j. has_id j (listed s) ≡ true) ((eq_iff id k).0 same) here
        | inr other ↦ ground (arith, both, v.known k)
      ];
}

restarted-Hosted :
    (y : System) (id : String) (c : SiteConfig) (s : State)
    → c.id ≡ id
    → has_id id (listed s) ≡ true
    → Hosted s
    → Hosted (restarted id c (start_site y.listen id c.webroot s.servers) s).0
restarted-Hosted y id c s h here v = elim (start_site-cases y.listen id c.webroot s.servers) [
  | inl (e, broken) ↦ rw broken (store-Hosted id _ _ h (log-Hosted _ _ s v))
  | inr (up, free) ↦ rw up (updated-Hosted id c _ h (rise-Hosted id s free here v))
]

replace_with-Hosted :
    (y : System) (id : String) (c old : SiteConfig) (s : State)
    → c.id ≡ id
    → has_id id (listed s) ≡ true
    → Hosted s
    → Hosted (replace_with y id c old s).0
unfolding replace_with
replace_with-Hosted y id c old s h here v = elim (Bool-cases (needs_restart c old)) [
  | inr kept ↦ rw kept (updated-Hosted id c s h v)
  | inl changed ↦ rw changed (elim (Bool-cases (str_eq c.status "active")) [
    | inr inactive ↦ rw inactive (updated-Hosted id c (stopped id s) h (stop_site-Hosted id s v))
    | inl starts ↦
        rw starts (restarted-Hosted y id c (stopped id s) h here (stop_site-Hosted id s v))
  ])
]

update_site-Hosted :
    (y : System) (id : String) (b : Option SiteConfig) (s : State)
    → Hosted s
    → Hosted (update_site y id b s).0
unfolding update_site
update_site-Hosted y id b s v = elim (Option-cases (lookup_site id (listed s))) [
  | inl missing ↦ rw (missing, update_site) v
  | inr (old, found) ↦
      rw (found, update_site)
        (elim (Option-cases b) [
          | inl bad ↦ rw bad v
          | inr (body, given) ↦ rw given (
              replace_with-Hosted y id (merged y id old body) old s refl
                (lookup_site-has_id id (listed s) old found) v)
        ])
]

-- The server of a site is stopped, and the site is cut out.
cut-Hosted :
    (id : String) (c : SiteConfig) (s : State)
    → c.id ≡ id
    → Hosted s
    → Hosted
        (record s { servers = stop_site c.id s.servers; sites = some (cut_site id (listed s)) })
unfolding stop_site
cut-Hosted id c s e v = record {
  distinct = remove-Distinct c.id s.servers v.distinct;
  known = λ k h.
      let left = contains-remove c.id k s.servers in
      elim (Bool-cases (str_eq c.id k)) [
        | inl same ↦
            let gone : contains k (remove c.id s.servers) ≡ false = ground (arith, left) in
            absurd (cc)
        | inr other ↦
            has_id-cut_site k id (listed s) (ap (λ j. str_eq j k) (sym e) ∙ other)
            ∙ v.known k (ground (arith, left))
      ];
}

delete_site-Hosted : (id : String) (s : State) → Hosted s → Hosted (delete_site id s).0
unfolding delete_site
delete_site-Hosted id s v = elim (Option-cases (lookup_site id (listed s))) [
  | inl missing ↦ rw (missing, delete_site) v
  | inr (c, found) ↦
      rw (found, delete_site)
        (log-Hosted _ _ _ (cut-Hosted id c s (lookup_site-id id (listed s) c found) v))
]

step-Hosted : (s : State) (r : Request) → Hosted s → Hosted (step s r)
unfolding step
step-Hosted s (creates y b) v = create_site-Hosted y b s v
step-Hosted s (updates y id b) v = update_site-Hosted y id b s v
step-Hosted s (deletes id) v = delete_site-Hosted id s v

-- Whatever requests are handled one after the other, each when the one before it has ended, and whether
-- starting a server succeeds or not: if no server was kept twice and each belonged to a listed site, then
-- it is so afterwards.
pub run-Hosted : (s : State) (rs : List Request) → Hosted s → Hosted (run s rs)
unfolding run
run-Hosted s [] v = v
run-Hosted s (r ∷ rs) v = run-Hosted (step s r) rs (step-Hosted s r v)
