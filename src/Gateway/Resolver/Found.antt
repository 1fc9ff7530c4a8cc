-- ===== src/Gateway/Resolver/Found.antt =====
-- What holds of every file that is found.
use go_php.Prelude.{
  ◌≡◌, refl, Option, none, some, List, [], ◌∷◌, ◌++◌, Bool, true, false, ◌==◌, All, arith, ◌⊎◌, inl,
  inr, Bool-cases, ap, ◌∙◌,
}
use mathlib.Core.Path.{subst}
use go_php.Prelude.Bytes.{Bytes, bytes, has_prefix}
use go_php.Gateway.Path.{split_slash}
use go_php.Gateway.FilePath.{join_path}
use go_php.Gateway.Resolver.{
  SymlinkMode, symlink_deny, symlink_within_root, symlink_allow_listed, System, Resolver, Lstat,
  no_file, not_opened, no_stat, directory, device, named_pipe, socket, other_kind, symlink_escape,
  missing, unreadable, plain, symlink, regular, Opened, opened, failed, found, ResolveError,
  is_under_root, at_boundary, after_prefix, after_open, after_eval, follow, after_lstat,
  is_protected, any_matches, Place, refused, at, checked_root, absolute, locate, resolve_at,
  resolve,
}

-- The root itself, or below it.
abbrev pub IsUnder : Bytes → Bytes → Type 0
IsUnder root real = (real ≡ root) ⊎ ((rest : Bytes) × (real ≡ root ++ b'/' ∷ rest))

pub record IsServed (sys : System) (r : Resolver) (path real : Bytes) : Type 0 where
  pub inside : IsUnder r.root real
  pub is_file : sys.open_file real ≡ opened regular
  pub unprotected : All (λ pat. All (λ s. sys.match pat s ≡ false) (split_slash path)) r.protected

at_boundary-IsUnder :
    (child root : Bytes) → at_boundary (after_prefix child root) ≡ true → IsUnder root child
at_boundary-IsUnder [] [] h = inl refl
at_boundary-IsUnder (b ∷ child) [] h = inr (child, ap (λ c. c ∷ child) (ground arith))
at_boundary-IsUnder [] (b ∷ root) h = absurd (cc)
at_boundary-IsUnder (a ∷ child) (b ∷ root) h = elim (Bool-cases (a == b)) [
  | inr other ↦ let no_way : false ≡ true = rw other at h in absurd (cc)
  | inl same ↦
      let e : a ≡ b = ground arith in
      elim (at_boundary-IsUnder child root (rw same at h)) [
        | inl whole ↦ inl (ap (λ c. a ∷ c) whole ∙ ap (λ c. c ∷ root) e)
        | inr (rest, below) ↦
            inr (rest, ap (λ c. a ∷ c) below ∙ ap (λ c. c ∷ root ++ b'/' ∷ rest) e)
      ]
]

is_under_root-IsUnder : (child root : Bytes) → is_under_root child root ≡ true → IsUnder root child
unfolding is_under_root
is_under_root-IsUnder = at_boundary-IsUnder

none_matches :
    (p : Bytes → Bool) (ss : List Bytes) → any_matches p ss ≡ false → All (λ s. p s ≡ false) ss
none_matches p [] h = tt
none_matches p (s ∷ ss) h = (ground arith, none_matches p ss (ground arith))

not_protected :
    (sys : System) (pats : List Bytes) (path : Bytes)
    → is_protected sys pats path ≡ false
    → All (λ pat. All (λ s. sys.match pat s ≡ false) (split_slash path)) pats
unfolding is_protected
not_protected sys [] path h = tt
not_protected sys (pat ∷ pats) path h = (
  none_matches (sys.match pat) (split_slash path) (ground arith),
  not_protected sys pats path (ground arith),
)

found-injective : (p q : Bytes) → found p ≡ found q → p ≡ q
found-injective p q h = ap (λ x. elim x [ failed e ↦ p | found a ↦ a ]) h

failed-not-found {ℓ} : {A : Type ℓ} (e : ResolveError) (q : Bytes) → failed e ≡ found q → A
failed-not-found e q h = absurd (cc)

opened_regular :
    (p q : Bytes) (o : Opened) → after_open p o ≡ found q → (o ≡ opened regular) × (p ≡ q)
opened_regular p q no_file h = failed-not-found _ q h
opened_regular p q not_opened h = failed-not-found _ q h
opened_regular p q no_stat h = failed-not-found _ q h
opened_regular p q (opened regular) h = (refl, found-injective p q h)
opened_regular p q (opened directory) h = failed-not-found _ q h
opened_regular p q (opened device) h = failed-not-found _ q h
opened_regular p q (opened named_pipe) h = failed-not-found _ q h
opened_regular p q (opened socket) h = failed-not-found _ q h
opened_regular p q (opened other_kind) h = failed-not-found _ q h

module _ (sys : System) (r : Resolver) where
  -- A regular file of that name, in the root or below.
  abbrev IsOpened : Bytes → Type 0
  IsOpened q = IsUnder r.root q × (sys.open_file q ≡ opened regular)

  after_open-IsOpened :
      (p q : Bytes) → IsUnder r.root p → after_open p (sys.open_file p) ≡ found q → IsOpened q
  after_open-IsOpened p q under h =
      let (file, same) = opened_regular p q (sys.open_file p) h in subst IsOpened same (under, file)

  eval-IsOpened : (real : Option Bytes) (q : Bytes) → after_eval sys r real ≡ found q → IsOpened q
  eval-IsOpened none q h = failed-not-found _ q h
  eval-IsOpened (some real) q h = elim (Bool-cases (is_under_root real r.root)) [
    | inl under ↦
        after_open-IsOpened real q (is_under_root-IsUnder real r.root under) (rw under at h)
    | inr outside ↦ failed-not-found symlink_escape q (rw outside at h)
  ]

  follow-IsOpened : (m : SymlinkMode) (abs q : Bytes) → follow sys r abs m ≡ found q → IsOpened q
  follow-IsOpened symlink_deny abs q h = failed-not-found _ q h
  follow-IsOpened symlink_within_root abs q h = eval-IsOpened (sys.eval_symlinks abs) q h
  follow-IsOpened symlink_allow_listed abs q h = failed-not-found _ q h

  lstat-IsOpened :
      (l : Lstat) (abs q : Bytes)
      → IsUnder r.root abs
      → after_lstat sys r abs l ≡ found q
      → IsOpened q
  lstat-IsOpened missing abs q under h = failed-not-found _ q h
  lstat-IsOpened unreadable abs q under h = failed-not-found _ q h
  lstat-IsOpened plain abs q under h = after_open-IsOpened abs q under h
  lstat-IsOpened symlink abs q under h = follow-IsOpened r.symlinks abs q h

  -- What a place has passed.
  abbrev IsPlaced : Bytes → Place → Type 0
  IsPlaced path (refused e) = Unit
  IsPlaced path (at abs) = IsUnder r.root abs × (is_protected sys r.protected path ≡ false)

  root-IsPlaced :
      (path : Bytes) (abs : Option Bytes)
      → is_protected sys r.protected path ≡ false
      → IsPlaced path (checked_root r.root abs)
  root-IsPlaced path none free = tt
  root-IsPlaced path (some abs) free = elim (Bool-cases (is_under_root abs r.root)) [
    | inl under ↦ rw under (is_under_root-IsUnder abs r.root under, free)
    | inr outside ↦ rw outside tt
  ]

  locate-IsPlaced : (path : Bytes) → IsPlaced path (locate sys r path)
  unfolding locate
  locate-IsPlaced path = elim (Bool-cases (has_prefix path (bytes "/"))) [
    | inr relative ↦ rw relative tt
    | inl rooted ↦ elim (Bool-cases (is_protected sys r.protected path)) [
      | inl kept ↦ rw (rooted, kept) tt
      | inr free ↦
          rw (rooted, free) (root-IsPlaced path (absolute sys (join_path r.root path)) free)
    ]
  ]

  placed-IsServed :
      (path q : Bytes) (place : Place)
      → IsPlaced path place
      → resolve_at sys r place ≡ found q
      → IsServed sys r path q
  placed-IsServed path q (refused e) v h = failed-not-found e q h
  placed-IsServed path q (at abs) v h =
      let (under, file) = lstat-IsOpened (sys.lstat abs) abs q v.0 h in
      record {
        inside = under;
        is_file = file;
        unprotected = not_protected sys r.protected path v.1;
      }

-- Whatever the system answers: a file that is found for a path is regular, its name is that of the
-- root or continues it with a slash, and no segment of the path matches a protected pattern.
pub resolve-IsServed :
    (sys : System) (r : Resolver) (path real : Bytes)
    → resolve sys r path ≡ found real
    → IsServed sys r path real
unfolding resolve
resolve-IsServed sys r path real h =
    placed-IsServed sys r path real (locate sys r path) (locate-IsPlaced sys r path) h
