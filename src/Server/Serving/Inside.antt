-- ===== src/Server/Serving/Inside.antt =====
-- Where the files that a site's server hands out lie.
use mathlib.Core.Path.{subst}
use mathlib.Core.List.{append-nil}
use go_php.Prelude.{
  ◌≡◌, refl, Option, none, some, List, [], ◌∷◌, ◌++◌, true, false, not, ◌&&◌, All, ◌⊎◌, inl, inr,
  Bool-cases, ap, sym, ◌∙◌,
}
use go_php.Prelude.Bytes.{Bytes, bytes, ends_with, is_empty}
use go_php.Gateway.Path.{
  ParsedPath, Parsed, rejected, accepted, move, has_byte, split_slash, collapse, join_slash,
  normalized, parse_path,
}
use go_php.Gateway.Path.Safe.{IsClean, IsSafe, parse_path-IsSafe}
use go_php.Gateway.Path.Normal.{All-map}
use go_php.Gateway.FilePath.{is_rooted, join_path}
use go_php.Gateway.Resolver.{
  System, is_protected, is_regular, regular, directory, device, named_pipe, socket, other_kind,
  Opened, no_file, not_opened, no_stat, opened, Info, no_info, info, resolve_info, default_patterns,
}
use go_php.Gateway.Resolver.Clean.{IsPlain, normalized-append}
use go_php.Gateway.Resolver.Located.{All-append}
use go_php.Server.Serving.{
  SiteHandler, new_site_handler, Answer, bad_request, forbidden, not_found, runs_php, serves,
  ends_slash, candidates, trim_slash, open_static, serve_file, try_candidate, try_all, serve_parsed,
  serve,
}
use go_php.Server.Serving.Roots.{below_root, trim-normalized, ends_slash-normalized}

-- The file of an answer, if it has one.
abbrev pub file_of : Answer → Option Bytes
file_of bad_request = none
file_of forbidden = none
file_of not_found = none
file_of (runs_php abs) = some abs
file_of (serves abs) = some abs

abbrev pub index_php : Bytes
index_php = bytes "index.php"

abbrev pub index_html : Bytes
index_html = bytes "index.html"

abbrev pub IsIndex : List Bytes → Type 0
IsIndex tail = (tail ≡ []) ⊎ ((tail ≡ index_php ∷ []) ⊎ (tail ≡ index_html ∷ []))

index_php-IsPlain : IsPlain index_php
unfolding has_byte move
index_php-IsPlain = (refl, refl)

index_html-IsPlain : IsPlain index_html
unfolding has_byte move
index_html-IsPlain = (refl, refl)

module _ (P : Bytes → Type 0) (sys : System) (h : SiteHandler) where
  -- The file of an answer, if it has one, has the property.
  abbrev Holds : Answer → Type 0
  Holds a = (abs : Bytes) → file_of a ≡ some abs → P abs

  some_file : (p : Bytes) → P p → (abs : Bytes) → some p ≡ some abs → P abs
  some_file p v abs e = subst P (ap (λ o. elim o [ none ↦ p | some x ↦ x ]) e) v

  open_static-Holds :
      (p : Bytes) (o : Opened) (next : Answer) → P p → Holds next → Holds (open_static p o next)
  open_static-Holds p no_file next v k = k
  open_static-Holds p not_opened next v k = k
  open_static-Holds p no_stat next v k = k
  open_static-Holds p (opened directory) next v k = k
  open_static-Holds p (opened regular) next v k = some_file p v
  open_static-Holds p (opened device) next v k = some_file p v
  open_static-Holds p (opened named_pipe) next v k = some_file p v
  open_static-Holds p (opened socket) next v k = some_file p v
  open_static-Holds p (opened other_kind) next v k = some_file p v

  serve_file-Holds :
      (c p : Bytes) (next : Answer) → P p → Holds next → Holds (serve_file sys h c p next)
  serve_file-Holds c p next v k =
      elim (Bool-cases (ends_with c (bytes ".php") && not (is_empty h.sock_path))) [
        | inl php ↦ rw php (some_file p v)
        | inr other ↦ rw other (open_static-Holds p (sys.open_file p) next v k)
      ]

  try_candidate-Holds :
      (c : Bytes) (i : Info) (next : Answer)
      → P (join_path h.doc_root (trim_slash c))
      → Holds next
      → Holds (try_candidate sys h c i next)
  try_candidate-Holds c (no_info e) next v k = k
  try_candidate-Holds c (info kind) next v k = elim (Bool-cases (is_regular kind)) [
    | inr other ↦ rw other k
    | inl file ↦ elim (Bool-cases (is_protected sys h.resolver.protected c)) [
      | inl kept ↦ rw (file, kept) (λ abs e. absurd (cc))
      | inr free ↦
          rw (file, free) (serve_file-Holds c (join_path h.doc_root (trim_slash c)) next v k)
    ]
  ]

  try_all-Holds :
      (cs : List Bytes)
      → All (λ c. P (join_path h.doc_root (trim_slash c))) cs
      → Holds (try_all sys h cs)
  unfolding try_all
  try_all-Holds [] v = λ abs e. absurd (cc)
  try_all-Holds (c ∷ cs) v =
      try_candidate-Holds c (resolve_info sys h.resolver c) (try_all sys h cs) v.0
        (try_all-Holds cs v.1)

-- Below the segments of a root: those of an accepted path, or an index file there.
abbrev pub Below : Bytes → List Bytes → Bytes → Type 0
Below root ps abs =
    (tail : List Bytes) × IsIndex tail
    × (abs ≡ normalized (collapse [] (split_slash root) ++ (ps ++ tail)))

one_segment : (s : Bytes) → normalized (s ∷ []) ≡ b'/' ∷ s
unfolding normalized join_slash
one_segment s = refl

empty_path : (s : Bytes) → normalized [] ++ s ≡ normalized (s ∷ [])
unfolding normalized join_slash
empty_path s = refl

empty_path_ends : ends_slash (normalized []) ≡ true
unfolding normalized join_slash
empty_path_ends = refl

module _ (root : Bytes) (rooted : is_rooted root ≡ true) where
  candidate-Below :
      (ps tail : List Bytes) (c q : Bytes) (qs : List Bytes)
      → IsIndex tail
      → ps ++ tail ≡ q ∷ qs
      → All IsPlain (q ∷ qs)
      → c ≡ normalized (ps ++ tail)
      → Below root ps (join_path root (trim_slash c))
  candidate-Below ps tail c q qs index e plain at = (
    tail,
    index,
    ap (λ s. join_path root (trim_slash s)) (at ∙ ap normalized e)
        ∙ ap (join_path root) (trim-normalized (q ∷ qs))
        ∙ below_root root q qs rooted plain
        ∙ ap (λ l. normalized (collapse [] (split_slash root) ++ l)) (sym e),
  )

  -- An index file in the root, or in the directory of a path.
  root_index :
      (i : Bytes)
      → IsIndex (i ∷ [])
      → IsPlain i
      → Below root [] (join_path root (trim_slash (normalized [] ++ i)))
  root_index i index plain =
      candidate-Below [] (i ∷ []) (normalized [] ++ i) i [] index refl (plain, tt) (empty_path i)

  path_index :
      (p i : Bytes) (ps : List Bytes)
      → IsIndex (i ∷ [])
      → IsPlain i
      → All IsPlain (p ∷ ps)
      → Below root (p ∷ ps) (join_path root (trim_slash (normalized (p ∷ ps) ++ b'/' ∷ i)))
  path_index p i ps index plain plains =
      candidate-Below (p ∷ ps) (i ∷ []) (normalized (p ∷ ps) ++ b'/' ∷ i) p (ps ++ i ∷ []) index
        refl (All-append IsPlain (p ∷ ps) (i ∷ []) plains (plain, tt))
        (ap (λ s. normalized (p ∷ ps) ++ s) (sym (one_segment i))
          ∙ sym (normalized-append p ps i []))

  candidates-Below :
      (ps : List Bytes)
      → All IsPlain ps
      → All (λ c. Below root ps (join_path root (trim_slash c))) (candidates (normalized ps))
  candidates-Below [] plain = rw empty_path_ends (
    root_index index_php (inr (inl refl)) index_php-IsPlain,
    (root_index index_html (inr (inr refl)) index_html-IsPlain, tt),
  )
  candidates-Below (p ∷ ps) plain = rw (ends_slash-normalized p ps plain) (
    candidate-Below (p ∷ ps) [] (normalized (p ∷ ps)) p ps (inl refl) (append-nil (p ∷ ps)) plain
        (ap normalized (sym (append-nil (p ∷ ps)))),
    (
      path_index p index_php ps (inr (inl refl)) index_php-IsPlain plain,
      (path_index p index_html ps (inr (inr refl)) index_html-IsPlain plain, tt),
    ),
  )

-- Where a file of a request is, and that the path of the request is not protected.
abbrev pub Inside : System → Bytes → Bytes → Bytes → Type 0
Inside sys root path abs =
    (p : ParsedPath) × (parse_path path ≡ accepted p)
    × (is_protected sys default_patterns p.normalized_path ≡ false)
    × Below root p.decoded_segments abs

module _ (sys : System) (root sock path : Bytes) (rooted : is_rooted root ≡ true) where
  parsed-Inside :
      (r : Parsed)
      → parse_path path ≡ r
      → (abs : Bytes) → file_of (serve_parsed sys (new_site_handler root sock) r) ≡ some abs
      → Inside sys root path abs
  parsed-Inside (rejected e) parsed abs h = absurd (cc)
  parsed-Inside (accepted p) parsed abs h =
      elim (Bool-cases (is_protected sys default_patterns p.normalized_path)) [
        | inl kept ↦ let gone : none ≡ some abs = rw kept at h in absurd (cc)
        | inr free ↦
            let (safe, eq) = parse_path-IsSafe path p parsed in
            let plain : All IsPlain p.decoded_segments =
              All-map {P = IsSafe} (λ s w. (IsClean.no_slash w.0, w.1)) p.decoded_segments safe in
            let below : All (λ c. Below root p.decoded_segments (join_path root (trim_slash c)))
                (candidates p.normalized_path) =
              subst
                (λ n.
                  All (λ c. Below root p.decoded_segments (join_path root (trim_slash c)))
                    (candidates n))
                (sym eq) (candidates-Below root rooted p.decoded_segments plain) in
            (
              p,
              parsed,
              free,
              try_all-Holds (Below root p.decoded_segments) sys (new_site_handler root sock)
                  (candidates p.normalized_path) below abs (rw free at h),
            )
      ]

-- Whatever the system answers and whatever is asked of a site whose web root is an absolute path: a
-- file that is served or run is at the segments of the root, followed by those of the request's path,
-- which the parser accepts and which is not protected, and by nothing more than the name of an index
-- file.
pub serve-Inside :
    (sys : System) (root sock path abs : Bytes)
    → is_rooted root ≡ true
    → file_of (serve sys (new_site_handler root sock) path) ≡ some abs
    → Inside sys root path abs
unfolding serve
serve-Inside sys root sock path abs rooted h =
    parsed-Inside sys root sock path rooted (parse_path path) refl abs h
