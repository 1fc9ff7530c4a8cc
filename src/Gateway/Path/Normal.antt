-- ===== src/Gateway/Path/Normal.antt =====
-- The normalized path, parsed again.
use go_php.Prelude.{
  ℕ, ◌≡◌, refl, false, List, [], ◌∷◌, ◌++◌, none, some, ◌==◌, All, arith, ap, sym, ◌∙◌,
}
use go_php.Gateway.Path.{
  ParsedPath, accepted, has_byte, has_escape, has_control, before_query, first_bad, percent_decode,
  contains_percent_encoding, split_slash, enter, move, collapse, is_root, split_and_collapse,
  join_slash, normalized, result_of, check_decoded, raw_error, parse_path,
}
use go_php.Gateway.Path.Segments.{NoByte, NoControl, collapse_enter, split-join}
use go_php.Gateway.Path.Safe.{IsClean, IsSafe, parse_path-IsSafe}

-- Without the byte or the percent sign that they look for, the tests and the decoder find nothing.
before_query_of_clean : (s : List ℕ) → NoByte b'?' s → before_query s ≡ s
unfolding has_byte before_query
before_query_of_clean [] h = refl
before_query_of_clean (b ∷ s) h = ground (arith, before_query_of_clean s)

has_escape_of_clean : (x y : ℕ) (s : List ℕ) → NoByte b'%' s → has_escape x y s ≡ false
unfolding has_byte has_escape
has_escape_of_clean x y [] h = refl
has_escape_of_clean x y (p ∷ []) h = refl
has_escape_of_clean x y (p ∷ a ∷ []) h = refl
has_escape_of_clean x y (p ∷ a ∷ b ∷ s) h = ground (arith, has_escape_of_clean x y (a ∷ b ∷ s))

contains_of_clean : (s : List ℕ) → NoByte b'%' s → contains_percent_encoding s ≡ false
unfolding has_byte contains_percent_encoding
contains_of_clean [] h = refl
contains_of_clean (p ∷ []) h = refl
contains_of_clean (p ∷ a ∷ []) h = refl
contains_of_clean (p ∷ a ∷ b ∷ s) h = ground (arith, contains_of_clean (a ∷ b ∷ s))

percent_decode_of_clean : (s : List ℕ) → NoByte b'%' s → percent_decode s ≡ some s
unfolding has_byte percent_decode
percent_decode_of_clean [] h = refl
percent_decode_of_clean (p ∷ []) h = let plain : (p == b'%') ≡ false = ground arith in rw plain refl
percent_decode_of_clean (p ∷ a ∷ []) h =
    let plain : (p == b'%') ≡ false = ground arith in
    rw (plain, percent_decode_of_clean (a ∷ []) (ground arith)) refl
percent_decode_of_clean (p ∷ a ∷ b ∷ s) h =
    let plain : (p == b'%') ≡ false = ground arith in
    rw (percent_decode, plain, percent_decode_of_clean (a ∷ b ∷ s) (ground arith)) refl

control_tests : (s : List ℕ) → NoControl s → (has_byte 0 s ≡ false) × (has_control s ≡ false)
unfolding has_byte first_bad has_control
control_tests [] h = (refl, refl)
control_tests (b ∷ s) h = let rest = control_tests s (ground arith) in (ground arith, ground arith)

-- Joining segments puts slashes between their bytes and nothing else.
NoByte-append : (x : ℕ) (s t : List ℕ) → NoByte x s → NoByte x t → NoByte x (s ++ t)
unfolding has_byte
NoByte-append x [] t h k = k
NoByte-append x (b ∷ s) t h k = ground (arith, NoByte-append x s t)

join-NoByte :
    (x : ℕ) (ss : List (List ℕ))
    → (x == b'/') ≡ false
    → All (NoByte x) ss
    → NoByte x (join_slash ss)
unfolding join_slash has_byte
join-NoByte x [] h k = refl
join-NoByte x (s ∷ []) h k = k.0
join-NoByte x (s ∷ t ∷ ss) h k =
    let rest = join-NoByte x (t ∷ ss) h k.1 in
    NoByte-append x s (b'/' ∷ join_slash (t ∷ ss)) k.0 (ground arith)

NoControl-slash : (s t : List ℕ) → NoControl s → NoControl t → NoControl (s ++ b'/' ∷ t)
unfolding first_bad
NoControl-slash [] t h k = k
NoControl-slash (b ∷ []) t h k = ground arith
NoControl-slash (b ∷ c ∷ s) t h k = ground (arith, NoControl-slash (c ∷ s) t)

join-NoControl : (ss : List (List ℕ)) → All NoControl ss → NoControl (join_slash ss)
unfolding join_slash
join-NoControl [] k = unfold first_bad in refl
join-NoControl (s ∷ []) k = k.0
join-NoControl (s ∷ t ∷ ss) k =
    NoControl-slash s (join_slash (t ∷ ss)) k.0 (join-NoControl (t ∷ ss) k.1)

-- One property of safe segments for all of them.
pub All-map {ℓ κ} :
    {P : List ℕ → Type ℓ} {Q : List ℕ → Type κ}
    → ((s : List ℕ) → P s → Q s)
    → (ss : List (List ℕ)) → All P ss
    → All Q ss
All-map f [] h = tt
All-map f (s ∷ ss) h = (f s h.0, All-map f ss h.1)

not_root :
    (s : List ℕ) (ss : List (List ℕ))
    → move s ≡ enter
    → is_root (b'/' ∷ join_slash (s ∷ ss)) ≡ false
unfolding join_slash move
not_root [] ss h = absurd (cc)
not_root (b ∷ s) [] h = refl
not_root (b ∷ s) (t ∷ ss) h = refl

collapse_front : (s : List ℕ) → collapse [] (split_slash (b'/' ∷ s)) ≡ collapse [] (split_slash s)
unfolding split_slash collapse move
collapse_front s = refl

split_and_collapse-normalized :
    (ss : List (List ℕ)) → All IsSafe ss → split_and_collapse (normalized ss) ≡ ss
unfolding split_and_collapse normalized
split_and_collapse-normalized [] v = unfold join_slash in refl
split_and_collapse-normalized (s ∷ ss) v =
    let parts = split-join s ss (All-map {P = IsSafe} (λ t w. IsClean.no_slash w.0) (s ∷ ss) v) in
    rw (not_root s ss v.0.1) (
      collapse_front (join_slash (s ∷ ss))
      ∙ ap (collapse []) parts
      ∙ collapse_enter [] (s ∷ ss) (All-map {P = IsSafe} (λ t w. w.1) (s ∷ ss) v))

normalized-NoByte :
    (x : ℕ) (ss : List (List ℕ))
    → (x == b'/') ≡ false
    → All (NoByte x) ss
    → NoByte x (normalized ss)
unfolding normalized has_byte
normalized-NoByte x ss h k = let rest = join-NoByte x ss h k in ground arith

normalized-NoControl : (ss : List (List ℕ)) → All NoControl ss → NoControl (normalized ss)
unfolding normalized first_bad
normalized-NoControl ss k = let rest = join-NoControl ss k in ground arith

raw_error_of_clean : (s : List ℕ) → NoByte b'%' s → NoByte 92 s → NoControl s → raw_error s ≡ none
unfolding raw_error
raw_error_of_clean s percent backslash control =
    let (nul, controls) = control_tests s control in
    rw
      (
        nul,
        controls,
        backslash,
        has_escape_of_clean b'2' b'f' s percent,
        has_escape_of_clean b'2' b'F' s percent,
        has_escape_of_clean b'3' b'f' s percent,
        has_escape_of_clean b'3' b'F' s percent,
        has_escape_of_clean b'5' b'c' s percent,
        has_escape_of_clean b'5' b'C' s percent,
      )
      refl

check_decoded_of_clean :
    (t p d : List ℕ)
    → contains_percent_encoding d ≡ false
    → NoControl d
    → check_decoded t p d ≡ accepted (result_of t p d)
unfolding check_decoded
check_decoded_of_clean t p d once control = rw (once, control) refl

parse_path_of :
    (t p d : List ℕ)
    → before_query t ≡ p
    → raw_error p ≡ none
    → percent_decode p ≡ some d
    → parse_path t ≡ check_decoded t p d
unfolding parse_path
parse_path_of t p d path raw decoded = rw (path, raw, parse_path, path, decoded, path) refl

parse_path_of_clean :
    (s : List ℕ)
    → NoByte b'?' s
    → NoByte b'%' s
    → NoByte 92 s
    → NoControl s
    → parse_path s ≡ accepted (result_of s s s)
parse_path_of_clean s question percent backslash control =
    parse_path_of s s s (before_query_of_clean s question)
      (raw_error_of_clean s percent backslash control) (percent_decode_of_clean s percent)
    ∙ check_decoded_of_clean s s s (contains_of_clean s percent) control

-- Parsing the normalized path of an accepted target accepts it, with the same segments and the same
-- normalized path.
pub parse_path-normalized_path :
    (target : List ℕ) (p : ParsedPath)
    → parse_path target ≡ accepted p
    → (q : ParsedPath) × (parse_path p.normalized_path ≡ accepted q)
      × (q.decoded_segments ≡ p.decoded_segments)
      × (q.normalized_path ≡ p.normalized_path)
parse_path-normalized_path target p h =
    let (safe, eq) = parse_path-IsSafe target p h in
    let ss = p.decoded_segments in
    let n = normalized ss in
    let same = split_and_collapse-normalized ss safe in
    let parsed =
      parse_path_of_clean n
        (normalized-NoByte b'?' ss refl
          (All-map {P = IsSafe} (λ t w. IsClean.no_question w.0) ss safe))
        (normalized-NoByte b'%' ss refl
          (All-map {P = IsSafe} (λ t w. IsClean.no_percent w.0) ss safe))
        (normalized-NoByte 92 ss refl
          (All-map {P = IsSafe} (λ t w. IsClean.no_backslash w.0) ss safe))
        (normalized-NoControl ss (All-map {P = IsSafe} (λ t w. IsClean.no_control w.0) ss safe)) in
    (result_of n n n, ap parse_path eq ∙ parsed, same, ap normalized same ∙ sym eq)
