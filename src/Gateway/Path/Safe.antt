-- ===== src/Gateway/Path/Safe.antt =====
-- The segments of accepted paths.
use go_php.Prelude.{
  ℕ, ◌≡◌, refl, false, List, [], ◌∷◌, none, some, All, arith, inl, inr, Bool-cases, Option-cases,
  ap, sym,
}
use go_php.Gateway.Path.{
  PathError, ParsedPath, rejected, accepted, has_byte, has_escape, before_query, first_bad,
  percent_decode, contains_percent_encoding, split_slash, enter, move, is_root, split_and_collapse,
  normalized, result_of, check_decoded, raw_error, parse_path,
}
use go_php.Gateway.Path.Decode.{percent_decode-Decoded, no_percent, no_backslash, no_question}
use go_php.Gateway.Path.Segments.{
  NoByte, NoControl, split-NoByte, split-NoControl, split-NoSlash, collapse-All,
}

-- The bytes of a segment.
pub record IsClean (s : List ℕ) : Type 0 where
  pub no_slash : NoByte b'/' s
  pub no_percent : NoByte b'%' s
  pub no_question : NoByte b'?' s
  pub no_backslash : NoByte 92 s
  pub no_control : NoControl s

-- Clean, and not empty, ".", or "..".
abbrev pub IsSafe : List ℕ → Type 0
IsSafe s = IsClean s × (move s ≡ enter)

-- What an accepted path has passed.
pub record Passed (path decoded : List ℕ) : Type 0 where
  pub raw : raw_error path ≡ none
  pub decodes : percent_decode path ≡ some decoded
  pub once : contains_percent_encoding decoded ≡ false
  pub no_control : first_bad decoded ≡ none

accepted-injective : (p q : ParsedPath) → accepted p ≡ accepted q → p ≡ q
accepted-injective p q h = ap (λ r. elim r [ rejected e ↦ p | accepted a ↦ a ]) h

rejected-ne-accepted {ℓ} :
    {A : Type ℓ} (e : PathError) (p : ParsedPath) → rejected e ≡ accepted p → A
rejected-ne-accepted e p h = absurd (cc)

checked :
    (target path decoded : List ℕ) (p : ParsedPath)
    → check_decoded target path decoded ≡ accepted p
    → (contains_percent_encoding decoded ≡ false)
      × (first_bad decoded ≡ none)
      × (p ≡ result_of target path decoded)
unfolding check_decoded
checked target path decoded p h = elim (Bool-cases (contains_percent_encoding decoded)) [
  | inl twice ↦ rejected-ne-accepted _ p (rw twice at h)
  | inr once ↦ elim (Option-cases (first_bad decoded)) [
    | inr (e, bad) ↦ rejected-ne-accepted _ p (rw (once, bad, check_decoded) at h)
    | inl clean ↦ (once, clean, sym (accepted-injective _ _ (rw (once, clean, check_decoded) at h)))
  ]
]

pub parse_path-Passed :
    (target : List ℕ) (p : ParsedPath)
    → parse_path target ≡ accepted p
    → (decoded : List ℕ) × Passed (before_query target) decoded
      × (p ≡ result_of target (before_query target) decoded)
unfolding parse_path
parse_path-Passed target p h = elim (Option-cases (raw_error (before_query target))) [
  | inr (e, bad) ↦ rejected-ne-accepted _ p (rw (bad, parse_path) at h)
  | inl good ↦ elim (Option-cases (percent_decode (before_query target))) [
    | inl broken ↦ rejected-ne-accepted _ p (rw (good, broken, parse_path) at h)
    | inr (d, found) ↦
        let (once, clean, eq) =
          checked target (before_query target) d p (rw (good, found, parse_path) at h) in
        (d, record { raw = good; decodes = found; once = once; no_control = clean }, eq)
  ]
]

before_query-NoByte : (t : List ℕ) → NoByte b'?' (before_query t)
unfolding has_byte before_query
before_query-NoByte [] = refl
before_query-NoByte (b ∷ bs) = ground (arith, before_query-NoByte bs)

-- The tests that the raw path has passed.
raw_tests :
    (s : List ℕ)
    → raw_error s ≡ none
    → (has_byte 92 s ≡ false)
      × (has_escape b'3' b'f' s ≡ false)
      × (has_escape b'3' b'F' s ≡ false)
      × (has_escape b'5' b'c' s ≡ false)
      × (has_escape b'5' b'C' s ≡ false)
unfolding raw_error
raw_tests s h = (ground arith, ground arith, ground arith, ground arith, ground arith)

All-zip {ℓ κ} :
    (P : List ℕ → Type ℓ) (Q : List ℕ → Type κ) (ss : List (List ℕ))
    → All P ss
    → All Q ss
    → All (λ s. P s × Q s) ss
All-zip P Q [] h k = tt
All-zip P Q (s ∷ ss) h k = ((h.0, k.0), All-zip P Q ss h.1 k.1)

All-IsClean :
    (ss : List (List ℕ))
    → All (NoByte b'/') ss
    → All (NoByte b'%') ss
    → All (NoByte b'?') ss
    → All (NoByte 92) ss
    → All NoControl ss
    → All IsClean ss
All-IsClean [] a b c d e = tt
All-IsClean (s ∷ ss) a b c d e = (
  record {
    no_slash = a.0;
    no_percent = b.0;
    no_question = c.0;
    no_backslash = d.0;
    no_control = e.0;
  },
  All-IsClean ss a.1 b.1 c.1 d.1 e.1,
)

split_and_collapse-IsSafe :
    (d : List ℕ)
    → NoByte b'%' d
    → NoByte b'?' d
    → NoByte 92 d
    → NoControl d
    → All IsSafe (split_and_collapse d)
unfolding split_and_collapse
split_and_collapse-IsSafe d percent question backslash control = elim (Bool-cases (is_root d)) [
  | inl root ↦ rw root tt
  | inr other ↦ rw other (
      collapse-All IsClean [] (split_slash d) tt (
        All-IsClean (split_slash d) (split-NoSlash d) (split-NoByte b'%' d percent)
          (split-NoByte b'?' d question) (split-NoByte 92 d backslash) (split-NoControl d control)))
]

-- The decoded text of an accepted path has no percent sign, question mark, backslash or control.
decoded-clean :
    (t d : List ℕ)
    → Passed (before_query t) d
    → NoByte b'%' d × NoByte b'?' d × NoByte 92 d × NoControl d
decoded-clean t d v =
    let shape = percent_decode-Decoded (before_query t) d v.decodes in
    let (backslash, q1, q2, b1, b2) = raw_tests (before_query t) v.raw in
    (
      elim (no_percent shape) [ inl clean ↦ clean | inr twice ↦ absurd (cc) ],
      no_question shape (before_query-NoByte t) q1 q2,
      no_backslash shape backslash b1 b2,
      v.no_control,
    )

-- Whatever target is parsed: if it is accepted then no segment is empty, "." or "..", none holds a
-- slash, a backslash, a percent sign, a question mark, a NUL or a control character, and the
-- normalized path is the segments behind their slashes.
pub parse_path-IsSafe :
    (target : List ℕ) (p : ParsedPath)
    → parse_path target ≡ accepted p
    → All IsSafe p.decoded_segments × (p.normalized_path ≡ normalized p.decoded_segments)
parse_path-IsSafe target p h =
    let (d, v, eq) = parse_path-Passed target p h in
    let (percent, question, backslash, control) = decoded-clean target d v in
    rw eq (split_and_collapse-IsSafe d percent question backslash control, refl)
