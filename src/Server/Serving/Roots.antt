-- ===== src/Server/Serving/Roots.antt =====
-- Paths below a web root.
use go_php.Prelude.{
  ◌≡◌, refl, List, [], ◌∷◌, ◌++◌, true, false, ◌==◌, All, arith, inl, inr, Bool-cases, ap, sym, ◌∙◌,
}
use go_php.Prelude.Bytes.{Bytes}
use go_php.Gateway.Path.{move, has_byte, split_slash, collapse, join_slash, normalized}
use go_php.Gateway.Path.Segments.{NoByte, split_cases}
use go_php.Gateway.FilePath.{is_rooted, clean, join_path}
use go_php.Gateway.Resolver.Clean.{IsPlain, collapse-append, collapse-split}
use go_php.Server.Serving.{ends_slash, trim_slash}

split-append : (s rest : Bytes) → split_slash (s ++ b'/' ∷ rest) ≡ split_slash s ++ split_slash rest
unfolding split_slash
split-append [] rest = refl
split-append (b ∷ s) rest = elim (Bool-cases (b == b'/')) [
  | inl slash ↦ rw slash (ap (λ l. [] ∷ l) (split-append s rest))
  | inr other ↦ let (t, ts, eq, same) = split_cases s in rw (other, split-append s rest, eq) refl
]

join_filled :
    (q : Bytes) (qs : List Bytes)
    → IsPlain q
    → (b : _) × (t : Bytes) × (join_slash (q ∷ qs) ≡ b ∷ t)
unfolding join_slash move
join_filled [] qs h = absurd (cc)
join_filled (b ∷ q) [] h = (b, q, refl)
join_filled (b ∷ q) (r ∷ qs) h = (b, q ++ b'/' ∷ join_slash (r ∷ qs), refl)

clean_rooted_at :
    (s t : Bytes)
    → is_rooted s ≡ true
    → clean (s ++ t) ≡ normalized (collapse [] (split_slash (s ++ t)))
unfolding clean
clean_rooted_at [] t h = absurd (cc)
clean_rooted_at (b ∷ s) t h = rw h refl

-- Below a rooted directory.
pub below_root :
    (root q : Bytes) (qs : List Bytes)
    → is_rooted root ≡ true
    → All IsPlain (q ∷ qs)
    → join_path root (join_slash (q ∷ qs)) ≡ normalized (collapse [] (split_slash root) ++ q ∷ qs)
below_root [] q qs rooted h = absurd (cc)
below_root (b ∷ root) q qs rooted h =
    let (c, t, filled) = join_filled q qs h.0 in
    ap (join_path (b ∷ root)) filled
    ∙ ap (λ s. clean ((b ∷ root) ++ b'/' ∷ s)) (sym filled)
    ∙ clean_rooted_at (b ∷ root) (b'/' ∷ join_slash (q ∷ qs)) rooted
    ∙ ap normalized (
        ap (collapse []) (split-append (b ∷ root) (join_slash (q ∷ qs)))
        ∙ collapse-append (split_slash (b ∷ root)) [] (split_slash (join_slash (q ∷ qs)))
        ∙ collapse-split (collapse [] (split_slash (b ∷ root))) (q ∷ qs) h)

pub trim-normalized : (qs : List Bytes) → trim_slash (normalized qs) ≡ join_slash qs
unfolding normalized
trim-normalized qs = refl

-- A normalized path that has a segment does not end in a slash.
ends_slash-append : (s : Bytes) (b : _) (t : Bytes) → ends_slash (s ++ b ∷ t) ≡ ends_slash (b ∷ t)
ends_slash-append [] b t = refl
ends_slash-append (a ∷ []) b t = refl
ends_slash-append (a ∷ c ∷ s) b t = ends_slash-append (c ∷ s) b t

ends_slash_of_clean : (s : Bytes) → NoByte b'/' s → ends_slash s ≡ false
unfolding has_byte
ends_slash_of_clean [] h = refl
ends_slash_of_clean (b ∷ []) h = ground arith
ends_slash_of_clean (a ∷ b ∷ s) h = ends_slash_of_clean (b ∷ s) (ground arith)

ends_slash-join :
    (q : Bytes) (qs : List Bytes) → All IsPlain (q ∷ qs) → ends_slash (join_slash (q ∷ qs)) ≡ false
unfolding join_slash
ends_slash-join q [] h = ends_slash_of_clean q h.0.0
ends_slash-join q (r ∷ qs) h =
    let (c, t, filled) = join_filled r qs h.1.0 in
    ends_slash-append q b'/' (join_slash (r ∷ qs))
    ∙ ap (λ s. ends_slash (b'/' ∷ s)) filled
    ∙ ap ends_slash (sym filled)
    ∙ ends_slash-join r qs h.1

pub ends_slash-normalized :
    (q : Bytes) (qs : List Bytes) → All IsPlain (q ∷ qs) → ends_slash (normalized (q ∷ qs)) ≡ false
unfolding normalized
ends_slash-normalized q qs h =
    let (c, t, filled) = join_filled q qs h.0 in
    ap (λ s. ends_slash (b'/' ∷ s)) filled ∙ ap ends_slash (sym filled) ∙ ends_slash-join q qs h
