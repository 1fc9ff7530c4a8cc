-- ===== src/Gateway/Resolver/Clean.antt =====
-- Cleaning and joining rooted paths.
use mathlib.Core.List.{append_assoc, append-nil}
use go_php.Prelude.{◌≡◌, refl, some, List, [], ◌∷◌, ◌++◌, true, ◌==◌, All, arith, ap, sym, ◌∙◌}
use go_php.Prelude.Bytes.{Bytes}
use go_php.Gateway.Path.{enter, move, moved, split_slash, collapse, join_slash, normalized}
use go_php.Gateway.Path.Segments.{
  NoByte, split-NoSlash, collapse-All, collapse_enter, split_append, split-join,
}
use go_php.Gateway.Path.Normal.{All-map}
use go_php.Gateway.FilePath.{clean}
use go_php.Gateway.Resolver.{after_prefix}

-- A segment that cleaning keeps.
abbrev pub IsPlain : Bytes → Type 0
IsPlain s = NoByte b'/' s × (move s ≡ enter)

pub kept-IsPlain : (p : Bytes) → All IsPlain (collapse [] (split_slash p))
kept-IsPlain p = collapse-All (NoByte b'/') [] (split_slash p) tt (split-NoSlash p)

no_slashes : (ss : List Bytes) → All IsPlain ss → All (NoByte b'/') ss
no_slashes = All-map {P = IsPlain} (λ s h. h.0)

enters : (ss : List Bytes) → All IsPlain ss → All (λ s. move s ≡ enter) ss
enters = All-map {P = IsPlain} (λ s h. h.1)

split-join-append :
    (s : Bytes) (ss : List Bytes) (rest : Bytes)
    → All (NoByte b'/') (s ∷ ss)
    → split_slash (join_slash (s ∷ ss) ++ b'/' ∷ rest) ≡ (s ∷ ss) ++ split_slash rest
unfolding join_slash
split-join-append s [] rest h = split_append s rest h.0
split-join-append s (t ∷ ss) rest h =
    ap split_slash (append_assoc s (b'/' ∷ join_slash (t ∷ ss)) (b'/' ∷ rest))
    ∙ split_append s (join_slash (t ∷ ss) ++ b'/' ∷ rest) h.0
    ∙ ap (λ l. s ∷ l) (split-join-append t ss rest h.1)

pub collapse-append :
    (xs result ys : List Bytes) → collapse result (xs ++ ys) ≡ collapse (collapse result xs) ys
unfolding collapse
collapse-append [] result ys = refl
collapse-append (x ∷ xs) result ys = collapse-append xs (moved (move x) x result) ys

pub collapse-split :
    (result ps : List Bytes)
    → All IsPlain ps
    → collapse result (split_slash (join_slash ps)) ≡ result ++ ps
collapse-split result [] h = unfold join_slash split_slash collapse move in sym (append-nil result)
collapse-split result (p ∷ ps) h =
    ap (collapse result) (split-join p ps (no_slashes (p ∷ ps) h))
    ∙ collapse_enter result (p ∷ ps) (enters (p ∷ ps) h)

-- The empty segment that a slash leaves.
collapse_slash :
    (result : List Bytes) (s : Bytes)
    → collapse result (split_slash (b'/' ∷ s)) ≡ collapse result (split_slash s)
unfolding split_slash collapse move
collapse_slash result s = refl

clean_rooted : (s : Bytes) → clean (b'/' ∷ s) ≡ normalized (collapse [] (split_slash (b'/' ∷ s)))
unfolding clean
clean_rooted s = refl

pub clean-normalized : (ps : List Bytes) → All IsPlain ps → clean (normalized ps) ≡ normalized ps
unfolding normalized
clean-normalized ps h =
    clean_rooted (join_slash ps)
    ∙ ap normalized (collapse_slash [] (join_slash ps) ∙ collapse-split [] ps h)

-- A root and a path below it.
pub clean-joined :
    (r : Bytes) (rs ps : List Bytes)
    → All IsPlain (r ∷ rs)
    → All IsPlain ps
    → clean (normalized (r ∷ rs) ++ b'/' ∷ normalized ps) ≡ normalized ((r ∷ rs) ++ ps)
unfolding normalized
clean-joined r rs ps h k =
    clean_rooted (join_slash (r ∷ rs) ++ b'/' ∷ b'/' ∷ join_slash ps)
    ∙ ap normalized (
        collapse_slash [] (join_slash (r ∷ rs) ++ b'/' ∷ b'/' ∷ join_slash ps)
        ∙ ap (collapse []) (split-join-append r rs (b'/' ∷ join_slash ps) (no_slashes (r ∷ rs) h))
        ∙ collapse-append (r ∷ rs) [] (split_slash (b'/' ∷ join_slash ps))
        ∙ ap (λ l. collapse l (split_slash (b'/' ∷ join_slash ps)))
            (collapse_enter [] (r ∷ rs) (enters (r ∷ rs) h))
        ∙ collapse_slash (r ∷ rs) (join_slash ps)
        ∙ collapse-split (r ∷ rs) ps k)

join-append :
    (r : Bytes) (rs : List Bytes) (p : Bytes) (ps : List Bytes)
    → join_slash ((r ∷ rs) ++ p ∷ ps) ≡ join_slash (r ∷ rs) ++ b'/' ∷ join_slash (p ∷ ps)
unfolding join_slash
join-append r [] p ps = refl
join-append r (s ∷ rs) p ps =
    ap (λ l. r ++ b'/' ∷ l) (join-append s rs p ps)
    ∙ sym (append_assoc r (b'/' ∷ join_slash (s ∷ rs)) (b'/' ∷ join_slash (p ∷ ps)))

pub normalized-append :
    (r : Bytes) (rs : List Bytes) (p : Bytes) (ps : List Bytes)
    → normalized ((r ∷ rs) ++ p ∷ ps) ≡ normalized (r ∷ rs) ++ normalized (p ∷ ps)
unfolding normalized
normalized-append r rs p ps = ap (λ l. b'/' ∷ l) (join-append r rs p ps)

pub after_prefix-append : (s t : Bytes) → after_prefix (s ++ t) s ≡ some t
after_prefix-append [] t = refl
after_prefix-append (b ∷ s) t =
    let same : (b == b) ≡ true = ground arith in rw same (after_prefix-append s t)
