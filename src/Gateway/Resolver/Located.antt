-- ===== src/Gateway/Resolver/Located.antt =====
-- Where the resolver looks for a request path that the parser accepts.
use mathlib.Core.Path.{subst}
use mathlib.Core.List.{append-nil}
use go_php.Prelude.{◌≡◌, ◌≢◌, refl, some, List, [], ◌∷◌, ◌++◌, true, false, All, ap, sym, ◌∙◌}
use go_php.Prelude.Bytes.{Bytes, bytes, has_prefix}
use go_php.Gateway.Path.{ParsedPath, accepted, parse_path, split_slash, collapse, normalized}
use go_php.Gateway.Path.Safe.{IsClean, IsSafe, parse_path-IsSafe}
use go_php.Gateway.Path.Normal.{All-map}
use go_php.Gateway.FilePath.{is_rooted, clean, join_path}
use go_php.Gateway.Resolver.{
  SymlinkMode, System, Resolver, new_resolver, absolute, is_protected, is_under_root, at_boundary,
  after_prefix, at, locate,
}
use go_php.Gateway.Resolver.Clean.{
  IsPlain, kept-IsPlain, clean-normalized, clean-joined, normalized-append, after_prefix-append,
}

pub All-append : (P : Bytes → Type 0) (xs ys : List Bytes) → All P xs → All P ys → All P (xs ++ ys)
All-append P [] ys h k = k
All-append P (x ∷ xs) ys h k = (h.0, All-append P xs ys h.1 k)

boundary : (ps : List Bytes) → at_boundary (some (normalized ps)) ≡ true
unfolding normalized
boundary ps = refl

under_root :
    (r : Bytes) (rs ps : List Bytes)
    → is_under_root (normalized ((r ∷ rs) ++ ps)) (normalized (r ∷ rs)) ≡ true
unfolding is_under_root
under_root r rs [] =
    let whole : (r ∷ rs) ++ [] ≡ r ∷ rs = append-nil (r ∷ rs) in
    ap (λ l. at_boundary (after_prefix (normalized l) (normalized (r ∷ rs)))) whole
    ∙ ap (λ s. at_boundary (after_prefix s (normalized (r ∷ rs))))
        (sym (append-nil (normalized (r ∷ rs))))
    ∙ ap at_boundary (after_prefix-append (normalized (r ∷ rs)) [])
under_root r rs (p ∷ ps) =
    ap (λ s. at_boundary (after_prefix s (normalized (r ∷ rs)))) (normalized-append r rs p ps)
    ∙ ap at_boundary (after_prefix-append (normalized (r ∷ rs)) (normalized (p ∷ ps)))
    ∙ boundary (p ∷ ps)

join_path_of :
    (sys : System) (r : Bytes) (rs ps : List Bytes)
    → absolute sys (join_path (normalized (r ∷ rs)) (normalized ps))
      ≡ absolute sys (clean (normalized (r ∷ rs) ++ b'/' ∷ normalized ps))
unfolding normalized
join_path_of sys r rs ps = refl

absolute_of :
    (sys : System) (ps : List Bytes) → absolute sys (normalized ps) ≡ some (clean (normalized ps))
unfolding normalized
absolute_of sys ps = refl

absolute-joined :
    (sys : System) (r : Bytes) (rs ps : List Bytes)
    → All IsPlain (r ∷ rs)
    → All IsPlain ps
    → absolute sys (join_path (normalized (r ∷ rs)) (normalized ps))
      ≡ some (normalized ((r ∷ rs) ++ ps))
absolute-joined sys r rs ps h k =
    join_path_of sys r rs ps
    ∙ ap (absolute sys) (clean-joined r rs ps h k)
    ∙ absolute_of sys ((r ∷ rs) ++ ps)
    ∙ ap some (clean-normalized ((r ∷ rs) ++ ps) (All-append IsPlain (r ∷ rs) ps h k))

locate_of :
    (sys : System) (r : Resolver) (path abs : Bytes)
    → has_prefix path (bytes "/") ≡ true
    → is_protected sys r.protected path ≡ false
    → absolute sys (join_path r.root path) ≡ some abs
    → is_under_root abs r.root ≡ true
    → locate sys r path ≡ at abs
unfolding locate
locate_of sys r path abs slash open_path joined under = rw (slash, open_path, joined, under) refl

clean-root :
    (doc_root : Bytes)
    → is_rooted doc_root ≡ true
    → clean doc_root ≡ normalized (collapse [] (split_slash doc_root))
unfolding clean
clean-root doc_root h = rw h refl

slash_first : (ps : List Bytes) → has_prefix (normalized ps) (bytes "/") ≡ true
unfolding has_prefix normalized
slash_first ps = refl

locate-normalized :
    (sys : System) (doc_root : Bytes) (symlinks : SymlinkMode) (protected : List Bytes)
    (segs ps : List Bytes)
    → clean doc_root ≡ normalized segs
    → All IsPlain segs
    → segs ≢ []
    → All IsPlain ps
    → is_protected sys protected (normalized ps) ≡ false
    → locate sys (new_resolver doc_root symlinks protected) (normalized ps)
      ≡ at (normalized (segs ++ ps))
locate-normalized sys doc_root symlinks protected [] ps e h some_root k free =
    absurd (some_root refl)
locate-normalized sys doc_root symlinks protected (r ∷ rs) ps e h some_root k free =
    locate_of sys (new_resolver doc_root symlinks protected) (normalized ps)
      (normalized ((r ∷ rs) ++ ps)) (slash_first ps) free
      (ap (λ root. absolute sys (join_path root (normalized ps))) e
        ∙ absolute-joined sys r rs ps h k)
      (ap (is_under_root (normalized ((r ∷ rs) ++ ps))) e ∙ under_root r rs ps)

-- For every document root that is absolute and not "/", and every target that the parser accepts: if
-- the normalized path is not protected, the resolver looks at the segments of the path below those of
-- the root, and does not take the path for one that escapes.
pub locate-parse_path :
    (sys : System) (doc_root : Bytes) (symlinks : SymlinkMode) (protected : List Bytes)
    (target : Bytes) (p : ParsedPath)
    → is_rooted doc_root ≡ true
    → collapse [] (split_slash doc_root) ≢ []
    → parse_path target ≡ accepted p
    → is_protected sys protected p.normalized_path ≡ false
    → locate sys (new_resolver doc_root symlinks protected) p.normalized_path
      ≡ at (normalized (collapse [] (split_slash doc_root) ++ p.decoded_segments))
locate-parse_path sys doc_root symlinks protected target p rooted some_root h free =
    let (safe, eq) = parse_path-IsSafe target p h in
    let plain : All IsPlain p.decoded_segments =
      All-map {P = IsSafe} (λ s w. (IsClean.no_slash w.0, w.1)) p.decoded_segments safe in
    ap (locate sys (new_resolver doc_root symlinks protected)) eq
    ∙ locate-normalized sys doc_root symlinks protected (collapse [] (split_slash doc_root))
        p.decoded_segments (clean-root doc_root rooted) (kept-IsPlain doc_root) some_root plain
        (subst (λ s. is_protected sys protected s ≡ false) eq free)
