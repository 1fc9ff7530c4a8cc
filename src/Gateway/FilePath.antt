-- ===== src/Gateway/FilePath.antt =====
-- What the sources use of the package path/filepath, for paths with slashes: Clean, Join and Base.
use go_php.Prelude.{List, [], ◌∷◌, ◌++◌, Bool, true, false, ◌==◌, if◌then◌else◌}
use go_php.Prelude.Bytes.{Bytes, bytes, is_empty}
use go_php.Gateway.Path.{
  Move, skip, up, enter, move, drop_last, split_slash, collapse, join_slash, normalized,
}

-- filepath.Clean. A path that is not rooted keeps the ".." in front.
abbrev pub ends_up : List Bytes → Bool
ends_up [] = true
ends_up (s ∷ []) = elim (move s) [ up ↦ true | skip ↦ false | enter ↦ false ]
ends_up (s ∷ t ∷ ss) = ends_up (t ∷ ss)

abbrev pub moved_relative : Move → Bytes → List Bytes → List Bytes
moved_relative skip seg result = result
moved_relative enter seg result = result ++ seg ∷ []
moved_relative up seg result = if ends_up result then result ++ seg ∷ [] else drop_last result

unfoldable pub collapse_relative : List Bytes → List Bytes → List Bytes
collapse_relative result [] = result
collapse_relative result (seg ∷ segs) =
    collapse_relative (moved_relative (move seg) seg result) segs

abbrev pub relative_text : List Bytes → Bytes
relative_text [] = bytes "."
relative_text (s ∷ ss) = join_slash (s ∷ ss)

abbrev pub is_rooted : Bytes → Bool
is_rooted [] = false
is_rooted (b ∷ bs) = b == b'/'

unfoldable pub clean : Bytes → Bytes
clean p =
    if is_rooted p
    then normalized (collapse [] (split_slash p))
    else relative_text (collapse_relative [] (split_slash p))

-- filepath.Join, of two elements.
abbrev pub join_path : Bytes → Bytes → Bytes
join_path a b =
    if is_empty a
    then (if is_empty b then [] else clean b)
    else if is_empty b
    then clean a
    else clean (a ++ b'/' ∷ b)

-- filepath.Base: the last segment that is not empty.
abbrev pub last_segment : Bytes → List Bytes → Bytes
last_segment kept [] = kept
last_segment kept (s ∷ ss) = last_segment (if is_empty s then kept else s) ss

abbrev pub base : Bytes → Bytes
base p = if is_empty p then bytes "." else last_segment (bytes "/") (split_slash p)
