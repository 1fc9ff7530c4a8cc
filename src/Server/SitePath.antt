-- ===== src/Server/SitePath.antt =====
-- The addresses of sites: `generateID`, and what `handleSiteByID` and `handleExtensionsSite` of
-- internal/ui/handlers.go read from a path under /api/sites/.
pub mod Laws
use Prim.Native.Char.{code}
use go_php.Prelude.{ℕ, ◌-◌, String, Bool, ◌||◌, ◌&&◌, leb, ◌==◌, str_eq, if◌then◌else◌}
use go_php.Prelude.Text.{◌++◌, same, has_suffix, text_length, text_drop, text_take}

abbrev pub alphabet : String
alphabet = "abcdefghijklmnopqrstuvwxyz"

-- string(c + 32) of a capital letter c
unfoldable pub lower_letter : ℕ → String
lower_letter c = text_take 1 (text_drop (c - b'A') alphabet)

unfoldable pub is_id_char : ℕ → Bool
is_id_char c = (leb b'a' c && leb c b'z') || (leb b'0' c && leb c b'9')

-- One round of the loop: what the character adds to the id.
unfoldable pub id_part : ℕ → String → String
unfolding is_id_char lower_letter
id_part c itself =
    if is_id_char c
    then itself
    else if leb b'A' c && leb c b'Z'
    then lower_letter c
    else if c == b' ' || c == b'-'
    then "-"
    else ""

unfoldable pub id_from : String → String
unfolding id_part
id_from String.[] = ""
id_from (String.◌∷◌ c s) = id_part (code c) (String.◌∷◌ c "") ++ id_from s

abbrev pub or_site : String → String
or_site String.[] = "site"
or_site (String.◌∷◌ c s) = String.◌∷◌ c s

unfoldable pub generate_id : String → String
unfolding id_from
generate_id name = or_site (id_from name)

-- What a path under /api/sites/ addresses; `id_required` is the answer 400.
pub data SiteTarget : Type 0 where
  by_id extensions_of : String → SiteTarget
  id_required : SiteTarget

abbrev pub unless_empty : (String → SiteTarget) → String → SiteTarget
unless_empty k String.[] = id_required
unless_empty k (String.◌∷◌ c s) = k (String.◌∷◌ c s)

-- handleExtensionsSite: len(prefix) and len(suffix) are 11.
unfoldable pub extensions_target : String → SiteTarget
extensions_target path =
    if leb (text_length path) 22
    then id_required
    else unless_empty extensions_of (text_take (text_length path - 22) (text_drop 11 path))

-- handleSiteByID
unfoldable pub site_target : String → SiteTarget
unfolding extensions_target
site_target path =
    if has_suffix path "/extensions"
    then extensions_target path
    else unless_empty by_id (text_drop 11 path)
