-- ===== src/Server/SitePath/Laws.antt =====
-- Generated ids, and the addresses that the dashboard makes of them.
use Prim.Native.Char.{Char, code}
use go_php.Prelude.{
  ℕ, ◌-◌, String, ◌≡◌, refl, Bool, false, ◌||◌, ◌&&◌, leb, ◌==◌, arith, ap, Bool-cases, inl, inr,
}
use go_php.Prelude.Text.{
  ◌++◌, has_suffix, AllChars, AllChars-++, AllChars-drop, AllChars-take, chars_test_sound,
}
use go_php.Server.SitePath.{
  alphabet, lower_letter, is_id_char, id_part, id_from, or_site, generate_id, by_id, unless_empty,
}
use go_php.Server.Mux.{url_path}

-- Lower-case letters, digits and dashes.
unfoldable pub is_slug_char : ℕ → Bool
unfolding is_id_char
is_slug_char c = is_id_char c || c == b'-'

alphabet-slug : AllChars is_slug_char alphabet
unfolding is_slug_char
alphabet-slug = chars_test_sound is_slug_char alphabet refl

lower_letter-slug : (c : ℕ) → AllChars is_slug_char (lower_letter c)
unfolding lower_letter
lower_letter-slug c =
    AllChars-take is_slug_char 1 _ (AllChars-drop is_slug_char (c - b'A') alphabet alphabet-slug)

id_part-slug : (c : Char) → AllChars is_slug_char (id_part (code c) (String.◌∷◌ c ""))
unfolding id_part is_slug_char
id_part-slug c = elim (Bool-cases (is_id_char (code c))) [
  | inl plain ↦ rw plain (rw plain refl, tt)
  | inr other ↦ rw other (elim (Bool-cases (leb b'A' (code c) && leb (code c) b'Z')) [
    | inl capital ↦ rw capital (lower_letter-slug (code c))
    | inr small ↦ rw small (elim (Bool-cases (code c == b' ' || code c == b'-')) [
      | inl dash ↦ rw dash (refl, tt)
      | inr dropped ↦ rw dropped tt
    ])
  ])
]

id_from-slug : (s : String) → AllChars is_slug_char (id_from s)
unfolding id_from
id_from-slug String.[] = tt
id_from-slug (String.◌∷◌ c s) =
    AllChars-++ is_slug_char _ (id_from s) (id_part-slug c) (id_from-slug s)

or_site-slug : (s : String) → AllChars is_slug_char s → AllChars is_slug_char (or_site s)
unfolding is_slug_char
or_site-slug String.[] h = (refl, (refl, (refl, (refl, tt))))
or_site-slug (String.◌∷◌ c s) h = h

or_site-ne : (s : String) → unless_empty by_id (or_site s) ≡ by_id (or_site s)
or_site-ne String.[] = refl
or_site-ne (String.◌∷◌ c s) = refl

-- Every generated id consists of lower-case letters, digits and dashes, and is not empty.
pub generate_id-slug :
    (name : String)
    → AllChars is_slug_char (generate_id name)
      × (unless_empty by_id (generate_id name) ≡ by_id (generate_id name))
unfolding generate_id
generate_id-slug name = (or_site-slug (id_from name) (id_from-slug name), or_site-ne (id_from name))

pub url_path-slug : (s : String) → AllChars is_slug_char s → url_path s ≡ s
unfolding url_path is_slug_char
url_path-slug String.[] h = refl
url_path-slug (String.◌∷◌ c s) h =
    let other : (code c == b'?') ≡ false = ground arith in
    rw other (ap (String.◌∷◌ c) (url_path-slug s h.1))

pub url_path-slug_append :
    (s t : String) → AllChars is_slug_char s → url_path (s ++ t) ≡ s ++ url_path t
unfolding url_path is_slug_char
url_path-slug_append String.[] t h = refl
url_path-slug_append (String.◌∷◌ c s) t h =
    let other : (code c == b'?') ≡ false = ground arith in
    rw other (ap (String.◌∷◌ c) (url_path-slug_append s t h.1))

pub no_suffix : (s : String) → AllChars is_slug_char s → has_suffix s "/extensions" ≡ false
unfolding has_suffix is_slug_char
no_suffix String.[] h = refl
no_suffix (String.◌∷◌ c s) h =
    let other : (code c == b'/') ≡ false = ground arith in rw other (no_suffix s h.1)
