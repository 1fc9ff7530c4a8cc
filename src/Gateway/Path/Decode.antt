-- ===== src/Gateway/Path/Decode.antt =====
-- What one pass of percent decoding leaves.
use mathlib.Core.Path.{subst}
use mathlib.Core.Option.{some-injective, none-ne-some}
use go_php.Prelude.{
  ℕ, ◌+◌, ◌*◌, ◌≡◌, refl, true, false, ◌||◌, List, [], ◌∷◌, Option, none, some, ◌==◌, arith, ◌⊎◌,
  inl, inr, Bool-cases, Option-cases, ap, sym, ◌∙◌, ◌<◌, ◌≤◌,
}
use go_php.Gateway.Path.{
  has_byte, has_escape, hex_digit, hex_pair, escaped, put, put_escape, percent_decode,
  contains_percent_encoding,
}

-- The steps of the decoder.
decode_plain :
    (p a b : ℕ) (bs : List ℕ)
    → (p == b'%') ≡ false
    → percent_decode (p ∷ a ∷ b ∷ bs) ≡ put (λ d. p ∷ d) (percent_decode (a ∷ b ∷ bs))
unfolding percent_decode
decode_plain p a b bs h = rw (percent_decode, h) refl

decode_escape :
    (p a b : ℕ) (bs : List ℕ)
    → (p == b'%') ≡ true
    → percent_decode (p ∷ a ∷ b ∷ bs) ≡ put_escape (hex_pair a b) (percent_decode bs)
unfolding percent_decode
decode_escape p a b bs h = rw (percent_decode, h) refl

put_cases :
    (f : List ℕ → List ℕ) (o : Option (List ℕ)) (d : List ℕ)
    → put f o ≡ some d
    → (e : List ℕ) × (o ≡ some e) × (d ≡ f e)
put_cases f none d h = absurd (cc)
put_cases f (some e) d h = (e, refl, sym (some-injective _ _ h))

put_escape_cases :
    (v : Option ℕ) (o : Option (List ℕ)) (d : List ℕ)
    → put_escape v o ≡ some d
    → (n : ℕ) × (e : List ℕ) × (v ≡ some n) × (o ≡ some e) × (d ≡ escaped n e)
put_escape_cases none o d h = absurd (cc)
put_escape_cases (some n) o d h =
    let (e, found, eq) = put_cases (escaped n) o d h in (n, e, refl, found, eq)

-- How a text that decodes begins: with a plain byte, or with an escape.
pub data Decoded : List ℕ → List ℕ → Type 0 where
  nothing : Decoded [] []
  plain : {p : ℕ} {bs d : List ℕ} → (p == b'%') ≡ false → Decoded bs d → Decoded (p ∷ bs) (p ∷ d)
  escape :
      {p a b n : ℕ} {bs d e : List ℕ}
      → (p == b'%') ≡ true
      → hex_pair a b ≡ some n
      → e ≡ escaped n d
      → Decoded bs d
      → Decoded (p ∷ a ∷ b ∷ bs) e

Decoded-nil : (d : List ℕ) → some [] ≡ some d → Decoded [] d
Decoded-nil d h = subst (Decoded []) (some-injective _ _ h) nothing

Decoded-plain :
    (p : ℕ) (bs d : List ℕ)
    → (p == b'%') ≡ false
    → ((e : List ℕ) → percent_decode bs ≡ some e → Decoded bs e)
    → put (λ t. p ∷ t) (percent_decode bs) ≡ some d
    → Decoded (p ∷ bs) d
Decoded-plain p bs d h ih k =
    let (e, found, eq) = put_cases (λ t. p ∷ t) (percent_decode bs) d k in
    subst (Decoded (p ∷ bs)) (sym eq) (plain h (ih e found))

pub percent_decode-Decoded : (s d : List ℕ) → percent_decode s ≡ some d → Decoded s d
unfolding percent_decode
percent_decode-Decoded [] d h = Decoded-nil d h
percent_decode-Decoded (p ∷ []) d h = elim (Bool-cases (p == b'%')) [
  | inl percent ↦ absurd (none-ne-some d (rw percent at h))
  | inr other ↦
      let same : some (p ∷ []) ≡ some d = rw other at h in
      subst (Decoded (p ∷ [])) (some-injective _ _ same) (plain other nothing)
]
percent_decode-Decoded (p ∷ a ∷ []) d h = elim (Bool-cases (p == b'%')) [
  | inl percent ↦ absurd (none-ne-some d (rw percent at h))
  | inr other ↦ Decoded-plain p (a ∷ []) d other (percent_decode-Decoded (a ∷ [])) (rw other at h)
]
percent_decode-Decoded (p ∷ a ∷ b ∷ bs) d h = elim (Bool-cases (p == b'%')) [
  | inl percent ↦
      let (n, e, value, found, eq) =
        put_escape_cases (hex_pair a b) (percent_decode bs) d
          (sym (decode_escape p a b bs percent) ∙ h) in
      escape percent value eq (percent_decode-Decoded bs e found)
  | inr other ↦
      Decoded-plain p (a ∷ b ∷ bs) d other (percent_decode-Decoded (a ∷ b ∷ bs))
        (sym (decode_plain p a b bs other) ∙ h)
]

contains_cons :
    (p : ℕ) (d : List ℕ)
    → contains_percent_encoding d ≡ true
    → contains_percent_encoding (p ∷ d) ≡ true
unfolding contains_percent_encoding
contains_cons p [] h = absurd (cc)
contains_cons p (a ∷ []) h = absurd (cc)
contains_cons p (a ∷ b ∷ d) h = ground arith

contains_percent : (d : List ℕ) → contains_percent_encoding (b'%' ∷ b'2' ∷ b'5' ∷ d) ≡ true
unfolding contains_percent_encoding hex_digit
contains_percent d = refl

-- A text with no percent sign, or one that is seen as encoded twice.
abbrev Seen : List ℕ → Type 0
Seen d = (has_byte b'%' d ≡ false) ⊎ (contains_percent_encoding d ≡ true)

Seen-cons : (p : ℕ) (d : List ℕ) → (p == b'%') ≡ false → Seen d → Seen (p ∷ d)
unfolding has_byte
Seen-cons p d h (inl clean) = inl (rw h clean)
Seen-cons p d h (inr found) = inr (contains_cons p d found)

-- A percent sign that is left begins %25, so the text is seen as encoded twice.
pub no_percent : {s d : List ℕ} → Decoded s d → Seen d
unfolding has_byte
no_percent nothing = inl refl
no_percent (plain {p} {bs} {d} h k) = Seen-cons p d h (no_percent k)
no_percent (escape {p} {a} {b} {n} {bs} {d} {e} h v eq k) = elim (Bool-cases (n == b'%')) [
  | inl percent ↦
      let same : e ≡ b'%' ∷ b'2' ∷ b'5' ∷ d = rw percent at eq in
      subst Seen (sym same) (inr (contains_percent d))
  | inr other ↦
      let same : e ≡ n ∷ d = rw other at eq in
      subst Seen (sym same) (Seen-cons n d other (no_percent k))
]

has_escape_tail :
    (x y p : ℕ) (bs : List ℕ) → has_escape x y (p ∷ bs) ≡ false → has_escape x y bs ≡ false
unfolding has_escape
has_escape_tail x y p [] h = refl
has_escape_tail x y p (a ∷ []) h = refl
has_escape_tail x y p (a ∷ b ∷ bs) h = ground arith

-- Which characters have a digit's value.
hex_digit_cases :
    (c h : ℕ)
    → hex_digit c ≡ some h
    → (h < 16) × (h < 10 → c ≡ 48 + h) × (10 ≤ h → (c ≡ h + 87) ⊎ (c ≡ h + 55))
unfolding hex_digit
hex_digit_cases c h e = (ground arith, ground arith, ground arith)

hex_pair_cases :
    (a b n : ℕ)
    → hex_pair a b ≡ some n
    → (h1 : ℕ) × (h2 : ℕ) × (hex_digit a ≡ some h1) × (hex_digit b ≡ some h2) × (n ≡ h1 * 16 + h2)
hex_pair_cases a b n e = elim (Option-cases (hex_digit a)) [
  | inl bad ↦ absurd (none-ne-some n (rw (bad, hex_pair) at e))
  | inr (h1, first) ↦ elim (Option-cases (hex_digit b)) [
    | inl bad ↦ absurd (none-ne-some n (rw (first, bad, hex_pair) at e))
    | inr (h2, second) ↦
        let same : some (h1 * 16 + h2) ≡ some n = rw (first, second, hex_pair) at e in
        (h1, h2, first, second, sym (some-injective _ _ same))
  ]
]

escape_at :
    (x y a b : ℕ) (bs : List ℕ)
    → has_escape x y (b'%' ∷ a ∷ b ∷ bs) ≡ false
    → (a == x) ≡ true
    → (b == y) ≡ false
unfolding has_escape
escape_at x y a b bs h k = ground arith

-- A byte that has no percent-encoding in the text, and does not stand in it, is not in the decoding.
module _ (x h1 l1 l2 : ℕ)
    (only : (a b : ℕ)
      → hex_pair a b ≡ some x
      → ((a == h1) ≡ true) × (((b == l1) ≡ true) ⊎ ((b == l2) ≡ true)))
    (no_escape_byte : (x == b'%' || x == b'2' || x == b'5') ≡ false) where
  pub no_byte :
      {s d : List ℕ}
      → Decoded s d
      → has_byte x s ≡ false
      → has_escape h1 l1 s ≡ false
      → has_escape h1 l2 s ≡ false
      → has_byte x d ≡ false
  unfolding has_byte
  no_byte nothing f g g' = refl
  no_byte (plain {p} {bs} {d} h k) f g g' =
      let rest =
        no_byte k (ground arith) (has_escape_tail h1 l1 p bs g) (has_escape_tail h1 l2 p bs g') in
      ground arith
  no_byte (escape {p} {a} {b} {n} {bs} {d} {e} h v eq k) f g g' =
      let t =
        has_escape_tail h1 l1 b bs
          (has_escape_tail h1 l1 a (b ∷ bs) (has_escape_tail h1 l1 p (a ∷ b ∷ bs) g)) in
      let t' =
        has_escape_tail h1 l2 b bs
          (has_escape_tail h1 l2 a (b ∷ bs) (has_escape_tail h1 l2 p (a ∷ b ∷ bs) g')) in
      let rest = no_byte k (ground arith) t t' in
      let percent : p ≡ b'%' = ground arith in
      let at = subst (λ q. has_escape h1 l1 (q ∷ a ∷ b ∷ bs) ≡ false) percent g in
      let at' = subst (λ q. has_escape h1 l2 (q ∷ a ∷ b ∷ bs) ≡ false) percent g' in
      elim (Bool-cases (n == b'%')) [
        | inl twice ↦
            let same : e ≡ b'%' ∷ b'2' ∷ b'5' ∷ d = rw twice at eq in
            subst (λ t. has_byte x t ≡ false) (sym same) (ground arith)
        | inr other ↦
            let same : e ≡ n ∷ d = rw other at eq in
            elim (Bool-cases (n == x)) [
              | inl hit ↦
                  let value : n ≡ x = ground arith in
                  let (first, second) = only a b (v ∙ ap some value) in
                  elim second [
                    | inl q ↦ let no = escape_at h1 l1 a b bs at first in absurd (cc)
                    | inr q ↦ let no = escape_at h1 l2 a b bs at' first in absurd (cc)
                  ]
              | inr miss ↦ subst (λ t. has_byte x t ≡ false) (sym same) (rw miss rest)
            ]
      ]

pub no_backslash :
    {s d : List ℕ}
    → Decoded s d
    → has_byte 92 s ≡ false
    → has_escape b'5' b'c' s ≡ false
    → has_escape b'5' b'C' s ≡ false
    → has_byte 92 d ≡ false
no_backslash = no_byte 92 b'5' b'c' b'C' only refl
  where
    only :
        (a b : ℕ)
        → hex_pair a b ≡ some 92
        → ((a == b'5') ≡ true) × (((b == b'c') ≡ true) ⊎ ((b == b'C') ≡ true))
    only a b h =
        let (h1, h2, first, second, value) = hex_pair_cases a b 92 h in
        let (small1, low1, high1) = hex_digit_cases a h1 first in
        let (small2, low2, high2) = hex_digit_cases b h2 second in (ground arith, ground arith)

pub no_question :
    {s d : List ℕ}
    → Decoded s d
    → has_byte b'?' s ≡ false
    → has_escape b'3' b'f' s ≡ false
    → has_escape b'3' b'F' s ≡ false
    → has_byte b'?' d ≡ false
no_question = no_byte b'?' b'3' b'f' b'F' only refl
  where
    only :
        (a b : ℕ)
        → hex_pair a b ≡ some b'?'
        → ((a == b'3') ≡ true) × (((b == b'f') ≡ true) ⊎ ((b == b'F') ≡ true))
    only a b h =
        let (h1, h2, first, second, value) = hex_pair_cases a b b'?' h in
        let (small1, low1, high1) = hex_digit_cases a h1 first in
        let (small2, low2, high2) = hex_digit_cases b h2 second in (ground arith, ground arith)
