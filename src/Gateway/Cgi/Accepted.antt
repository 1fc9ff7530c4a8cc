-- ===== src/Gateway/Cgi/Accepted.antt =====
-- What holds of every response that is accepted.
use mathlib.Core.Path.{subst}
use go_php.Prelude.{
  ℕ, ◌≤◌, ◌≡◌, refl, Option, none, some, List, [], ◌∷◌, ◌++◌, Bool, true, false, ◌&&◌, ◌||◌, ◌==◌,
  All, arith, length, inl, inr, Bool-cases, ap,
}
use go_php.Prelude.Int.{ℤ, pos, ltb_ℤ}
use go_php.Prelude.Bytes.{Bytes, is_empty, cut_at, after_byte}
use go_php.Gateway.Cgi.{
  Library, Header, Response, Parsed, fails, responds, cut_headers, split_lines, Headers,
  bad_headers, good_headers, parse_headers, first_part, is_status, get_status, del_status, in_range,
  parse_status_line, with_status, plain_response, answer_of, answer_cut, parse_response,
}
use go_php.Gateway.Cgi.Lines.{IsFine, header_bytes, Loaded, parse_lines-Loaded}

pub record IsAccepted (stdout : Bytes) (r : Response) : Type 0 where
  pub not_below : ltb_ℤ r.status_code (pos 100) ≡ false
  pub not_above : ltb_ℤ (pos 599) r.status_code ≡ false
  pub few : length r.headers ≤ 100
  pub small : header_bytes r.headers ≤ 65536
  pub fine : All IsFine r.headers
  pub ends : (head : Bytes) × (stdout ≡ head ++ r.body)

-- What follows the headers ends the text.
abbrev Ends : Bytes → Option (Bytes × Bytes) → Type 0
Ends s none = Unit
Ends s (some (a, b)) = (head : Bytes) × (s ≡ head ++ b)

after_byte-Ends :
    (c : ℕ) (s : Bytes) (o : Option (Bytes × Bytes)) → Ends s o → Ends (c ∷ s) (after_byte c o)
after_byte-Ends c s none h = tt
after_byte-Ends c s (some (a, b)) (head, e) = (c ∷ head, ap (λ l. c ∷ l) e)

cut_headers-Ends : (s : Bytes) → Ends s (cut_headers s)
unfolding cut_headers
cut_headers-Ends [] = tt
cut_headers-Ends (a ∷ []) = tt
cut_headers-Ends (a ∷ b ∷ []) = tt
cut_headers-Ends (a ∷ b ∷ c ∷ []) = tt
cut_headers-Ends (a ∷ b ∷ c ∷ d ∷ rest) =
    elim (Bool-cases (a == 13 && b == 10 && c == 13 && d == 10)) [
      | inl here ↦ rw here (a ∷ b ∷ c ∷ d ∷ [], refl)
      | inr later ↦ rw later (
          after_byte-Ends a (b ∷ c ∷ d ∷ rest) (cut_headers (b ∷ c ∷ d ∷ rest))
            (cut_headers-Ends (b ∷ c ∷ d ∷ rest)))
    ]

-- Without the status the headers are fewer and smaller, and as fine.
length-del_status-le : (hs : List Header) → length (del_status hs) ≤ length hs
length-del_status-le [] = omega arith
length-del_status-le (h ∷ hs) = ground (arith, length-del_status-le hs)

header_bytes-del_status-le : (hs : List Header) → header_bytes (del_status hs) ≤ header_bytes hs
header_bytes-del_status-le [] = omega arith
header_bytes-del_status-le ((n, v) ∷ hs) = elim (Bool-cases (is_status (n, v))) [
  | inl its ↦ rw its (omega (arith, header_bytes-del_status-le hs))
  | inr other ↦ rw other (omega (arith, header_bytes-del_status-le hs))
]

del_status-IsFine : (hs : List Header) → All IsFine hs → All IsFine (del_status hs)
del_status-IsFine [] v = tt
del_status-IsFine (h ∷ hs) v = elim (Bool-cases (is_status h)) [
  | inl its ↦ rw its (del_status-IsFine hs v.1)
  | inr other ↦ rw other (v.0, del_status-IsFine hs v.1)
]

-- A status that is read is in its range.
abbrev InRange : Option ℤ → Type 0
InRange none = Unit
InRange (some code) = (ltb_ℤ code (pos 100) ≡ false) × (ltb_ℤ (pos 599) code ≡ false)

in_range-InRange : (o : Option ℤ) → InRange (in_range o)
in_range-InRange none = tt
in_range-InRange (some code) = elim (Bool-cases (ltb_ℤ code (pos 100) || ltb_ℤ (pos 599) code)) [
  | inl outside ↦ rw outside tt
  | inr inside ↦ rw inside (both inside)
]
  where
    both : {a b : Bool} → (a || b) ≡ false → (a ≡ false) × (b ≡ false)
    both {a = true} h = absurd (cc)
    both {a = false} h = (refl, h)

abbrev Outcome : Bytes → Parsed → Type 0
Outcome stdout (fails e) = Unit
Outcome stdout (responds r) = IsAccepted stdout r

module _ (lib : Library) (shorter : (s : Bytes) → length (lib.trim_space s) ≤ length s)
    (stdout body : Bytes) (ends : (head : Bytes) × (stdout ≡ head ++ body)) where
  plain-Outcome :
      (hs : List Header)
      → Loaded lib shorter 0 0 (good_headers hs)
      → Outcome stdout (plain_response hs body)
  plain-Outcome hs h = record {
    not_below = refl;
    not_above = refl;
    few = omega (arith, h.0);
    small = omega (arith, h.1);
    fine = h.2;
    ends = ends;
  }

  status-Outcome :
      (hs : List Header) (code : Option ℤ)
      → Loaded lib shorter 0 0 (good_headers hs)
      → InRange code
      → Outcome stdout (with_status hs body code)
  status-Outcome hs none h k = tt
  status-Outcome hs (some code) h k = record {
    not_below = k.0;
    not_above = k.1;
    few = omega (arith, h.0, length-del_status-le hs);
    small = omega (arith, h.1, header_bytes-del_status-le hs);
    fine = del_status-IsFine hs h.2;
    ends = ends;
  }

  status_line-InRange : (s : Bytes) → InRange (parse_status_line lib s)
  unfolding parse_status_line
  status_line-InRange s =
      let t = lib.trim_space s in in_range-InRange (lib.atoi (first_part t (cut_at b' ' t)))

  answer_of-Outcome :
      (hs : Headers) → Loaded lib shorter 0 0 hs → Outcome stdout (answer_of lib body hs)
  answer_of-Outcome (bad_headers e) h = tt
  answer_of-Outcome (good_headers hs) h = elim (Bool-cases (is_empty (get_status hs))) [
    | inl missing ↦ rw missing (plain-Outcome hs h)
    | inr given ↦ rw given (
        status-Outcome hs (parse_status_line lib (get_status hs)) h
          (status_line-InRange (get_status hs)))
  ]

module _ (lib : Library) (shorter : (s : Bytes) → length (lib.trim_space s) ≤ length s) where
  answer_cut-Outcome :
      (stdout : Bytes) (o : Option (Bytes × Bytes))
      → Ends stdout o
      → Outcome stdout (answer_cut lib stdout o)
  answer_cut-Outcome stdout none h =
      plain-Outcome lib shorter stdout stdout ([], refl) [] (omega arith, omega arith, tt)
  answer_cut-Outcome stdout (some (head, body)) h =
      answer_of-Outcome lib shorter stdout body h (parse_headers lib head)
        (parse_lines-Loaded lib shorter (split_lines head) 0 0 (omega arith) (omega arith))

  parse_response-Outcome : (stdout : Bytes) → Outcome stdout (parse_response lib stdout)
  unfolding parse_response
  parse_response-Outcome [] =
      plain-Outcome lib shorter [] [] ([], refl) [] (omega arith, omega arith, tt)
  parse_response-Outcome (b ∷ bs) =
      answer_cut-Outcome (b ∷ bs) (cut_headers (b ∷ bs)) (cut_headers-Ends (b ∷ bs))

-- If trimming makes no text longer: whatever a script writes, a response that is accepted has a status
-- from 100 to 599, at most 100 headers with at most 64 KiB in all, no header without a name or with a
-- control character but a tab in its value, and as its body the end of what was written.
pub parse_response-IsAccepted :
    (lib : Library)
    → ((s : Bytes) → length (lib.trim_space s) ≤ length s)
    → (stdout : Bytes) (r : Response) → parse_response lib stdout ≡ responds r
    → IsAccepted stdout r
parse_response-IsAccepted lib shorter stdout r e =
    subst (Outcome stdout) e (parse_response-Outcome lib shorter stdout)
