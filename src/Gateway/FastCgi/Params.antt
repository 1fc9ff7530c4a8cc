-- ===== src/Gateway/FastCgi/Params.antt =====
-- Name/value pairs of the PARAMS stream, and how a FastCGI server reads them.
use mathlib.Core.List.{append_assoc}
use go_php.Prelude.{
  ℕ, zero, suc, ◌≤◌, ◌<◌, ◌≡◌, refl, List, [], ◌∷◌, ◌++◌, length, length-append, drop, Option, none,
  some, arith, All, ltb, Bool-cases, inl, inr,
}
use go_php.Gateway.FastCgi.Length.{
  bad_length, length_of, encode_length, decode_length, decode_length-encode_length,
}
use go_php.Gateway.FastCgi.Record.{read_full, read_full-append}

abbrev pub Pair : Type 0
Pair = List ℕ × List ℕ

unfoldable pub encode_pair : Pair → List ℕ
encode_pair (name, value) =
    encode_length (length name) ++ (encode_length (length value) ++ (name ++ value))

-- The loop of sendParams over the map, in the order in which it is walked.
unfoldable pub encode_params : List Pair → List ℕ
encode_params [] = []
encode_params (p ∷ ps) = encode_pair p ++ encode_params ps

-- A pair at the head of the bytes, and what follows it.
unfoldable pub decode_pair : List ℕ → Option (Pair × List ℕ)
decode_pair bs = elim (decode_length bs) [
  | bad_length e ↦ none
  | length_of n k ↦ elim (decode_length (drop k bs)) [
    | bad_length e ↦ none
    | length_of m j ↦ elim (read_full n (drop j (drop k bs))) [
      | none ↦ none
      | some (name, rest) ↦ elim (read_full m rest) [
        | none ↦ none
        | some (value, left) ↦ some ((name, value), left)
      ]
    ]
  ]
]

-- All pairs; the fuel is the number of bytes.
unfoldable pub decode_pairs : ℕ → List ℕ → Option (List Pair)
decode_pairs fuel [] = some []
decode_pairs zero (b ∷ bs) = none
decode_pairs (suc fuel) (b ∷ bs) = elim (decode_pair (b ∷ bs)) [
  | none ↦ none
  | some (p, rest) ↦ elim (decode_pairs fuel rest) [ none ↦ none | some ps ↦ some (p ∷ ps) ]
]

unfoldable pub decode_params : List ℕ → Option (List Pair)
decode_params bs = decode_pairs (length bs) bs

drop_front {ℓ} : {A : Type ℓ} (xs ys : List A) → drop (length xs) (xs ++ ys) ≡ ys
drop_front [] ys = refl
drop_front (x ∷ xs) ys = drop_front xs ys

-- The name and the value are shorter than 2 ^ 31 bytes.
abbrev pub Fits : Pair → Type 0
Fits (name, value) = (length name < 2147483648) × (length value < 2147483648)

decode_pair_of :
    (bs mid low vr rest name value : List ℕ) (n k m j : ℕ)
    → decode_length bs ≡ length_of n k
    → drop k bs ≡ mid
    → decode_length mid ≡ length_of m j
    → drop j mid ≡ low
    → read_full n low ≡ some (name, vr)
    → read_full m vr ≡ some (value, rest)
    → decode_pair bs ≡ some ((name, value), rest)
unfolding decode_pair
decode_pair_of bs mid low vr rest name value n k m j first to_mid second to_low third fourth =
    rw (first, decode_pair, to_mid, second, to_mid, to_low, third, fourth) refl

decode_pair-encode_pair :
    (p : Pair) (rest : List ℕ) → Fits p → decode_pair (encode_pair p ++ rest) ≡ some (p, rest)
unfolding encode_pair
decode_pair-encode_pair (name, value) rest (fn, fv) =
    let l1 = encode_length (length name) in
    let l2 = encode_length (length value) in
    let split : (l1 ++ (l2 ++ (name ++ value))) ++ rest ≡ l1 ++ (l2 ++ (name ++ (value ++ rest))) =
      rw (append_assoc, append_assoc, append_assoc) refl in
    rw split (
      decode_pair_of _ (l2 ++ (name ++ (value ++ rest))) (name ++ (value ++ rest)) (value ++ rest)
        rest name value (length name) (length l1) (length value) (length l2)
        (decode_length-encode_length (length name) (l2 ++ (name ++ (value ++ rest))) fn)
        (drop_front l1 (l2 ++ (name ++ (value ++ rest))))
        (decode_length-encode_length (length value) (name ++ (value ++ rest)) fv)
        (drop_front l2 (name ++ (value ++ rest)))
        (read_full-append (length name) name (value ++ rest) refl)
        (read_full-append (length value) value rest refl))

length-encode_length : (n : ℕ) → 1 ≤ length (encode_length n)
unfolding encode_length
length-encode_length n = elim (Bool-cases (ltb n 128)) [
  | inl small ↦ rw small (omega arith)
  | inr large ↦ rw large (omega arith)
]

length-encode_pair : (p : Pair) → 1 ≤ length (encode_pair p)
unfolding encode_pair
length-encode_pair (name, value) =
    let here = length-encode_length (length name) in
    let all =
      length-append (encode_length (length name))
        (encode_length (length value) ++ (name ++ value)) in
    omega (arith, here, all)

decode_pairs-encode_params :
    (fuel : ℕ) (ps : List Pair)
    → All Fits ps
    → length (encode_params ps) ≤ fuel
    → decode_pairs fuel (encode_params ps) ≡ some ps
unfolding encode_params decode_pairs
decode_pairs-encode_params fuel [] h k = refl
decode_pairs-encode_params zero (p ∷ ps) h k =
    absurd (omega (arith, length-append (encode_pair p) (encode_params ps), length-encode_pair p))
decode_pairs-encode_params (suc fuel) (p ∷ ps) h k =
    let tail =
      decode_pairs-encode_params fuel ps h.1
        (omega (arith, length-append (encode_pair p) (encode_params ps), length-encode_pair p)) in
    step (encode_pair p ++ encode_params ps) (decode_pair-encode_pair p (encode_params ps) h.0) tail
      (omega (arith, length-append (encode_pair p) (encode_params ps), length-encode_pair p))
  where
    step :
        (bs : List ℕ)
        → decode_pair bs ≡ some (p, encode_params ps)
        → decode_pairs fuel (encode_params ps) ≡ some ps
        → 1 ≤ length bs
        → decode_pairs (suc fuel) bs ≡ some (p ∷ ps)
    step [] e t l = absurd (omega arith)
    step (b ∷ bs) e t l = rw (e, decode_pairs, t) refl

-- The pairs are read back from the stream, in its order, if no name or value is longer than its
-- length can say.
pub decode_params-encode_params :
    (ps : List Pair) → All Fits ps → decode_params (encode_params ps) ≡ some ps
unfolding decode_params
decode_params-encode_params ps h = decode_pairs-encode_params _ ps h (omega arith)
