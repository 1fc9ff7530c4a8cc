-- ===== src/Gateway/FastCgi/Response/Collects.antt =====
-- What the response loop makes of the records that a FastCGI server sends.
use mathlib.Core.List.{append_assoc, append-nil}
use go_php.Prelude.{
  ℕ, zero, suc, ◌+◌, ◌≤◌, ◌<◌, ◌≡◌, refl, true, false, List, [], ◌∷◌, ◌++◌, map, length,
  length-append, some, arith, ltb, ◌==◌, ◌∙◌, ap, sym, All,
}
use go_php.Gateway.FastCgi.Record.{
  Record, IsRecord, encode_record, decode_record, sent, decode_record-encode_record,
}
use go_php.Gateway.FastCgi.Request.{record_of, encode_all}
use go_php.Gateway.FastCgi.Request.Received.{length-encode_record, record_of-IsRecord}
use go_php.Gateway.FastCgi.Response.{
  max_response, answered, be32, int32, collected, ends, on_record, Context, read_loop,
  read_response,
}

-- A record of a server: a piece of the output or of the error output, or a record of another request.
pub data Piece : Type 0 where
  stdout stderr : List ℕ → Piece
  foreign : Record → Piece

module _ (id : ℕ) where
  abbrev pub piece_record : Piece → Record
  piece_record (stdout c) = record_of 6 id c
  piece_record (stderr c) = record_of 7 id c
  piece_record (foreign r) = r

  abbrev pub IsPiece : Piece → Type 0
  IsPiece (stdout c) = length c < 65536
  IsPiece (stderr c) = length c < 65536
  IsPiece (foreign r) = IsRecord r × ((r.request_id == id) ≡ false)

  abbrev pub end_record : List ℕ → Record
  end_record status = record_of 3 id status

abbrev pub output : List Piece → List ℕ
output [] = []
output (stdout c ∷ ps) = c ++ output ps
output (stderr c ∷ ps) = output ps
output (foreign r ∷ ps) = output ps

abbrev pub errors : List Piece → List ℕ
errors [] = []
errors (stdout c ∷ ps) = errors ps
errors (stderr c ∷ ps) = c ++ errors ps
errors (foreign r ∷ ps) = errors ps

piece_record-IsRecord :
    (id : ℕ) (p : Piece) → id < 65536 → IsPiece id p → IsRecord (piece_record id p)
piece_record-IsRecord id (stdout c) i h = record_of-IsRecord 6 id c (omega arith) i h
piece_record-IsRecord id (stderr c) i h = record_of-IsRecord 7 id c (omega arith) i h
piece_record-IsRecord id (foreign r) i h = h.0

on_record_of_stdout :
    (id : ℕ) (out err c : List ℕ)
    → length out + length c ≤ max_response
    → on_record id out err (sent (record_of 6 id c)) ≡ collected (out ++ c) err
unfolding on_record
on_record_of_stdout id out err [] h =
    let ours : (id == id) ≡ true = ground arith in rw (ours, append-nil) refl
on_record_of_stdout id out err (x ∷ c) h =
    let ours : (id == id) ≡ true = ground arith in
    let fits : ltb max_response (length out + length (x ∷ c)) ≡ false = ground arith in
    let some_bytes : (length (x ∷ c) == 0) ≡ false = ground arith in
    rw (ours, some_bytes, fits) refl

on_record_of_stderr :
    (id : ℕ) (out err c : List ℕ)
    → length err + length c ≤ max_response
    → on_record id out err (sent (record_of 7 id c)) ≡ collected out (err ++ c)
unfolding on_record
on_record_of_stderr id out err [] h =
    let ours : (id == id) ≡ true = ground arith in rw (ours, append-nil) refl
on_record_of_stderr id out err (x ∷ c) h =
    let ours : (id == id) ≡ true = ground arith in
    let fits : ltb max_response (length err + length (x ∷ c)) ≡ false = ground arith in
    let some_bytes : (length (x ∷ c) == 0) ≡ false = ground arith in
    rw (ours, some_bytes, fits) refl

on_record_of_foreign :
    (id : ℕ) (out err : List ℕ) (r : Record)
    → (r.request_id == id) ≡ false
    → on_record id out err (sent r) ≡ collected out err
unfolding on_record
on_record_of_foreign id out err r h = rw h refl

on_piece :
    (id : ℕ) (out err : List ℕ) (p : Piece)
    → IsPiece id p
    → length out + length (output (p ∷ [])) ≤ max_response
    → length err + length (errors (p ∷ [])) ≤ max_response
    → on_record id out err (sent (piece_record id p))
      ≡ collected (out ++ output (p ∷ [])) (err ++ errors (p ∷ []))
on_piece id out err (stdout c) h o k =
    rw (append-nil, append-nil)
      (on_record_of_stdout id out err c (omega (arith, ap length (append-nil c))))
on_piece id out err (stderr c) h o k =
    rw (append-nil, append-nil)
      (on_record_of_stderr id out err c (omega (arith, ap length (append-nil c))))
on_piece id out err (foreign r) h o k =
    rw (append-nil, append-nil) (on_record_of_foreign id out err r h.1)

output_cons : (p : Piece) (ps : List Piece) → output (p ∷ ps) ≡ output (p ∷ []) ++ output ps
output_cons (stdout c) ps = rw append-nil refl
output_cons (stderr c) ps = refl
output_cons (foreign r) ps = refl

errors_cons : (p : Piece) (ps : List Piece) → errors (p ∷ ps) ≡ errors (p ∷ []) ++ errors ps
errors_cons (stdout c) ps = refl
errors_cons (stderr c) ps = rw append-nil refl
errors_cons (foreign r) ps = refl

read_step :
    (ctx : Context) (id fuel round : ℕ) (out err out' err' bs rest : List ℕ) (r : Record)
    → ctx.before_read round ≡ false
    → decode_record bs ≡ some (r, rest)
    → on_record id out err r ≡ collected out' err'
    → read_loop ctx id (suc fuel) round out err bs
      ≡ read_loop ctx id fuel (suc round) out' err' rest
unfolding read_loop
read_step ctx id fuel round out err out' err' bs rest r going read more =
    rw (going, read, more) refl

module _ (ctx : Context) (id : ℕ) (going : (k : ℕ) → ctx.before_read k ≡ false) (small : id < 65536)
    (a b c d e f g h : ℕ) where
  abbrev last_content : List ℕ
  last_content = a ∷ b ∷ c ∷ d ∷ e ∷ f ∷ g ∷ h ∷ []

  read_loop-last :
      (fuel round : ℕ) (out err rest : List ℕ)
      → read_loop ctx id
          (suc fuel)
          round
          out
          err
          (encode_record (end_record id last_content) ++ rest)
        ≡ answered out err (int32 (be32 a b c d)) (int32 (be32 e f g h))
  unfolding read_loop
  read_loop-last fuel round out err rest =
      let read =
        decode_record-encode_record (end_record id last_content) rest
          (record_of-IsRecord 3 id last_content (omega arith) small (omega arith)) in
      let ours : (id == id) ≡ true = ground arith in
      let over : on_record id out err (sent (end_record id last_content))
          ≡ ends (answered out err (int32 (be32 a b c d)) (int32 (be32 e f g h))) =
        unfold on_record in rw ours refl in
      rw (going round, read, over) refl

  read_loop-pieces :
      (ps : List Piece) (fuel round : ℕ) (out err rest : List ℕ)
      → All (IsPiece id) ps
      → length ps < fuel
      → length out + length (output ps) ≤ max_response
      → length err + length (errors ps) ≤ max_response
      → read_loop ctx id fuel round out err (
          encode_all (map (piece_record id) ps)
          ++ (encode_record (end_record id last_content) ++ rest))
        ≡ answered
            (out ++ output ps)
            (err ++ errors ps)
            (int32 (be32 a b c d))
            (int32 (be32 e f g h))
  unfolding encode_all
  read_loop-pieces ps zero round out err rest v l o k = absurd (omega arith)
  read_loop-pieces [] (suc fuel) round out err rest v l o k =
      rw (append-nil, append-nil) (read_loop-last fuel round out err rest)
  read_loop-pieces (p ∷ ps) (suc fuel) round out err rest v l o k =
      let tail = encode_record (end_record id last_content) ++ rest in
      let r = piece_record id p in
      let more = encode_all (map (piece_record id) ps) ++ tail in
      let split : (encode_record r ++ encode_all (map (piece_record id) ps)) ++ tail
          ≡ encode_record r ++ more =
        append_assoc (encode_record r) (encode_all (map (piece_record id) ps)) tail in
      let co = ap length (output_cons p ps) ∙ length-append (output (p ∷ [])) (output ps) in
      let ce = ap length (errors_cons p ps) ∙ length-append (errors (p ∷ [])) (errors ps) in
      let first =
        read_step ctx id fuel round out err (out ++ output (p ∷ [])) (err ++ errors (p ∷ []))
          (encode_record r ++ more) more (sent r) (going round)
          (decode_record-encode_record r more (piece_record-IsRecord id p small v.0))
          (on_piece id out err p v.0 (omega (arith, co)) (omega (arith, ce))) in
      let later =
        read_loop-pieces ps fuel (suc round) (out ++ output (p ∷ [])) (err ++ errors (p ∷ [])) rest
          v.1 (omega arith) (omega (arith, co, length-append out (output (p ∷ []))))
          (omega (arith, ce, length-append err (errors (p ∷ [])))) in
      let eo : (out ++ output (p ∷ [])) ++ output ps ≡ out ++ output (p ∷ ps) =
        append_assoc out (output (p ∷ [])) (output ps)
        ∙ ap (λ s. out ++ s) (sym (output_cons p ps)) in
      let ee : (err ++ errors (p ∷ [])) ++ errors ps ≡ err ++ errors (p ∷ ps) =
        append_assoc err (errors (p ∷ [])) (errors ps)
        ∙ ap (λ s. err ++ s) (sym (errors_cons p ps)) in
      ap (read_loop ctx id (suc fuel) round out err) split
      ∙ first
      ∙ later
      ∙ (λ i. answered (eo i) (ee i) (int32 (be32 a b c d)) (int32 (be32 e f g h)))

length-map {ℓ κ} :
    {A : Type ℓ} {B : Type κ} (f : A → B) (xs : List A) → length (map f xs) ≡ length xs
length-map f [] = refl
length-map f (x ∷ xs) = ap suc (length-map f xs)

length-pieces : (rs : List Record) (rest : List ℕ) → length rs ≤ length (encode_all rs ++ rest)
unfolding encode_all
length-pieces [] rest = omega arith
length-pieces (r ∷ rs) rest = omega (
  arith,
  ap length (append_assoc (encode_record r) (encode_all rs) rest),
  length-append (encode_record r) (encode_all rs ++ rest),
  length-encode_record r,
  length-pieces rs rest,
)

-- A server sends pieces of output and of error output, interleaved and mixed with records of other
-- requests, and an END_REQUEST record: if no piece is longer than 65535 bytes, neither total longer
-- than 64 MiB, and the context is never done, then the answer has all the output and all the error
-- output, each in order, and the two statuses, whatever follows.
pub read_response-pieces :
    (ctx : Context) (id : ℕ) (ps : List Piece) (a b c d e f g h : ℕ) (rest : List ℕ)
    → ((k : ℕ) → ctx.before_read k ≡ false)
    → id < 65536
    → All (IsPiece id) ps
    → length (output ps) ≤ max_response
    → length (errors ps) ≤ max_response
    → read_response ctx id (
        encode_all (map (piece_record id) ps)
        ++ (encode_record (end_record id (a ∷ b ∷ c ∷ d ∷ e ∷ f ∷ g ∷ h ∷ [])) ++ rest))
      ≡ answered (output ps) (errors ps) (int32 (be32 a b c d)) (int32 (be32 e f g h))
unfolding read_response
read_response-pieces ctx id ps a b c d e f g h rest going small v o k =
    let tail = encode_record (end_record id (a ∷ b ∷ c ∷ d ∷ e ∷ f ∷ g ∷ h ∷ [])) ++ rest in
    read_loop-pieces ctx id going small a b c d e f g h ps
      (suc (length (encode_all (map (piece_record id) ps) ++ tail))) 0 [] [] rest v
      (omega
        (arith, length-pieces (map (piece_record id) ps) tail, length-map (piece_record id) ps))
      (omega (arith, o)) (omega (arith, k))
