-- ===== src/Gateway/FastCgi/Response.antt =====
-- `readResponse`: the loop that collects a response from the records of the connection. The context
-- is asked before a record is read, and again after a read that fails.
pub mod Laws
pub mod Collects
use go_php.Prelude.{
  ℕ, zero, suc, ◌+◌, ◌-◌, ◌*◌, Bool, not, List, [], ◌∷◌, ◌++◌, length, Option, none, some, ltb,
  ◌==◌, if◌then◌else◌,
}
use go_php.Prelude.Int.{ℤ, pos, negsuc}
use go_php.Gateway.FastCgi.Record.{Record, decode_record}

-- DefaultMaxResponseSize
abbrev pub max_response : ℕ
max_response = 67108864

-- `stuck` is no answer of the code: the loop ran out of fuel.
pub data Reply : Type 0 where
  stuck cancelled read_failed too_large short_end : Reply
  answered : List ℕ → List ℕ → ℤ → ℤ → Reply

-- binary.BigEndian.Uint32, and int32 of it
abbrev pub be32 : ℕ → ℕ → ℕ → ℕ → ℕ
be32 a b c d = a * 16777216 + b * 65536 + c * 256 + d

abbrev pub int32 : ℕ → ℤ
int32 n = if ltb n 2147483648 then pos n else negsuc (4294967296 - n - 1)

-- What a record does to the two buffers, or the reply that ends the loop.
pub data Progress : Type 0 where
  collected : List ℕ → List ℕ → Progress
  ends : Reply → Progress

abbrev pub end_request : List ℕ → List ℕ → List ℕ → Progress
end_request out err (a ∷ b ∷ c ∷ d ∷ e ∷ f ∷ g ∷ h ∷ rest) =
    ends (answered out err (int32 (be32 a b c d)) (int32 (be32 e f g h)))
end_request out err _ = ends short_end

unfoldable pub on_record : ℕ → List ℕ → List ℕ → Record → Progress
on_record id out err r =
    if not (r.request_id == id)
    then collected out err
    else if r.type == 6
    then (if length r.content == 0
        then collected out err
        else if ltb max_response (length out + length r.content)
        then ends too_large
        else collected (out ++ r.content) err)
    else if r.type == 7
    then (if length r.content == 0
        then collected out err
        else if ltb max_response (length err + length r.content)
        then ends too_large
        else collected out (err ++ r.content))
    else if r.type == 3
    then end_request out err r.content
    else collected out err

-- The context at each round: is it done before the read, and after a read that failed?
pub record Context : Type 0 where
  pub before_read : ℕ → Bool
  pub after_error : ℕ → Bool

unfoldable pub read_loop : Context → ℕ → ℕ → ℕ → List ℕ → List ℕ → List ℕ → Reply
read_loop ctx id zero round out err bs = stuck
read_loop ctx id (suc fuel) round out err bs =
    if ctx.before_read round then cancelled else elim (decode_record bs) [
      | none ↦ if ctx.after_error round then cancelled else read_failed
      | some (r, rest) ↦ elim (on_record id out err r) [
        | collected out' err' ↦ read_loop ctx id fuel (suc round) out' err' rest
        | ends reply ↦ reply
      ]
    ]

-- `bs` is all that the connection delivers. A record takes eight bytes at least.
unfoldable pub read_response : Context → ℕ → List ℕ → Reply
read_response ctx id bs = read_loop ctx id (suc (length bs)) 0 [] [] bs
