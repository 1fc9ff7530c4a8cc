-- ===== src/Gateway/FastCgi/Response/Laws.antt =====
-- The end of the response loop, and the lengths of what it collects.
use mathlib.Core.Option.{some-injective}
use go_php.Prelude.{
  ℕ, zero, suc, ◌+◌, ◌≤◌, ◌<◌, ◌≡◌, refl, List, [], ◌∷◌, length, length-append, none, some, arith,
  ltb, ◌==◌, ap, ◌⊎◌, Bool-cases, Option-cases, inl, inr,
}
use go_php.Gateway.FastCgi.Record.{Record, read_full, read_body, decode_record}
use go_php.Gateway.FastCgi.Response.{
  max_response, Reply, stuck, answered, Progress, collected, ends, end_request, on_record, Context,
  read_loop, read_response,
}

read_full-length :
    (n : ℕ) (bs taken rest : List ℕ) → read_full n bs ≡ some (taken, rest) → length rest ≤ length bs
unfolding read_full
read_full-length zero bs taken rest e =
    omega (arith, ap (λ (p : List ℕ × List ℕ). length p.1) (some-injective _ _ e))
read_full-length (suc n) [] taken rest e = cc
read_full-length (suc n) (b ∷ bs) taken rest e = elim (Option-cases (read_full n bs)) [
  | inl short ↦ let no : none ≡ some (taken, rest) = rw short at e in cc
  | inr ((t, left), more) ↦
      let same : some (b ∷ t, left) ≡ some (taken, rest) = rw more at e in
      omega (
        arith,
        read_full-length n bs t left more,
        ap (λ (p : List ℕ × List ℕ). length p.1) (some-injective _ _ same),
      )
]

read_body-length :
    (r s : Record) (bs rest : List ℕ) → read_body r bs ≡ some (s, rest) → length rest ≤ length bs
unfolding read_body
read_body-length r s bs rest e = elim (Option-cases (read_full r.content_length bs)) [
  | inl short ↦ let no : none ≡ some (s, rest) = rw (short, read_body) at e in cc
  | inr ((c, mid), first) ↦
      let e' = rw (first, read_body) at e in
      elim (Option-cases (read_full r.padding_length mid)) [
        | inl short ↦ let no : none ≡ some (s, rest) = rw short at e' in cc
        | inr ((p, left), second) ↦
            let same : some (record r { content = c }, left) ≡ some (s, rest) = rw second at e' in
            omega (
              arith,
              read_full-length r.content_length bs c mid first,
              read_full-length r.padding_length mid p left second,
              ap (λ (x : Record × List ℕ). length x.1) (some-injective _ _ same),
            )
      ]
]

-- A record takes its header at least.
decode_record-length :
    (bs rest : List ℕ) (r : Record)
    → decode_record bs ≡ some (r, rest)
    → length rest + 8 ≤ length bs
unfolding decode_record
decode_record-length (v ∷ t ∷ i1 ∷ i0 ∷ c1 ∷ c0 ∷ p ∷ x ∷ bs) rest r e =
    omega (arith, read_body-length _ r bs rest e)
decode_record-length _ rest r e = cc

-- A reply of the code, whose buffers keep their bound.
abbrev pub Bounded : Reply → Type 0
Bounded stuck = ⊥
Bounded (answered out err app proto) = (length out ≤ max_response) × (length err ≤ max_response)
Bounded _ = Unit

abbrev Keeps : Progress → Type 0
Keeps (collected out err) = (length out ≤ max_response) × (length err ≤ max_response)
Keeps (ends r) = Bounded r

end_request-Keeps :
    (out err content : List ℕ)
    → length out ≤ max_response
    → length err ≤ max_response
    → Keeps (end_request out err content)
end_request-Keeps out err (a ∷ b ∷ c ∷ d ∷ e ∷ f ∷ g ∷ h ∷ rest) o k = (o, k)
end_request-Keeps out err _ o k = tt

on_record-Keeps :
    (id : ℕ) (out err : List ℕ) (r : Record)
    → length out ≤ max_response
    → length err ≤ max_response
    → Keeps (on_record id out err r)
unfolding on_record
on_record-Keeps id out err r o k = elim (Bool-cases (r.request_id == id)) [
  | inr foreign ↦ rw foreign (o, k)
  | inl ours ↦ rw ours (elim (Bool-cases (r.type == 6)) [
    | inl stdout ↦ rw stdout (elim (Bool-cases (length r.content == 0)) [
      | inl empty ↦ rw empty (o, k)
      | inr full ↦ rw full (elim (Bool-cases (ltb max_response (length out + length r.content))) [
        | inl over ↦ rw over tt
        | inr fits ↦ rw fits (ground (arith, length-append out r.content), k)
      ])
    ])
    | inr no_stdout ↦ rw no_stdout (elim (Bool-cases (r.type == 7)) [
      | inl stderr ↦ rw stderr (elim (Bool-cases (length r.content == 0)) [
        | inl empty ↦ rw empty (o, k)
        | inr full ↦ rw full (elim (Bool-cases (ltb max_response (length err + length r.content))) [
          | inl over ↦ rw over tt
          | inr fits ↦ rw fits (o, ground (arith, length-append err r.content))
        ])
      ])
      | inr no_stderr ↦ rw no_stderr (elim (Bool-cases (r.type == 3)) [
        | inl last ↦ rw last (end_request-Keeps out err r.content o k)
        | inr unknown ↦ rw unknown (o, k)
      ])
    ])
  ])
]

Progress-cases :
    (p : Progress)
    → ((o : List ℕ) × (e : List ℕ) × (p ≡ collected o e)) ⊎ ((r : Reply) × (p ≡ ends r))
Progress-cases (collected o e) = inl (o, e, refl)
Progress-cases (ends r) = inr (r, refl)

read_loop-Bounded :
    (ctx : Context) (id fuel round : ℕ) (out err bs : List ℕ)
    → length bs < fuel
    → length out ≤ max_response
    → length err ≤ max_response
    → Bounded (read_loop ctx id fuel round out err bs)
unfolding read_loop
read_loop-Bounded ctx id zero round out err bs l o k = absurd (omega arith)
read_loop-Bounded ctx id (suc fuel) round out err bs l o k =
    elim (Bool-cases (ctx.before_read round)) [
      | inl done ↦ rw done tt
      | inr going ↦ rw going (elim (Option-cases (decode_record bs)) [
        | inl broken ↦ rw broken (elim (Bool-cases (ctx.after_error round)) [
          | inl done ↦ rw done tt
          | inr failed ↦ rw failed tt
        ])
        | inr ((r, rest), read) ↦
            let keeps = on_record-Keeps id out err r o k in
            rw read (elim (Progress-cases (on_record id out err r)) [
              | inl (out', err', more) ↦
                  let (o', k') = rw more at keeps in
                  rw more (
                    read_loop-Bounded ctx id fuel (suc round) out' err' rest
                      (omega (arith, decode_record-length bs rest r read)) o' k')
              | inr (reply, last) ↦ rw last (rw last at keeps)
            ])
      ])
    ]

-- Whatever the connection delivers and whenever the context is done, the loop ends with a reply, and
-- neither buffer of an answer is longer than 64 MiB.
pub read_response-Bounded :
    (ctx : Context) (id : ℕ) (bs : List ℕ) → Bounded (read_response ctx id bs)
unfolding read_response
read_response-Bounded ctx id bs =
    read_loop-Bounded ctx id (suc (length bs)) 0 [] [] bs (omega arith) (omega arith) (omega arith)
