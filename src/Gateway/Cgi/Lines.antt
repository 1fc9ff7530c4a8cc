-- ===== src/Gateway/Cgi/Lines.antt =====
-- The headers that are read from the lines.
use go_php.Prelude.{
  ℕ, suc, ◌+◌, ◌≤◌, ◌≡◌, Option, none, some, List, [], ◌∷◌, false, ◌||◌, ltb, ◌==◌, All, arith,
  length, inl, inr, Bool-cases,
}
use go_php.Prelude.Bytes.{Bytes, is_empty, cut_at, after_byte}
use go_php.Gateway.Cgi.{
  Library, Header, name_control, value_control, Line, bad_line, good_line, checked_line, cut_line,
  parse_header_line, Headers, bad_headers, good_headers, after_line, checked_sizes, parse_lines,
}

-- A header with a name, and without control characters; a tab may stand in the value.
abbrev pub IsFine : Header → Type 0
IsFine (name, value) =
    (is_empty name ≡ false) × (name_control name ≡ false) × (value_control value ≡ false)

-- With the colon and the end of the line.
abbrev pub header_bytes : List Header → ℕ
header_bytes [] = 0
header_bytes ((name, value) ∷ hs) = length name + length value + 3 + header_bytes hs

-- The parts of a text are no longer than it is.
abbrev CutFits : Bytes → Option (Bytes × Bytes) → Type 0
CutFits s none = Unit
CutFits s (some (a, b)) = length a + length b + 1 ≡ length s

after_byte-CutFits :
    (c : ℕ) (s : Bytes) (o : Option (Bytes × Bytes))
    → CutFits s o
    → CutFits (c ∷ s) (after_byte c o)
after_byte-CutFits c s none h = tt
after_byte-CutFits c s (some (a, b)) h = omega arith

cut_at-CutFits : (sep : ℕ) (s : Bytes) → CutFits s (cut_at sep s)
unfolding cut_at
cut_at-CutFits sep [] = tt
cut_at-CutFits sep (c ∷ s) = elim (Bool-cases (c == sep)) [
  | inl here ↦ rw here (omega arith)
  | inr later ↦ rw later (after_byte-CutFits c s (cut_at sep s) (cut_at-CutFits sep s))
]

module _ (lib : Library) (shorter : (s : Bytes) → length (lib.trim_space s) ≤ length s) where
  abbrev LineFits : ℕ → Line → Type 0
  LineFits size (bad_line e) = Unit
  LineFits size (good_line (name, value)) =
      IsFine (name, value) × (length name + length value + 1 ≤ size)

  checked_line-LineFits :
      (size : ℕ) (name value : Bytes)
      → length name + length value + 1 ≤ size
      → LineFits size (checked_line name value)
  checked_line-LineFits size name value h = elim (Bool-cases (is_empty name)) [
    | inl missing ↦ rw missing tt
    | inr named ↦ elim (Bool-cases (name_control name || value_control value)) [
      | inl bad ↦ rw (named, bad) tt
      | inr clean ↦ rw (named, clean) ((named, ground arith, ground arith), h)
    ]
  ]

  cut_line-LineFits :
      (line : Bytes) (o : Option (Bytes × Bytes))
      → CutFits line o
      → LineFits (length line) (cut_line lib o)
  cut_line-LineFits line none h = tt
  cut_line-LineFits line (some (name, value)) h =
      checked_line-LineFits (length line) (lib.trim_space name) (lib.trim_space value)
        (omega (arith, h, shorter name, shorter value))

  parse_header_line-LineFits : (line : Bytes) → LineFits (length line) (parse_header_line lib line)
  unfolding parse_header_line
  parse_header_line-LineFits line =
      cut_line-LineFits line (cut_at b':' line) (cut_at-CutFits b':' line)

  -- What is read from here on, with what was read before.
  abbrev pub Loaded : ℕ → ℕ → Headers → Type 0
  Loaded total count (bad_headers e) = Unit
  Loaded total count (good_headers hs) =
      (count + length hs ≤ 100) × (total + header_bytes hs ≤ 65536) × All IsFine hs

  after_line-Loaded :
      (size total count : ℕ) (l : Line) (rest : Headers)
      → LineFits size l
      → Loaded (total + (size + 2)) (suc count) rest
      → Loaded total count (after_line l rest)
  after_line-Loaded size total count (bad_line e) rest h k = tt
  after_line-Loaded size total count (good_line (n, v)) (bad_headers e) h k = tt
  after_line-Loaded size total count (good_line (n, v)) (good_headers hs) h k =
      (omega (arith, k.0), omega (arith, h.1, k.1), (h.0, k.2))

  checked_sizes-Loaded :
      (size total more count : ℕ) (next : Headers)
      → (more ≤ 65536 → suc count ≤ 100 → Loaded total count next)
      → Loaded total count (checked_sizes size more (suc count) next)
  checked_sizes-Loaded size total more count next k =
      elim (Bool-cases (ltb 8192 size || ltb 65536 more)) [
        | inl large ↦ rw large tt
        | inr small ↦ elim (Bool-cases (ltb 100 (suc count))) [
          | inl many ↦ rw (small, many) tt
          | inr few ↦ rw (small, few) (k (ground arith) (ground arith))
        ]
      ]

  pub parse_lines-Loaded :
      (lines : List Bytes) (total count : ℕ)
      → total ≤ 65536
      → count ≤ 100
      → Loaded total count (parse_lines lib lines total count)
  unfolding parse_lines
  parse_lines-Loaded [] total count small few = (omega arith, omega arith, tt)
  parse_lines-Loaded (line ∷ lines) total count small few = elim (Bool-cases (is_empty line)) [
    | inl blank ↦ rw (blank, parse_lines) (parse_lines-Loaded lines total count small few)
    | inr filled ↦
        rw (filled, parse_lines)
          (checked_sizes-Loaded (length line) total (total + (length line + 2)) count
            (after_line (parse_header_line lib line)
              (parse_lines lib lines (total + (length line + 2)) (suc count)))
            (λ small2 few2.
              after_line-Loaded (length line) total count (parse_header_line lib line)
                (parse_lines lib lines (total + (length line + 2)) (suc count))
                (parse_header_line-LineFits line)
                (parse_lines-Loaded lines (total + (length line + 2)) (suc count) small2 few2)))
  ]
