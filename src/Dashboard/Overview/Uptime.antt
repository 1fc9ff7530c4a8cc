-- ===== src/Dashboard/Overview/Uptime.antt =====
-- `formatUptime` of dashboard/src/pages/Dashboard.tsx.
use Prim.Native.String.{◌++◌}
use go_php.Prelude.{
  ℕ, ◌+◌, ◌*◌, ◌/◌, ◌%◌, ◌≤◌, ◌<◌, ◌≡◌, String, arith, tests, Bool-cases, ltb, if◌then◌else◌, inl,
  inr,
}
use go_php.Prelude.Decimal.{print_ℕ}

-- The parts that are printed: the units that the branch chooses, with their numbers.
pub data Shown : Type 0 where
  s_only : ℕ → Shown
  m_s h_m d_h : ℕ → ℕ → Shown

-- The branches of formatUptime; Math.floor(a / b) is division of integers.
unfoldable pub uptime_parts : ℕ → Shown
uptime_parts seconds =
    let mins = seconds / 60 in
    let hours = mins / 60 in
    let days = hours / 24 in
    if ltb seconds 60
    then s_only seconds
    else if ltb mins 60
    then m_s mins (seconds % 60)
    else if ltb hours 24
    then h_m hours (mins % 60)
    else d_h days (hours % 24)

print_parts : Shown → String
print_parts (s_only s) = print_ℕ s ++ "s"
print_parts (m_s m s) = print_ℕ m ++ ("m " ++ (print_ℕ s ++ "s"))
print_parts (h_m h m) = print_ℕ h ++ ("h " ++ (print_ℕ m ++ "m"))
print_parts (d_h d h) = print_ℕ d ++ ("d " ++ (print_ℕ h ++ "h"))

unfoldable pub format_uptime : ℕ → String
unfolding uptime_parts print_parts
format_uptime seconds = print_parts (uptime_parts seconds)

-- What the shown parts say: at least `low` seconds and less than `low + unit`, with the smaller part
-- below its own limit.
abbrev pub Says : Shown → ℕ → Type 0
Says (s_only s) t = (s ≡ t) × (s < 60)
Says (m_s m s) t = (m * 60 + s ≡ t) × (s < 60) × (m < 60) × (1 ≤ m)
Says (h_m h m) t =
    (h * 3600 + m * 60 ≤ t) × (t < h * 3600 + m * 60 + 60) × (m < 60) × (h < 24) × (1 ≤ h)
Says (d_h d h) t =
    (d * 86400 + h * 3600 ≤ t) × (t < d * 86400 + h * 3600 + 3600) × (h < 24) × (1 ≤ d)

-- The uptime shown is exact below an hour, and short by less than a minute below a day and by less
-- than an hour from then on; each part but the first is in its range.
uptime_parts-Says : (t : ℕ) → Says (uptime_parts t) t
unfolding uptime_parts
uptime_parts-Says t = elim (Bool-cases (ltb t 60)) [
  | inl under_minute ↦ rw under_minute (omega tests)
  | inr minutes ↦ rw minutes (elim (Bool-cases (ltb (t / 60) 60)) [
    | inl under_hour ↦ rw under_hour (ground arith)
    | inr hours ↦ rw hours (elim (Bool-cases (ltb (t / 60 / 60) 24)) [
      | inl under_day ↦ rw under_day (ground arith)
      | inr days ↦ rw days (ground arith)
    ])
  ])
]
