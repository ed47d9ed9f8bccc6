-- ===== src/Clock.antt =====
-- src/ansina/auth/clock.py. A `datetime` is its number of microseconds since the first one. A
-- timestamp text has a fixed width down to the millisecond, so texts stand in the order of their
-- milliseconds: it is modelled as that number.
use ansina.Prelude.{ℕ, ◌*◌, ◌/◌}

-- The last three digits of the microseconds are cut off.
abbrev pub iso : ℕ → ℕ
iso t = t / 1000

abbrev pub parse_iso : ℕ → ℕ
parse_iso s = s * 1000
