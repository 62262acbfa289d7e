-- ===== src/Stats/Time.antt =====
-- The times that `sigusr1` of src/ecmh.c shows.
use ecmh.Prelude.{
  ℕ, ◌+◌, ◌-◌, ◌*◌, ◌/◌, ◌%◌, ◌^◌, ◌≤◌, ◌<◌, ◌≡◌, leb, inl, inr, Bool-cases, arith, if◌then◌else◌,
}
use ecmh.Stats.{elapsed, seconds_old, uptime}

split_time :
    (s : ℕ)
    → let d = s / (24 * 60 * 60) in
      let s1 = s - d * 24 * 60 * 60 in
      let h = s1 / (60 * 60) in
      let s2 = s1 - h * 60 * 60 in
      let m = s2 / 60 in
      (d * 86400 + h * 3600 + m * 60 + (s2 - m * 60) ≡ s) × (h < 24) × (m < 60) × (s2 - m * 60 < 60)
split_time s = (omega arith, omega arith, omega arith, omega arith)

-- The uptime that is shown adds up to the seconds since the start, modulo 2^32, and its hours,
-- minutes and seconds are in their ranges.
pub uptime_lem :
    (now starttime : ℕ)
    → let u = uptime now starttime in
      (u.d * 86400 + u.h * 3600 + u.m * 60 + u.s ≡ (now + 2 ^ 64 - starttime) % 2 ^ 64 % 2 ^ 32)
      × (u.h < 24)
      × (u.m < 60)
      × (u.s < 60)
unfolding uptime
uptime_lem now starttime = split_time (elapsed now starttime)

elapsed-past : (now t : ℕ) → now < 2 ^ 64 → t ≤ now → elapsed now t ≡ (now - t) % 2 ^ 32
elapsed-past now t h p = omega (arith, h, p)

elapsed-future :
    (now t : ℕ) → t < 2 ^ 64 → now < t → t - now ≤ 2 ^ 31 → elapsed now t ≡ 2 ^ 32 - (t - now)
elapsed-future now t h p q = omega (arith, h, p, q)

-- For a signal whose number is positive: if the clock and the time of a refresh differ by less than
-- 2^31 seconds, the age that is shown is the true one, but for a refresh in the future, where it is
-- 2^32 less the number of the signal.
pub seconds_old_lem :
    (i now refreshtime : ℕ)
    → now < 2 ^ 64
    → refreshtime < 2 ^ 64
    → 0 < i
    → i < 2 ^ 32
    → now < refreshtime + 2 ^ 31
    → refreshtime < now + 2 ^ 31
    → seconds_old i now refreshtime
      ≡ (if leb refreshtime now then now - refreshtime else 2 ^ 32 - i)
unfolding seconds_old
seconds_old_lem i now refreshtime h k a b p q = elim (Bool-cases (leb refreshtime now)) [
  | inl past ↦ rw (past, elapsed-past now refreshtime h (ground arith)) (ground arith)
  | inr future ↦
      rw (future, elapsed-future now refreshtime k (ground arith) (omega arith)) (ground arith)
]
