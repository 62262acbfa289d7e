-- ===== src/Checksum.antt =====
-- `inchksum` and `ipv6_checksum` of src/ecmh.c. A memory is a function from places to bytes, and a
-- 16-bit word of it is read in the host's order, the low byte first.
pub mod Bounds
use ecmh.Prelude.{ℕ, zero, suc, ◌+◌, ◌-◌, ◌*◌, ◌/◌, ◌%◌, ◌^◌, ◌==◌, [], ◌∷◌, get_or, if◌then◌else◌}

-- The first loop, with `words` words to go, and the byte that is left of an odd length.
unfoldable pub sum_words : (ℕ → ℕ) → ℕ → ℕ → ℕ → ℕ
sum_words mem off zero sum = sum
sum_words mem off (suc words) sum =
    sum_words mem (off + 2) words (sum + mem off + 256 * mem (off + 1))

unfoldable pub sum_odd : (ℕ → ℕ) → ℕ → ℕ → ℕ
sum_odd mem off length =
    let sum = sum_words mem off (length / 2) 0 in
    if length % 2 == 1 then sum + mem (off + length - 1) else sum

-- `while (sum >> 16)`. The fuel is enough: `fold_carries-lt`.
unfoldable pub fold_carries : ℕ → ℕ → ℕ
fold_carries zero sum = sum
fold_carries (suc fuel) sum =
    let rest = fold_carries fuel (sum % 2 ^ 16 + sum / 2 ^ 16) in
    if sum / 2 ^ 16 == 0 then sum else rest

unfoldable pub inchksum : (ℕ → ℕ) → ℕ → ℕ → ℕ
inchksum mem off length = fold_carries 4 (sum_odd mem off length) % 2 ^ 16

-- The pseudo header in memory: length in network order, three zero bytes, next header.
abbrev pub pseudo : ℕ → ℕ → ℕ → ℕ
pseudo length protocol i =
    get_or (length / 256 % 256 ∷ length % 256 ∷ 0 ∷ 0 ∷ 0 ∷ protocol ∷ []) i 0

-- The carries, the complement, and no zero: the end of `ipv6_checksum`, on `uint32_t`.
unfoldable pub finish : ℕ → ℕ
finish chksum =
    let wrapped = chksum / 2 ^ 16 + chksum % 2 ^ 16 in
    let folded = (wrapped + wrapped / 2 ^ 16) % 2 ^ 32 in
    let flipped = 2 ^ 16 - 1 - folded % 2 ^ 16 in if flipped == 0 then 0xffff else flipped

-- `ip6` is the place of the IPv6 header, whose addresses stand from byte 8 to byte 40; `length` is
-- a `uint16_t`.
unfoldable pub ipv6_checksum : (ℕ → ℕ) → ℕ → ℕ → ℕ → ℕ → ℕ
ipv6_checksum mem ip6 protocol off length =
    finish
      (inchksum mem (ip6 + 8) 32 + inchksum (pseudo length protocol) 0 6 + inchksum mem off length)
