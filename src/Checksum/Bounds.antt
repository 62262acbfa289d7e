-- ===== src/Checksum/Bounds.antt =====
-- The checksum of src/ecmh.c against the one's complement sum of RFC 1071, which is the sum of the
-- words modulo 65535.
use ecmh.Prelude.{
  ℕ, zero, suc, ◌+◌, ◌-◌, ◌*◌, ◌/◌, ◌%◌, ◌^◌, ◌<◌, ◌≤◌, ◌≡◌, refl, List, [], ◌∷◌, All, arith,
}
use ecmh.Memory.{memory_of}
use ecmh.Checksum.{sum_words, sum_odd, fold_carries, inchksum, pseudo, finish, ipv6_checksum}

-- Every place of a memory holds a byte.
abbrev pub HasBytes : (ℕ → ℕ) → Type 0
HasBytes mem = (k : ℕ) → mem k < 256

pub All-HasBytes : (bs : List ℕ) → All (λ (b : ℕ). b < 256) bs → HasBytes (memory_of bs)
All-HasBytes [] h k = omega arith
All-HasBytes (b ∷ bs) h zero = h.0
All-HasBytes (b ∷ bs) h (suc k) = All-HasBytes bs h.1 k

sum_words-le :
    (mem : ℕ → ℕ) (off words sum : ℕ)
    → HasBytes mem
    → sum_words mem off words sum ≤ sum + 65535 * words
unfolding sum_words
sum_words-le mem off zero sum b = omega arith
sum_words-le mem off (suc words) sum b = omega (
  arith,
  b off,
  b (off + 1),
  sum_words-le mem (off + 2) words (sum + mem off + 256 * mem (off + 1)) b,
)

sum_odd-le :
    (mem : ℕ → ℕ) (off length : ℕ) → HasBytes mem → sum_odd mem off length ≤ 32768 * length + 255
unfolding sum_odd
sum_odd-le mem off length b =
    ground (arith, sum_words-le mem off (length / 2) 0 b, b (off + length - 1))

-- Four rounds of `while (sum >> 16)` leave a number of 16 bits, for all sums below 2^48.
pub fold_carries-lt : (sum : ℕ) → sum < 2 ^ 48 → fold_carries 4 sum < 2 ^ 16
unfolding fold_carries
fold_carries-lt sum h = ground arith

-- A round keeps the sum modulo 65535.
fold_carries-mod : (fuel sum : ℕ) → fold_carries fuel sum % 65535 ≡ sum % 65535
unfolding fold_carries
fold_carries-mod zero sum = refl
fold_carries-mod (suc fuel) sum =
    ground (arith, fold_carries-mod fuel (sum % 2 ^ 16 + sum / 2 ^ 16))

-- Over at most 65535 bytes, `inchksum` is the sum of the words modulo 65535.
pub inchksum-mod :
    (mem : ℕ → ℕ) (off length : ℕ)
    → HasBytes mem
    → length < 2 ^ 16
    → inchksum mem off length % 65535 ≡ sum_odd mem off length % 65535
unfolding inchksum
inchksum-mod mem off length b h =
    let sum = sum_odd mem off length in
    let bound = sum_odd-le mem off length b in
    let low : sum < 2 ^ 48 = omega arith in
    omega (arith, fold_carries-lt sum low, fold_carries-mod 4 sum)

pub finish_lem :
    (s : ℕ) → s < 3 * 2 ^ 16 → (0 < finish s) × (finish s < 2 ^ 16) × ((finish s + s) % 65535 ≡ 0)
unfolding finish
finish_lem s h = ground arith

-- The words that `ipv6_checksum` covers: the addresses, the pseudo header and the message.
abbrev pub covered_sum : (ℕ → ℕ) → ℕ → ℕ → ℕ → ℕ → ℕ
covered_sum mem ip6 protocol off length =
    sum_odd mem (ip6 + 8) 32 + sum_odd (pseudo length protocol) 0 6 + sum_odd mem off length

pseudo-HasBytes : (length protocol : ℕ) → protocol < 256 → HasBytes (pseudo length protocol)
pseudo-HasBytes length protocol h zero = omega arith
pseudo-HasBytes length protocol h (suc zero) = omega arith
pseudo-HasBytes length protocol h (suc (suc zero)) = omega arith
pseudo-HasBytes length protocol h (suc (suc (suc zero))) = omega arith
pseudo-HasBytes length protocol h (suc (suc (suc (suc zero)))) = omega arith
pseudo-HasBytes length protocol h (suc (suc (suc (suc (suc zero))))) = h
pseudo-HasBytes length protocol h (suc (suc (suc (suc (suc (suc k)))))) = omega arith

pub inchksum-lt : (mem : ℕ → ℕ) (off length : ℕ) → inchksum mem off length < 2 ^ 16
unfolding inchksum
inchksum-lt mem off length = omega arith

pub ipv6_checksum-verifies :
    (mem : ℕ → ℕ) (ip6 protocol off length : ℕ)
    → HasBytes mem
    → protocol < 256
    → length < 2 ^ 16
    → (0 < ipv6_checksum mem ip6 protocol off length)
      × (ipv6_checksum mem ip6 protocol off length < 2 ^ 16)
      × ((ipv6_checksum mem ip6 protocol off length + covered_sum mem ip6 protocol off length)
            % 65535
          ≡ 0)
unfolding ipv6_checksum
ipv6_checksum-verifies mem ip6 protocol off length b hp hl =
    let a₁ = inchksum-lt mem (ip6 + 8) 32 in
    let a₂ = inchksum-lt (pseudo length protocol) 0 6 in
    let a₃ = inchksum-lt mem off length in
    let m₁ = inchksum-mod mem (ip6 + 8) 32 b (omega arith) in
    let m₂ =
      inchksum-mod (pseudo length protocol) 0 6 (pseudo-HasBytes length protocol hp)
        (omega arith) in
    let m₃ = inchksum-mod mem off length b hl in
    let (lo, hi, sum) =
      finish_lem
        (inchksum mem (ip6 + 8) 32
          + inchksum (pseudo length protocol) 0 6
          + inchksum mem off length)
        (omega arith) in
    (lo, hi, omega arith)
