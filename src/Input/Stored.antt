-- ===== src/Input/Stored.antt =====
-- The checksum that `l4_ipv6_icmpv6` of src/ecmh.c writes into a message.
use ecmh.Prelude.{
  ℕ, zero, suc, ◌+◌, ◌-◌, ◌*◌, ◌/◌, ◌%◌, ◌^◌, ◌<◌, ◌≤◌, ◌≡◌, refl, ap, ◌∙◌, inl, inr, true, ◌==◌,
  ◌&&◌, leb, ltb, [], ◌∷◌, arith, Bool-cases,
}
use ecmh.Memory.{Memory, memory_of, write_bytes, le16}
use ecmh.Checksum.{sum_words, sum_odd, ipv6_checksum}
use ecmh.Checksum.Bounds.{HasBytes, covered_sum, ipv6_checksum-verifies}
use ecmh.Input.{with_checksum}

-- Two memories that agree from one place up to another.
abbrev Agree : Memory → Memory → ℕ → ℕ → Type 0
Agree mem mem' from to = (k : ℕ) → from ≤ k → k < to → mem k ≡ mem' k

sum_words-Agree :
    (mem mem' : Memory) (off n s : ℕ)
    → Agree mem mem' off (off + 2 * n)
    → sum_words mem off n s ≡ sum_words mem' off n s
unfolding sum_words
sum_words-Agree mem mem' off zero s a = refl
sum_words-Agree mem mem' off (suc n) s a =
    let one = a off (omega arith) (omega arith) in
    let two = a (off + 1) (omega arith) (omega arith) in
    rw (one, two)
      (sum_words-Agree mem mem' (off + 2) n _ (λ k h h'. a k (omega arith) (omega arith)))

sum_words-add :
    (mem : Memory) (off n s d : ℕ) → sum_words mem off n (s + d) ≡ sum_words mem off n s + d
unfolding sum_words
sum_words-add mem off zero s d = refl
sum_words-add mem off (suc n) s d =
    let word = mem off + 256 * mem (off + 1) in
    let same : s + d + mem off + 256 * mem (off + 1) ≡ s + mem off + 256 * mem (off + 1) + d =
      omega arith in
    rw same (sum_words-add mem (off + 2) n _ d)

sum_odd-Agree :
    (mem mem' : Memory) (off length : ℕ)
    → Agree mem mem' off (off + length)
    → sum_odd mem off length ≡ sum_odd mem' off length
unfolding sum_odd
sum_odd-Agree mem mem' off length a =
    let words = sum_words-Agree mem mem' off (length / 2) 0 (λ k h h'. a k h (omega arith)) in
    elim (Bool-cases (length % 2 == 1)) [
      | inl odd ↦
          let last = a (off + length - 1) (ground arith) (ground arith) in
          rw (odd, words, last) refl
      | inr even ↦ rw (even, words) refl
    ]

-- The bytes of a memory with a 16-bit number stored.
stored_out : (mem : Memory) (at c k : ℕ) → k < at → write_bytes mem at (le16 c) k ≡ mem k
unfolding write_bytes
stored_out mem at c k h = ground arith

stored_after : (mem : Memory) (at c k : ℕ) → at + 2 ≤ k → write_bytes mem at (le16 c) k ≡ mem k
unfolding write_bytes
stored_after mem at c k h = ground arith

pub stored_first : (mem : Memory) (at c : ℕ) → write_bytes mem at (le16 c) at ≡ c % 256
unfolding write_bytes
stored_first mem at c =
    let inside : (leb at at && ltb at (at + 2)) ≡ true = ground arith in
    let place : at - at ≡ 0 = omega arith in rw (inside, place) refl

pub stored_second : (mem : Memory) (at c : ℕ) → write_bytes mem at (le16 c) (at + 1) ≡ c / 256 % 256
unfolding write_bytes
stored_second mem at c =
    let inside : (leb at (at + 1) && ltb (at + 1) (at + 2)) ≡ true = ground arith in
    let place : at + 1 - at ≡ 1 = omega arith in rw (inside, place) refl

sum_words-stored :
    (mem : Memory) (off n c : ℕ)
    → mem (off + 2) ≡ 0
    → mem (off + 2 + 1) ≡ 0
    → c < 2 ^ 16
    → sum_words (write_bytes mem (off + 2) (le16 c)) off (suc (suc n)) 0
      ≡ sum_words mem off (suc (suc n)) 0 + c
unfolding sum_words
sum_words-stored mem off n c z₁ z₂ h =
    let m = write_bytes mem (off + 2) (le16 c) in
    let w₁ = stored_out mem (off + 2) c off (omega arith) in
    let w₂ = stored_out mem (off + 2) c (off + 1) (omega arith) in
    let w₃ = stored_first mem (off + 2) c in
    let w₄ = stored_second mem (off + 2) c in
    let rest =
      sum_words-Agree m mem (off + 2 + 2) n
        (0 + m off + 256 * m (off + 1) + m (off + 2) + 256 * m (off + 2 + 1))
        (λ k l l'. stored_after mem (off + 2) c k l) in
    let acc : 0 + m off + 256 * m (off + 1) + m (off + 2) + 256 * m (off + 2 + 1)
        ≡ 0 + mem off + 256 * mem (off + 1) + mem (off + 2) + 256 * mem (off + 2 + 1) + c =
      omega (arith, w₁, w₂, w₃, w₄, z₁, z₂) in
    rest ∙ ap (λ s. sum_words mem (off + 2 + 2) n s) acc ∙ sum_words-add mem (off + 2 + 2) n _ c

sum_odd-stored :
    (mem : Memory) (off length c : ℕ)
    → mem (off + 2) ≡ 0
    → mem (off + 2 + 1) ≡ 0
    → c < 2 ^ 16
    → 4 ≤ length
    → sum_odd (write_bytes mem (off + 2) (le16 c)) off length ≡ sum_odd mem off length + c
unfolding sum_odd
sum_odd-stored mem off length c z₁ z₂ h l =
    let words : length / 2 ≡ suc (suc (length / 2 - 2)) = omega arith in
    let stored = sum_words-stored mem off (length / 2 - 2) c z₁ z₂ h in
    elim (Bool-cases (length % 2 == 1)) [
      | inl odd ↦
          let last = stored_after mem (off + 2) c (off + length - 1) (ground arith) in
          rw (odd, last, words, stored) (omega arith)
      | inr even ↦ rw (even, words, stored) refl
    ]

zeros : (n : ℕ) → memory_of (0 ∷ 0 ∷ []) n ≡ 0
zeros zero = refl
zeros (suc zero) = refl
zeros (suc (suc n)) = refl

cleared_byte : (mem : Memory) (at k : ℕ) → mem k < 256 → write_bytes mem at (0 ∷ 0 ∷ []) k < 256
unfolding write_bytes
cleared_byte mem at k h = elim (Bool-cases (leb at k && ltb k (at + 2))) [
  | inl inside ↦ rw (inside, zeros (k - at)) (omega arith)
  | inr outside ↦ rw outside h
]

cleared_first : (mem : Memory) (at : ℕ) → write_bytes mem at (0 ∷ 0 ∷ []) at ≡ 0
cleared_first mem at = stored_first mem at 0

cleared_second : (mem : Memory) (at : ℕ) → write_bytes mem at (0 ∷ 0 ∷ []) (at + 1) ≡ 0
cleared_second mem at = stored_second mem at 0

-- Every ICMPv6 message of at least 4 and less than 65536 bytes, behind the IPv6 header in a memory
-- of bytes, verifies once its checksum is computed anew: all words that a receiver sums up, the
-- stored checksum with them, give a multiple of 65535.
pub with_checksum-verifies :
    (mem : Memory) (off plen : ℕ)
    → HasBytes mem
    → 40 ≤ off
    → 4 ≤ plen
    → plen < 2 ^ 16
    → covered_sum (with_checksum mem off plen) 0 58 off plen % 65535 ≡ 0
with_checksum-verifies mem off plen b ho h4 hl =
    let cleared = write_bytes mem (off + 2) (0 ∷ 0 ∷ []) in
    let c = ipv6_checksum cleared 0 58 off plen in
    let (lo, hi, sum) =
      ipv6_checksum-verifies cleared 0 58 off plen (λ k. cleared_byte mem (off + 2) k (b k))
        (omega arith) hl in
    let header =
      sum_odd-Agree (with_checksum mem off plen) cleared 8 32
        (λ k l l'. stored_out cleared (off + 2) c k (omega arith)) in
    let message =
      sum_odd-stored cleared off plen c (cleared_first mem (off + 2)) (cleared_second mem (off + 2))
        hi h4 in
    omega (arith, sum, header, message)
