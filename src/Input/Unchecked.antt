-- ===== src/Input/Unchecked.antt =====
-- `l4_ipv6_icmpv6` of src/ecmh.c and the checksum that a message carries.
use ecmh.Prelude.{ℕ, ◌+◌, ◌≡◌, refl, [], ◌∷◌, arith}
use mathlib.Core.Path.{fun_ext}
use ecmh.Memory.{Memory, write_bytes}
use ecmh.Conf.{World, Env}
use ecmh.Input.{l4_ipv6_icmpv6}

-- The packet with another checksum in its message.
abbrev pub with_stored : Memory → ℕ → ℕ → ℕ → Memory
with_stored mem off a b = write_bytes mem (off + 2) (a ∷ b ∷ [])

cleared_same :
    (mem : Memory) (off a b : ℕ)
    → write_bytes (with_stored mem off a b) (off + 2) (0 ∷ 0 ∷ [])
      ≡ write_bytes mem (off + 2) (0 ∷ 0 ∷ [])
unfolding write_bytes
cleared_same mem off a b = fun_ext (λ k. ground arith)

stored_type : (mem : Memory) (off a b : ℕ) → with_stored mem off a b off ≡ mem off
unfolding write_bytes
stored_type mem off a b = ground arith

-- An ICMPv6 message is handled in the same way whatever checksum it carries: a wrong one is not
-- dropped.
pub l4_ipv6_icmpv6-with_stored :
    (e : Env) (p : ℕ) (mem : Memory) (len off plen a b : ℕ) (w : World)
    → l4_ipv6_icmpv6 e p (with_stored mem off a b) len off plen w
      ≡ l4_ipv6_icmpv6 e p mem len off plen w
unfolding l4_ipv6_icmpv6
l4_ipv6_icmpv6-with_stored e p mem len off plen a b w =
    rw (cleared_same mem off a b, stored_type mem off a b) refl
