-- ===== src/Memory.antt =====
-- Packets in memory: bytes at places, 16-bit words in network and in host order (little-endian),
-- and addresses, the first byte on top.
use ecmh.Prelude.{
  ℕ, zero, suc, ◌+◌, ◌-◌, ◌*◌, ◌/◌, ◌%◌, ◌^◌, ◌&&◌, leb, ltb, List, [], ◌∷◌, length, get_or,
  if◌then◌else◌,
}
use ecmh.Addr.{In6Addr}

abbrev pub Memory : Type 0
Memory = ℕ → ℕ

-- The memory from `off` on holds the bytes of `bs`.
unfoldable pub write_bytes : Memory → ℕ → List ℕ → Memory
write_bytes mem off bs i =
    if leb off i && ltb i (off + length bs) then get_or bs (i - off) 0 else mem i

unfoldable pub read_bytes : Memory → ℕ → ℕ → List ℕ
read_bytes mem off zero = []
read_bytes mem off (suc n) = mem off ∷ read_bytes mem (off + 1) n

abbrev pub memory_of : List ℕ → Memory
memory_of bs i = get_or bs i 0

abbrev pub be16 : ℕ → List ℕ
be16 n = n / 256 % 256 ∷ n % 256 ∷ []

abbrev pub le16 : ℕ → List ℕ
le16 n = n % 256 ∷ n / 256 % 256 ∷ []

-- `ntohs` of the word at `off`, and the word as the host reads it.
abbrev pub ntohs_at : Memory → ℕ → ℕ
ntohs_at mem off = mem off * 256 + mem (off + 1)

abbrev pub word_at : Memory → ℕ → ℕ
word_at mem off = mem off + 256 * mem (off + 1)

-- `htons` on a little-endian host.
abbrev pub swap16 : ℕ → ℕ
swap16 n = n % 256 * 256 + n / 256 % 256

-- The last `n` bytes of a number.
unfoldable pub addr_bytes : ℕ → In6Addr → List ℕ
addr_bytes zero a = []
addr_bytes (suc n) a = a / 256 ^ n % 256 ∷ addr_bytes n a
