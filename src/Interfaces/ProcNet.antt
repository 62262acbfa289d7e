-- ===== src/Interfaces/ProcNet.antt =====
-- The reading of /proc/net/if_inet6 in `update_interfaces` of src/ecmh.c, without ECMH_GETIFADDR.
use ecmh.Prelude.{
  ℕ, zero, suc, ◌+◌, ◌*◌, ◌/◌, ◌%◌, ◌<◌, ◌≡◌, refl, ap, ◌∙◌, Option, none, some, List, [], ◌∷◌,
  ◌++◌, All, length, arith,
}
use ecmh.Names.{nibble2int}
use ecmh.Names.Laws.{hex_digit}

-- A byte of two digits, in front of the bytes behind it. A character that is no digit fails the
-- assertion of `nibble2int`, which ends the program.
abbrev pub byte_of : Option ℕ → Option ℕ → Option (List ℕ) → Option (List ℕ)
byte_of none lo bs = none
byte_of (some hi) none bs = none
byte_of (some hi) (some lo) none = none
byte_of (some hi) (some lo) (some bs) = some ((hi * 16 + lo) % 256 ∷ bs)

-- The loop that fills `addr.s6_addr`, from the characters of the line on; behind its end there is
-- a 0.
unfoldable pub read_addr : ℕ → List ℕ → Option (List ℕ)
read_addr zero buf = some []
read_addr (suc n) [] = none
read_addr (suc n) (c ∷ []) = none
read_addr (suc n) (c ∷ (c' ∷ buf)) = byte_of (nibble2int c) (nibble2int c') (read_addr n buf)

-- A line: the program ends, the line is passed over, or it has an interface and an address.
pub data InetLine : Type 0 where
  aborts broken : InetLine
  address : ℕ → List ℕ → InetLine

abbrev pub drop : ℕ → List ℕ → List ℕ
drop zero buf = buf
drop (suc n) [] = []
drop (suc n) (c ∷ buf) = drop n buf

-- `sscanf` reads the index and four more fields from place 33 on.
abbrev pub line_of : Option (List ℕ) → Option ℕ → InetLine
line_of none ifindex = aborts
line_of (some addr) none = broken
line_of (some addr) (some ifindex) = address ifindex addr

unfoldable pub read_line : (List ℕ → Option ℕ) → List ℕ → InetLine
read_line sscanf buf = line_of (read_addr 16 buf) (sscanf (drop 33 buf))

-- The file has two digits in lower case for each byte.
abbrev pub hex : List ℕ → List ℕ
hex [] = []
hex (b ∷ bs) = hex_digit (b / 16) ∷ (hex_digit (b % 16) ∷ hex bs)

nibble2int-hex_digit : (d : ℕ) → d < 16 → nibble2int (hex_digit d) ≡ some d
unfolding nibble2int
nibble2int-hex_digit d h = ground arith

-- The bytes of an address, each below 256, printed with two hexadecimal digits each, are read
-- again, whatever follows.
pub read_addr-hex :
    (bs rest : List ℕ) → All (λ b. b < 256) bs → read_addr (length bs) (hex bs ++ rest) ≡ some bs
unfolding read_addr
read_addr-hex [] rest h = refl
read_addr-hex (b ∷ bs) rest h =
    let hi = nibble2int-hex_digit (b / 16) (omega (arith, h.0)) in
    let lo = nibble2int-hex_digit (b % 16) (omega arith) in
    let ih = read_addr-hex bs rest h.1 in
    let same : (b / 16 * 16 + b % 16) % 256 ≡ b = omega (arith, h.0) in
    (λ i. byte_of (hi i) (lo i) (ih i)) ∙ ap (λ n. some (n ∷ bs)) same
