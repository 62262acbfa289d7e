-- ===== src/Bpf/Addresses.antt =====
-- `update_interfaces` of src/ecmh.c with ECMH_BPF, for an entry of `getifaddrs` with an IPv4
-- address.
pub mod Laws
use ecmh.Prelude.{
  ℕ, zero, suc, ◌+◌, Bool, true, false, not, ◌&&◌, ◌==◌, List, [], ◌∷◌, ◌++◌, get_or, set,
  if◌then◌else◌,
}
use ecmh.Bpf.{BpfInt, BpfConf, bpf_at, put_bpf}
use ecmh.Bpf.Locals.{local_update}

-- The words of the interface from `ipv4_local` on, up to the link-local address.
abbrev pub words_of : BpfInt → List ℕ
words_of i = i.ipv4_local ++ i.ipv4_remote ∷ i.linklocal

abbrev pub word : List ℕ → ℕ → ℕ
word ws k = get_or ws k 0

-- The fields by their places.
abbrev pub with_words : BpfInt → List ℕ → BpfInt
with_words i ws = record i {
  ipv4_local = word ws 0 ∷ (word ws 1 ∷ (word ws 2 ∷ (word ws 3 ∷ [])));
  ipv4_remote = word ws 4;
  linklocal = word ws 5 ∷ (word ws 6 ∷ (word ws 7 ∷ (word ws 8 ∷ [])));
}

-- `addr` has 16 bytes: the IPv4 address, the 8 bytes of `sin_zero`, and 4 bytes that stand behind
-- the socket address on the stack.
pub record InetAddr : Type 0 where
  pub addr : ℕ
  pub zero1 : ℕ
  pub zero2 : ℕ
  pub stack : ℕ

-- `memcpy(&intn->ipv4_local[num], &addr, sizeof(intn->ipv4_local))` copies all of it.
abbrev pub memcpy_addr : List ℕ → ℕ → InetAddr → List ℕ
memcpy_addr ws num a =
    set (set (set (set ws num a.addr) (num + 1) a.zero1) (num + 2) a.zero2) (num + 3) a.stack

-- `memcmp(&intn->ipv4_local[num], &addr, sizeof(addr)) == 0` compares all of it.
abbrev pub is_addr_at : List ℕ → ℕ → InetAddr → Bool
is_addr_at ws num a =
    word ws num == a.addr
    && (word ws (num + 1) == a.zero1
        && (word ws (num + 2) == a.zero2 && word ws (num + 3) == a.stack))

-- The loop over the slots from `num` on, `n` of them: the words, and `gotipv4`.
unfoldable pub find_slot : ℕ → ℕ → InetAddr → Bool → List ℕ → List ℕ × Bool
find_slot zero num a ptp ws = (ws, false)
find_slot (suc n) num a ptp ws =
    let rest = find_slot n (num + 1) a ptp ws in
    if word ws num == 0
    then (memcpy_addr ws num a, true)
    else if is_addr_at ws num a
    then (ws, false)
    else if ptp
    then (ws, false)
    else rest

-- INTNODE_MAXIPV4.
abbrev pub intnode_maxipv4 : ℕ
intnode_maxipv4 = 4

-- The entry for the interface at `p`. `got` is the value that `gotipv4` has before, and `alloc` what
-- `calloc` gives for the list of local addresses.
unfoldable pub take_inet : (ℕ → Bool × Bool) → ℕ → InetAddr → Bool → Bool → BpfConf → BpfConf
take_inet alloc p a ptp got c =
    let i = bpf_at c.ints p in
    let (ws, found) = find_slot intnode_maxipv4 0 a ptp (words_of i) in
    let c' = put_bpf c p (with_words i ws) in
    if (if found then true else got) && not ptp then local_update alloc p c' else c'
