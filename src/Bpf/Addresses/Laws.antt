-- ===== src/Bpf/Addresses/Laws.antt =====
-- Which words of an interface an IPv4 address is written to, in src/ecmh.c with ECMH_BPF.
use ecmh.Prelude.{
  ℕ, zero, suc, ◌+◌, ◌-◌, ◌≤◌, ◌<◌, ◌≡◌, refl, sym, ap, ◌∙◌, Bool, true, false, not, ◌&&◌, ◌==◌,
  List, [], ◌∷◌, length, get_or, set, get_or-set_self, get_or-set_ne, length-set, Option, none,
  some, arith, if◌then◌else◌,
}
use ecmh.Bpf.{BpfInt, BpfConf, bpf_at, bpf_zero, put_bpf}
use ecmh.Bpf.Locals.{local_find, add_local, update_locals, local_update}
use ecmh.Bpf.Addresses.{
  InetAddr, word, memcpy_addr, is_addr_at, find_slot, words_of, with_words, take_inet,
  intnode_maxipv4,
}

-- The slots from `num` on, `n` of them, are taken, and by no such address.
abbrev pub AreTaken : List ℕ → InetAddr → ℕ → ℕ → Type 0
AreTaken ws a num zero = Unit
AreTaken ws a num (suc n) =
    ((word ws num == 0) ≡ false) × (is_addr_at ws num a ≡ false) × AreTaken ws a (num + 1) n

find_slot-taken :
    (n k num q : ℕ) (a : InetAddr) (ws : List ℕ)
    → AreTaken ws a num k
    → q ≡ num + k
    → word ws q ≡ 0
    → k < n
    → find_slot n num a false ws ≡ (memcpy_addr ws q a, true)
unfolding find_slot
find_slot-taken zero k num q a ws t m e b = absurd (omega arith)
find_slot-taken (suc n) zero num q a ws t m e b =
    let here : q ≡ num = omega arith in
    let empty : word ws num ≡ 0 = ap (λ k. word ws k) (sym here) ∙ e in rw (empty, here) refl
find_slot-taken (suc n) (suc k) num q a ws t m e b =
    rw (t.0, t.1) (find_slot-taken n k (num + 1) q a ws t.2 (omega arith) e (omega arith))

-- The words of an address, in order.
abbrev pub inet_word : InetAddr → ℕ → ℕ
inet_word a zero = a.addr
inet_word a (suc zero) = a.zero1
inet_word a (suc (suc zero)) = a.zero2
inet_word a (suc (suc (suc k))) = a.stack

-- What a copy writes.
memcpy_addr-word :
    (ws : List ℕ) (q j : ℕ) (a : InetAddr)
    → q + 3 < length ws
    → j < 4
    → word (memcpy_addr ws q a) (q + j) ≡ inet_word a j
memcpy_addr-word ws q zero a b k =
    let z : q + 0 ≡ q = omega arith in
    let w1 = set ws q a.addr in
    let w2 = set w1 (q + 1) a.zero1 in
    let w3 = set w2 (q + 2) a.zero2 in
    rw z (
      get_or-set_ne w3 (q + 3) q a.stack 0 (omega arith)
      ∙ get_or-set_ne w2 (q + 2) q a.zero2 0 (omega arith)
      ∙ get_or-set_ne w1 (q + 1) q a.zero1 0 (omega arith)
      ∙ get_or-set_self ws q a.addr 0 (omega arith))
memcpy_addr-word ws q (suc zero) a b k =
    let w1 = set ws q a.addr in
    let w2 = set w1 (q + 1) a.zero1 in
    let w3 = set w2 (q + 2) a.zero2 in
    get_or-set_ne w3 (q + 3) (q + 1) a.stack 0 (omega arith)
    ∙ get_or-set_ne w2 (q + 2) (q + 1) a.zero2 0 (omega arith)
    ∙ get_or-set_self w1 (q + 1) a.zero1 0 (omega (arith, length-set ws q a.addr))
memcpy_addr-word ws q (suc (suc zero)) a b k =
    let w1 = set ws q a.addr in
    let w2 = set w1 (q + 1) a.zero1 in
    let w3 = set w2 (q + 2) a.zero2 in
    get_or-set_ne w3 (q + 3) (q + 2) a.stack 0 (omega arith)
    ∙ get_or-set_self w2 (q + 2) a.zero2 0
        (omega (arith, length-set ws q a.addr, length-set w1 (q + 1) a.zero1))
memcpy_addr-word ws q (suc (suc (suc zero))) a b k =
    let w1 = set ws q a.addr in
    let w2 = set w1 (q + 1) a.zero1 in
    let w3 = set w2 (q + 2) a.zero2 in
    get_or-set_self w3 (q + 3) a.stack 0 (
      omega (
        arith,
        length-set ws q a.addr,
        length-set w1 (q + 1) a.zero1,
        length-set w2 (q + 2) a.zero2,
      ))
memcpy_addr-word ws q (suc (suc (suc (suc j)))) a b k = absurd (omega arith)

add_local-ints :
    (node link : Bool) (p : ℕ) (c : BpfConf) (o : Option ℕ)
    → (add_local node link p c o).ints ≡ c.ints
add_local-ints node link p c (some l) = refl
add_local-ints node link p c none = ground arith

after_one-ints :
    (node link : Bool) (p ipv4 : ℕ) (c : BpfConf)
    → (if ipv4 == 0 then c else add_local node link p c (local_find ipv4 c)).ints ≡ c.ints
after_one-ints node link p ipv4 c = ground (arith, add_local-ints node link p c (local_find ipv4 c))

local_update-ints :
    (alloc : ℕ → Bool × Bool) (p : ℕ) (as' : List ℕ) (c : BpfConf)
    → (update_locals alloc p as' c).ints ≡ c.ints
unfolding update_locals
local_update-ints alloc p [] c = refl
local_update-ints alloc p (ipv4 ∷ as') c =
    local_update-ints alloc p as' _ ∙ after_one-ints (alloc ipv4).0 (alloc ipv4).1 p ipv4 c

updated-ints :
    (b : Bool) (alloc : ℕ → Bool × Bool) (p : ℕ) (c : BpfConf)
    → (if b then local_update alloc p c else c).ints ≡ c.ints
updated-ints true alloc p c = local_update-ints alloc p (bpf_at c.ints p).ipv4_local c
updated-ints false alloc p c = refl

bpf_at-take_inet :
    (alloc : ℕ → Bool × Bool) (p : ℕ) (a : InetAddr) (ptp got : Bool) (c : BpfConf)
    → p < length c.ints
    → bpf_at (take_inet alloc p a ptp got c).ints p
      ≡ with_words
          (bpf_at c.ints p)
          (find_slot intnode_maxipv4 0 a ptp (words_of (bpf_at c.ints p))).0
unfolding take_inet
bpf_at-take_inet alloc p a ptp got c inside =
    let i = bpf_at c.ints p in
    let (ws, found) = find_slot intnode_maxipv4 0 a ptp (words_of i) in
    let c' = put_bpf c p (with_words i ws) in
    ap (λ is'. bpf_at is' p) (updated-ints ((if found then true else got) && not ptp) alloc p c')
    ∙ get_or-set_self c.ints p (with_words i ws) bpf_zero inside

with_words-local :
    (i : BpfInt) (ws : List ℕ) (q : ℕ) → q < 4 → get_or (with_words i ws).ipv4_local q 0 ≡ word ws q
with_words-local i ws zero h = refl
with_words-local i ws (suc zero) h = refl
with_words-local i ws (suc (suc zero)) h = refl
with_words-local i ws (suc (suc (suc zero))) h = refl
with_words-local i ws (suc (suc (suc (suc q)))) h = absurd (omega arith)

-- On an interface that is no point-to-point link, whose slots up to the slot `q` are taken, by other
-- addresses, and whose slot `q`, the second, third or fourth, is empty, an IPv4 address goes to the
-- slot `q`, and the remote address of the interface becomes a word that stands behind the IPv4
-- address in memory: a copy of 16 bytes runs over the end of the local addresses.
pub take_inet-remote :
    (alloc : ℕ → Bool × Bool) (p q : ℕ) (a : InetAddr) (got : Bool) (c : BpfConf)
    → p < length c.ints
    → length (words_of (bpf_at c.ints p)) ≡ 9
    → AreTaken (words_of (bpf_at c.ints p)) a 0 q
    → word (words_of (bpf_at c.ints p)) q ≡ 0
    → 1 ≤ q
    → q < 4
    → let i = bpf_at (take_inet alloc p a false got c).ints p in
      (get_or i.ipv4_local q 0 ≡ a.addr) × (i.ipv4_remote ≡ inet_word a (4 - q))
take_inet-remote alloc p q a got c inside nine taken empty lo hi =
    let i = bpf_at c.ints p in
    let ws = words_of i in
    let slot = find_slot-taken 4 q 0 q a ws taken (omega arith) empty hi in
    let there : bpf_at (take_inet alloc p a false got c).ints p
        ≡ with_words i (memcpy_addr ws q a) =
      bpf_at-take_inet alloc p a false got c inside ∙ ap (λ r. with_words i r.0) slot in
    let z : q + 0 ≡ q = omega arith in
    let four : q + (4 - q) ≡ 4 = omega arith in
    (
      ap (λ i'. get_or i'.ipv4_local q 0) there
          ∙ with_words-local i (memcpy_addr ws q a) q hi
          ∙ ap (λ t. word (memcpy_addr ws q a) t) (sym z)
          ∙ memcpy_addr-word ws q 0 a (omega arith) (omega arith),
      ap (λ i'. i'.ipv4_remote) there
          ∙ ap (λ t. word (memcpy_addr ws q a) t) (sym four)
          ∙ memcpy_addr-word ws q (4 - q) a (omega arith) (omega arith),
    )
