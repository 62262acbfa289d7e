-- ===== src/Bpf/Locals/Laws.antt =====
-- Which local addresses are found, in src/interfaces.c with ECMH_BPF.
use ecmh.Prelude.{
  ℕ, suc, ◌+◌, ◌≡◌, ◌≢◌, refl, inl, inr, Bool, true, false, not, ◌&&◌, ◌||◌, ◌==◌, Option, none,
  some, List, [], ◌∷◌, ◌++◌, arith, Bool-cases, Option-cases, if◌then◌else◌,
}
use ecmh.LinkList.{listnode_add}
use ecmh.Bpf.{BpfInt, BpfConf, bpf_at}
use ecmh.Bpf.Locals.{
  has_addr, has_ipv4, find_from, int_find_ipv4, find_local, local_find, add_local,
}

abbrev pub is_found : Option ℕ → Bool
is_found none = false
is_found (some p) = true

abbrev pub has_local : BpfConf → ℕ → ℕ → Bool
has_local c p ipv4 = has_addr (bpf_at c.ints p).ipv4_local ipv4

find_local-append :
    (ints : List BpfInt) (ls : List ℕ) (p ipv4 : ℕ)
    → is_found (find_local ints (ls ++ p ∷ []) ipv4)
      ≡ (is_found (find_local ints ls ipv4) || has_addr (bpf_at ints p).ipv4_local ipv4)
unfolding find_local
find_local-append ints [] p ipv4 = ground arith
find_local-append ints (l ∷ ls) p ipv4 =
    elim (Bool-cases (has_addr (bpf_at ints l).ipv4_local ipv4)) [
      | inl here ↦ rw here refl
      | inr elsewhere ↦ rw elsewhere (find_local-append ints ls p ipv4)
    ]

abbrev after_one : ℕ → ℕ → BpfConf → BpfConf
after_one p a c = if a == 0 then c else add_local true true p c (local_find a c)

abbrev pub all_memory : ℕ → Bool × Bool
all_memory ipv4 = (true, true)

-- One address: a node is added if it is not zero and not found.
after_one-found :
    (p a : ℕ) (c : BpfConf) (ipv4 : ℕ)
    → is_found (local_find ipv4 (after_one p a c)) ≡ (
        is_found (local_find ipv4 c)
        || (not (a == 0) && not (is_found (local_find a c)) && has_local c p ipv4))
unfolding listnode_add
after_one-found p a c ipv4 = elim (Bool-cases (a == 0)) [
  | inl empty ↦ rw empty (ground arith)
  | inr full ↦ elim (Option-cases (local_find a c)) [
    | inl absent ↦ rw (full, absent) (find_local-append c.ints c.locals.items p ipv4)
    | inr (l, there) ↦ rw (full, there) (ground arith)
  ]
]

-- Some address of the list is neither zero nor found.
abbrev any_new : BpfConf → List ℕ → Bool
any_new c [] = false
any_new c (a ∷ as') = (not (a == 0) && not (is_found (local_find a c))) || any_new c as'

abbrev Found : Bool → ℕ → List BpfInt → ℕ → ℕ → Type 0
Found local ipv4 ints s q =
    (k : ℕ) × (q ≡ s + k) × ((bpf_at ints k).mtu ≢ 0) × (has_ipv4 local (bpf_at ints k) ipv4 ≡ true)

Found-later :
    (local : Bool) (ipv4 : ℕ) (i : BpfInt) (is' : List BpfInt) (s q : ℕ)
    → Found local ipv4 is' (suc s) q
    → Found local ipv4 (i ∷ is') s q
Found-later local ipv4 i is' s q (k, e, on, has) = (suc k, omega (arith, e), on, has)

find_from-Found :
    (local : Bool) (ipv4 : ℕ) (ints : List BpfInt) (s q : ℕ)
    → find_from local ipv4 ints s ≡ some q
    → Found local ipv4 ints s q
unfolding find_from
find_from-Found local ipv4 [] s q h = cc
find_from-Found local ipv4 (i ∷ is') s q h = elim (Bool-cases (i.mtu == 0)) [
  | inl off ↦
      Found-later local ipv4 i is' s q
        (find_from-Found local ipv4 is' (suc s) q (ground (arith, h)))
  | inr on ↦ elim (Bool-cases (has_ipv4 local i ipv4)) [
    | inl here ↦ (0, ground (arith, h), ground arith, here)
    | inr other ↦
        Found-later local ipv4 i is' s q
          (find_from-Found local ipv4 is' (suc s) q (ground (arith, h)))
  ]
]

-- The interface that is found is in use and has the address.
pub int_find_ipv4_lem :
    (local : Bool) (ipv4 p : ℕ) (c : BpfConf)
    → int_find_ipv4 local ipv4 c ≡ some p
    → ((bpf_at c.ints p).mtu ≢ 0) × (has_ipv4 local (bpf_at c.ints p) ipv4 ≡ true)
int_find_ipv4_lem local ipv4 p c h =
    let (k, e, on, has) = find_from-Found local ipv4 c.ints 0 p h in
    let same : p ≡ k = omega (arith, e) in rw same (on, has)
