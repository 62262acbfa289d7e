-- ===== src/Bpf/Locals.antt =====
-- `int_find_ipv4` and the list of local addresses of src/interfaces.c, with ECMH_BPF.
pub mod Laws
use ecmh.Prelude.{
  ℕ, zero, suc, ◌+◌, Bool, true, false, not, ◌&&◌, ◌||◌, ◌==◌, Option, none, some, List, [], ◌∷◌,
  get_or, if◌then◌else◌,
}
use ecmh.LinkList.{LinkedList, listnode_add}
use ecmh.Bpf.{BpfInt, BpfConf, bpf_at}

-- `memcmp` with each of the addresses.
unfoldable pub has_addr : List ℕ → ℕ → Bool
has_addr [] ipv4 = false
has_addr (a ∷ as') ipv4 = a == ipv4 || has_addr as' ipv4

abbrev pub has_ipv4 : Bool → BpfInt → ℕ → Bool
has_ipv4 local i ipv4 = if local then has_addr i.ipv4_local ipv4 else i.ipv4_remote == ipv4

-- The loop over the interfaces, from the place `p` on.
unfoldable pub find_from : Bool → ℕ → List BpfInt → ℕ → Option ℕ
find_from local ipv4 [] p = none
find_from local ipv4 (i ∷ is') p =
    let rest = find_from local ipv4 is' (suc p) in
    if i.mtu == 0 then rest else if has_ipv4 local i ipv4 then some p else rest

abbrev pub int_find_ipv4 : Bool → ℕ → BpfConf → Option ℕ
int_find_ipv4 local ipv4 c = find_from local ipv4 c.ints 0

-- The interface of the node that is found. A node does not hold the address that it was added for.
unfoldable pub find_local : List BpfInt → List ℕ → ℕ → Option ℕ
find_local ints [] ipv4 = none
find_local ints (l ∷ ls) ipv4 =
    let rest = find_local ints ls ipv4 in
    if has_addr (bpf_at ints l).ipv4_local ipv4 then some l else rest

abbrev pub local_find : ℕ → BpfConf → Option ℕ
local_find ipv4 c = find_local c.ints c.locals.items ipv4

-- The end of the loop body of `local_update`. `node` and `link` tell whether `calloc` finds memory.
abbrev pub add_local : Bool → Bool → ℕ → BpfConf → Option ℕ → BpfConf
add_local node link p c (some l) = c
add_local node link p c none =
    if node then record c { locals = listnode_add link c.locals p } else c

unfoldable pub update_locals : (ℕ → Bool × Bool) → ℕ → List ℕ → BpfConf → BpfConf
update_locals a p [] c = c
update_locals a p (ipv4 ∷ as') c =
    let (node, link) = a ipv4 in
    update_locals a p as' (if ipv4 == 0 then c else add_local node link p c (local_find ipv4 c))

-- `a` is what `calloc` gives for an address.
abbrev pub local_update : (ℕ → Bool × Bool) → ℕ → BpfConf → BpfConf
local_update a p c = update_locals a p (bpf_at c.ints p).ipv4_local c
