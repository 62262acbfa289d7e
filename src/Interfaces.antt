-- ===== src/Interfaces.antt =====
-- src/interfaces.c on Linux (without ECMH_BPF, with ECMH_SUPPORT_MLD2).
pub mod Update
pub mod Laws
pub mod Quiet
pub mod ProcNet
use ecmh.Prelude.{
  ℕ, zero, suc, ◌+◌, ◌-◌, ◌%◌, ◌^◌, Bool, true, false, not, ◌&&◌, ◌||◌, ◌==◌, ltb, leb, add64,
  Option, none, some, List, [], ◌∷◌, ◌++◌, length, set, replicate, if◌then◌else◌,
}
use ecmh.Groups.{subscription_timeout}
use ecmh.Conf.{IntNode, Conf, World, Env, IfInfo, int_zero, int_at, with_conf, put_int}

unfoldable pub int_destroy : ℕ → World → World
int_destroy p w = put_int w p (record (int_at w.conf.ints p) { mtu = 0 })

unfoldable pub int_find : Conf → ℕ → Option ℕ
int_find c ifindex =
    if leb (length c.ints) ifindex || (int_at c.ints ifindex).mtu == 0 then none else some ifindex

-- `strcasecmp(a, b) == 0` for ASCII names.
abbrev pub to_lower : ℕ → ℕ
to_lower c = if leb 65 c && leb c 90 then c + 32 else c

unfoldable pub strcasecmp_eq : List ℕ → List ℕ → Bool
strcasecmp_eq [] [] = true
strcasecmp_eq (a ∷ as') (b ∷ bs) = to_lower a == to_lower b && strcasecmp_eq as' bs
strcasecmp_eq _ _ = false

-- `realloc` to `ifindex + 1` entries, the new ones cleared. The sum is an `unsigned int`.
unfoldable pub grow : List IntNode → ℕ → List IntNode
grow ints ifindex =
    let n = (ifindex + 1) % 2 ^ 32 in
    if ltb (length ints) n then ints ++ replicate (n - length ints) int_zero else ints

abbrev pub loopback_type : ℕ
loopback_type = 772

abbrev pub min_mtu : ℕ
min_mtu = 1280

-- The end of `int_create`: is this the upstream interface?
abbrev pub set_upstream : ℕ → World → World
set_upstream p w = elim w.conf.upstream [
  | none ↦ put_int w p (record (int_at w.conf.ints p) { upstream = false })
  | some u ↦
      if strcasecmp_eq (int_at w.conf.ints p).name u
      then (let w' = put_int w p (record (int_at w.conf.ints p) { upstream = true }) in
          with_conf w' (record w'.conf { upstream_id = (int_at w.conf.ints p).ifindex }))
      else put_int w p (record (int_at w.conf.ints p) { upstream = false })
]

-- From the hardware address on.
abbrev pub create_hwaddr : ℕ → World → Option ℕ → Option ℕ × World
create_hwaddr p w none = (none, int_destroy p w)
create_hwaddr p w (some family) =
    let w' = put_int w p (record (int_at w.conf.ints p) { hwaddr = family }) in
    if family == loopback_type then (none, int_destroy p w') else (some p, set_upstream p w')

-- From the MTU on.
abbrev pub create_mtu : ℕ → World → IfInfo → Option ℕ → Option ℕ × World
create_mtu p w info none = (none, int_destroy p w)
create_mtu p w info (some mtu) =
    if ltb mtu min_mtu
    then (none, int_destroy p w)
    else create_hwaddr p (put_int w p (record (int_at w.conf.ints p) { mtu = mtu })) info.hwaddr

-- From the name on.
abbrev pub create_name : ℕ → World → IfInfo → Option (List ℕ) → Option ℕ × World
create_name p w info none = (none, int_destroy p w)
create_name p w info (some name) =
    create_mtu p (put_int w p (record (int_at w.conf.ints p) { name = name })) info info.mtu

-- Making the interface promiscuous changes no state of the program.
unfoldable pub int_create : Env → ℕ → World → Option ℕ × World
int_create e ifindex w =
    let grown = with_conf w (record w.conf { ints = grow w.conf.ints ifindex }) in
    let info = e.ifinfo ifindex in
    if info.socket
    then create_name ifindex (put_int grown ifindex (record int_zero { ifindex = ifindex })) info
        info.name
    else (none, grown)

-- `intn` after a version is seen on its link.
unfoldable pub seen_version : Conf → ℕ → IntNode → ℕ → IntNode
seen_version c now i newversion =
    if newversion == 1
    then if c.mld2only
      then i
      else if i.mld_version == 0 && not (i.mld_version == 1)
      then record i { mld_version = 1; mld_last_v1 = now }
      else i
    else let lapsed =
        not (i.mld_last_v1 == 0) && ltb (add64 i.mld_last_v1 subscription_timeout) now in
      let i' = if lapsed then record i { mld_version = 0; mld_last_v1 = 0 } else i in
      if c.mld1only
      then i'
      else if i'.mld_version == 0 && not (i'.mld_version == 1) && not (i'.mld_version == 2)
      then record i' { mld_version = newversion }
      else i'

unfoldable pub int_set_mld_version : Env → ℕ → ℕ → World → World
int_set_mld_version e p newversion w =
    put_int w p (seen_version w.conf e.now (int_at w.conf.ints p) newversion)
