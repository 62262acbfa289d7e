-- ===== src/Bpf/Open.antt =====
-- `int_create_bpf` of src/interfaces.c.
pub mod Laws
use ecmh.Prelude.{
  ℕ, ◌+◌, ◌≤◌, ◌<◌, Bool, true, false, not, ◌&&◌, ◌||◌, ◌==◌, ltb, Option, none, some, List, [],
  ◌∷◌, set, if◌then◌else◌,
}
use ecmh.Bpf.{BpfInt, BpfBuffer, BpfConf, bpf_at, put_bpf}
use ecmh.Bpf.Locals.{int_find_ipv4}

-- What `open` of a device gives: a descriptor, EBUSY, or another error.
pub data Opened : Type 0 where
  opened : ℕ → Opened
  busy refused : Opened

-- What the system answers. `devices` are /dev/bpf0, /dev/bpf1 and so on; past them there are none.
-- `laddr` are the addresses of a tunnel, by SIOCGLIFPHYADDR. `memory` is the address of the
-- buffer that `calloc` gives, or NULL.
pub record BpfSys : Type 0 where
  pub devices : List Opened
  pub setif : Bool
  pub promisc : Bool
  pub nonblock : Bool
  pub immediate : Bool
  pub dlt : Option ℕ
  pub blen : Option ℕ
  pub memory : Option ℕ
  pub socket : Bool
  pub laddr : Option (ℕ × ℕ)

-- The result of `int_create_bpf`, or the end of the program.
pub data Created : Type 0 where
  created : Bool → BpfConf → Created
  exited : Created

-- The loop that opens a device.
unfoldable pub open_bpf : List Opened → Option ℕ
open_bpf [] = none
open_bpf (d ∷ ds) =
    let rest = open_bpf ds in elim d [ opened fd ↦ some fd | busy ↦ rest | refused ↦ none ]

-- `DLT_NULL` and `DLT_EN10MB`.
abbrev pub is_supported : ℕ → Bool
is_supported dlt = dlt == 0 || dlt == 1

abbrev pub max : ℕ → ℕ → ℕ
max a b = if ltb a b then b else a

-- The end of the first branch: the descriptor joins the select set.
abbrev pub fd_set : ℕ → BpfConf → Created
fd_set fd c = created true (record c { selectset = fd ∷ c.selectset; hifd = max c.hifd fd })

-- The buffer that was there is freed.
abbrev pub replace_buffer : ℕ → ℕ → BpfConf → Option ℕ → Created
replace_buffer fd blen c none = exited
replace_buffer fd blen c (some address) =
    fd_set fd (record c { buffer = record { address = address; size = blen }; bufferlen = blen })

-- A buffer that is too small is replaced.
abbrev pub grow_buffer : BpfSys → ℕ → ℕ → BpfConf → Created
grow_buffer s fd blen c =
    if ltb c.bufferlen blen then replace_buffer fd blen c s.memory else fd_set fd c

-- From BIOCGBLEN on.
abbrev pub set_blen : BpfSys → ℕ → ℕ → BpfConf → Option ℕ → Created
set_blen s p fd c none = created false c
set_blen s p fd c (some blen) =
    grow_buffer s fd blen (put_bpf c p (record (bpf_at c.ints p) { bufferlen = blen }))

-- From BIOCGDLT on.
abbrev pub set_dlt : BpfSys → ℕ → ℕ → BpfConf → Option ℕ → Created
set_dlt s p fd c none = created false c
set_dlt s p fd c (some dlt) =
    let c' = put_bpf c p (record (bpf_at c.ints p) { dlt = dlt }) in
    if is_supported dlt then set_blen s p fd c' s.blen else created false c'

-- The descriptor is stored; the `ioctl`s before BIOCGDLT change no state.
abbrev pub with_socket : BpfSys → ℕ → BpfConf → Option ℕ → Created
with_socket s p c none = created false c
with_socket s p c (some fd) =
    let c' = put_bpf c p (record (bpf_at c.ints p) { socket = some fd }) in
    if s.setif && (not c.promisc || s.promisc) && s.nonblock && s.immediate
    then set_dlt s p fd c' s.dlt
    else created false c'

-- A tunnel: its master is the interface that has its local address.
abbrev pub with_master : ℕ → ℕ → ℕ → BpfConf → Option ℕ → Created
with_master p src dst c none =
    created false (put_bpf c p (record (bpf_at c.ints p) { master = none }))
with_master p src dst c (some q) =
    let i = bpf_at c.ints p in
    created true (
      put_bpf c p
        (record i { master = some q; ipv4_local = set i.ipv4_local 0 src; ipv4_remote = dst }))

abbrev pub find_master : ℕ → BpfConf → Option (ℕ × ℕ) → Created
find_master p c none = created false c
find_master p c (some (src, dst)) = with_master p src dst c (int_find_ipv4 true src c)

-- An interface whose socket is open already opens no other.
unfoldable pub int_create_bpf : BpfSys → ℕ → Bool → BpfConf → Created
int_create_bpf s p tunnel c =
    if not c.tunnelmode || not tunnel
    then with_socket s p c
        (elim (bpf_at c.ints p).socket [ none ↦ open_bpf s.devices | some fd ↦ some fd ])
    else if s.socket
    then find_master p c s.laddr
    else created false c
