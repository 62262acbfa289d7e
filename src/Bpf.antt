-- ===== src/Bpf.antt =====
-- The sources of src/interfaces.c and src/ecmh.c that are compiled with ECMH_BPF, on the BSDs: the
-- fields that the structs have there. Pointers into `g_conf->ints` are places; IPv4 addresses are
-- numbers, the first byte on top.
pub mod Open
pub mod Locals
pub mod Write
pub mod Read
pub mod Addresses
pub mod Select
use ecmh.Prelude.{ℕ, Bool, Option, none, List, [], ◌∷◌, get_or, set}
use ecmh.LinkList.{LinkedList}

-- `socket` is `none` for -1. `ipv4_local` has 4 entries, and `linklocal` is the link-local
-- IPv6 address as 4 words; in memory it stands behind `ipv4_remote`.
pub record BpfInt : Type 0 where
  pub ifindex : ℕ
  pub mtu : ℕ
  pub socket : Option ℕ
  pub dlt : ℕ
  pub bufferlen : ℕ
  pub master : Option ℕ
  pub ipv4_local : List ℕ
  pub ipv4_remote : ℕ
  pub linklocal : List ℕ

-- A block of memory that `calloc` gave.
pub record BpfBuffer : Type 0 where
  pub address : ℕ
  pub size : ℕ

-- `selectset` is the set of descriptors. An entry of `locals` is the place of its interface.
pub record BpfConf : Type 0 where
  pub ints : List BpfInt
  pub locals : LinkedList ℕ
  pub tunnelmode : Bool
  pub promisc : Bool
  pub buffer : BpfBuffer
  pub bufferlen : ℕ
  pub hifd : ℕ
  pub selectset : List ℕ

abbrev pub bpf_zero : BpfInt
bpf_zero = record {
  ifindex = 0;
  mtu = 0;
  socket = none;
  dlt = 0;
  bufferlen = 0;
  master = none;
  ipv4_local = 0 ∷ 0 ∷ 0 ∷ 0 ∷ [];
  ipv4_remote = 0;
  linklocal = 0 ∷ 0 ∷ 0 ∷ 0 ∷ [];
}

abbrev pub bpf_at : List BpfInt → ℕ → BpfInt
bpf_at ints p = get_or ints p bpf_zero

abbrev pub put_bpf : BpfConf → ℕ → BpfInt → BpfConf
put_bpf c p i = record c { ints = set c.ints p i }
