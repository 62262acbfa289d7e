-- ===== src/Bpf/Select.antt =====
-- `handleinterfaces` of src/ecmh.c with ECMH_BPF: `select`, and the loop over the interfaces.
pub mod Laws
use ecmh.Prelude.{
  ℕ, zero, suc, ◌+◌, Bool, true, false, ◌||◌, ◌==◌, ltb, Option, none, some, List, [], ◌∷◌, ◌++◌,
  length, if◌then◌else◌,
}
use ecmh.Memory.{Memory}
use ecmh.Bpf.{BpfInt, BpfConf, bpf_at}
use ecmh.Bpf.Read.{BpfHeader, Packet, frames_of, l2_eth}

-- What `select` returns: -1 with EINTR or with another error, 0, or the descriptors to read from.
pub data Selected : Type 0 where
  interrupted failed quiet : Selected
  ready : List ℕ → Selected

-- FD_ISSET.
unfoldable pub fd_isset : ℕ → List ℕ → Bool
fd_isset fd [] = false
fd_isset fd (f ∷ fs) = f == fd || fd_isset fd fs

-- What `read` of a descriptor, into the buffer at an address and of at most a length, puts in the
-- buffer, which stands at 0, with its headers, or an error.
abbrev pub Reads : Type 0
Reads = ℕ → ℕ → ℕ → Option (Memory × BpfHeader)

-- The result of the function, the packets for `l3_ipv6`, and the configuration.
abbrev pub Turn : Type 0
Turn = Bool × List Packet × BpfConf

abbrev pub with_packet : Option Packet → List Packet → List Packet
with_packet none ps = ps
with_packet (some q) ps = q ∷ ps

-- What `l3_ipv6` does to the configuration for a packet is an argument.
abbrev pub handled : (Packet → BpfConf → BpfConf) → Option Packet → BpfConf → BpfConf
handled l3_ipv6 none c = c
handled l3_ipv6 (some q) c = l3_ipv6 q c

module _ (update : BpfConf → BpfConf) (l3_ipv6 : Packet → BpfConf → BpfConf) where
  -- The frames of a buffer, one after the other.
  unfoldable pub handle_frames : Memory → ℕ → List (ℕ × ℕ) → BpfConf → List Packet × BpfConf
  handle_frames mem p [] c = ([], c)
  handle_frames mem p ((eth, len) ∷ fs) c =
      let (q, c') = l2_eth update mem p eth len c in
      let rest = handle_frames mem p fs (handled l3_ipv6 q c') in (with_packet q rest.0, rest.1)

  -- The fuel is enough: `Read.Laws.read_loop_lem`.
  abbrev pub handle_read : ℕ → BpfConf → Option (Memory × BpfHeader) → Turn
  handle_read p c none = (false, [], c)
  handle_read p c (some (mem, h)) =
      let (ps, c') = handle_frames mem p (frames_of (suc (suc zero)) h 0) c in (true, ps, c')

  -- `rbuffer` is the address of the buffer at the start of the function.
  abbrev pub handle_socket : Reads → ℕ → List ℕ → ℕ → BpfConf → Option ℕ → Turn
  handle_socket read rbuffer set p c none = (true, [], c)
  handle_socket read rbuffer set p c (some fd) =
      if fd_isset fd set
      then handle_read p c (read fd rbuffer (bpf_at c.ints p).bufferlen)
      else (true, [], c)

  -- The body of the loop.
  unfoldable pub handle_int : Reads → ℕ → List ℕ → ℕ → BpfConf → Turn
  handle_int read rbuffer set p c =
      let i = bpf_at c.ints p in
      if i.mtu == 0 then (true, [], c) else handle_socket read rbuffer set p c i.socket

  -- A read that fails ends the loop.
  abbrev pub prepend : List Packet → Option Turn → Option Turn
  prepend ps none = none
  prepend ps (some (ok, qs, c)) = some (ok, ps ++ qs, c)

  abbrev pub after_turn : (BpfConf → Option Turn) → Turn → Option Turn
  after_turn k (true, ps, c) = prepend ps (k c)
  after_turn k (false, ps, c) = some (false, ps, c)

  -- The loop from the place `p` on; `none` means that the fuel ran out. It is enough:
  -- `select_round_lem`.
  unfoldable pub handle_ints : ℕ → Reads → ℕ → List ℕ → ℕ → BpfConf → Option Turn
  handle_ints zero read rbuffer set p c = none
  handle_ints (suc fuel) read rbuffer set p c =
      if ltb p (length c.ints)
      then after_turn (handle_ints fuel read rbuffer set (p + 1)) (handle_int read rbuffer set p c)
      else some (true, [], c)

  unfoldable pub select_round : ℕ → Reads → Selected → BpfConf → Option Turn
  select_round fuel read interrupted c = some (true, [], c)
  select_round fuel read failed c = some (false, [], c)
  select_round fuel read quiet c = some (true, [], c)
  select_round fuel read (ready set) c = handle_ints fuel read c.buffer.address set 0 c
