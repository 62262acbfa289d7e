-- ===== src/Tests/Bpf.antt =====
-- The theorems on the sources for the BSDs, of src/ecmh.c and src/interfaces.c, at concrete inputs.
use ecmh.Prelude.{
  ◌+◌, ◌%◌, ◌^◌, ◌<◌, ◌≡◌, true, false, none, some, [], ◌∷◌, pos, get_or, refl, arith,
}
use ecmh.Memory.{memory_of}
use ecmh.Checksum.{sum_odd}
use ecmh.Bpf.{BpfInt, BpfConf, bpf_zero, bpf_at}
use ecmh.Bpf.Addresses.{InetAddr, take_inet}
use ecmh.Bpf.Addresses.Laws.{take_inet-remote}
use ecmh.Bpf.Locals.Laws.{all_memory}
use ecmh.Bpf.Open.{BpfSys, opened, busy, int_create_bpf}
use ecmh.Bpf.Open.Laws.{IsBuffered, Ensures, int_create_bpf-IsBuffered}
use ecmh.Bpf.Write.{proto41_header, proto41_checksum}
use ecmh.Bpf.Write.Laws.{proto41_header-verifies}
use ecmh.Bpf.Read.{BpfHeader, frames_of, l4_ipv4_proto41}
use ecmh.Bpf.Read.Laws.{read_loop_lem, Taken, l4_ipv4_proto41-Taken}

-- Interface 1 is an Ethernet with the address 192.0.2.1, interface 2 a tunnel to 198.51.100.7.
abbrev ethernet : BpfInt
ethernet = record bpf_zero { ifindex = 1; mtu = 1500; ipv4_local = 0xc0000201 ∷ 0 ∷ 0 ∷ 0 ∷ [] }

abbrev tunnel : BpfInt
tunnel = record bpf_zero { ifindex = 2; mtu = 1280; master = some 1; ipv4_remote = 0xc6336407 }

abbrev host : BpfConf
host = record {
  ints = bpf_zero ∷ ethernet ∷ tunnel ∷ [];
  locals = record { items = []; count = pos 0 };
  tunnelmode = true;
  promisc = false;
  buffer = record { address = 1; size = 32768 };
  bufferlen = 32768;
  hifd = 0;
  selectset = [];
}

-- The second device is free; its buffer takes 65536 bytes.
abbrev sys : BpfSys
sys = record {
  devices = busy ∷ opened 5 ∷ [];
  setif = true;
  promisc = true;
  nonblock = true;
  immediate = true;
  dlt = some 1;
  blen = some 65536;
  memory = some 2;
  socket = true;
  laddr = none;
}

host-IsBuffered : IsBuffered host
host-IsBuffered = record { sized = refl; fits = omega arith; seen = tt }

int_create_bpf-IsBuffered_example : Ensures IsBuffered (int_create_bpf sys 1 false host)
int_create_bpf-IsBuffered_example = int_create_bpf-IsBuffered sys 1 false host host-IsBuffered

proto41_header-verifies_example :
    let csum = proto41_checksum 100 0xc0000201 0xc6336407 in
    (0 < csum)
    × (csum < 2 ^ 16)
    × (sum_odd (memory_of (proto41_header 100 0xc0000201 0xc6336407 csum)) 0 20 % 65535 ≡ 0)
proto41_header-verifies_example = proto41_header-verifies 100 0xc0000201 0xc6336407

-- Headers of 18 bytes, packets of 100, at even places.
abbrev headers : BpfHeader
headers = record { caplen = λ k. 100; hdrlen = λ k. 18; wordalign = λ n. n + n % 2 }

read_loop_lem_example : frames_of 10 headers 0 ≡ (18, 100) ∷ []
read_loop_lem_example = read_loop_lem 8 headers 0 (λ n. omega arith)

l4_ipv4_proto41-Taken_example :
    Taken host 0xc6336407 34 66 (l4_ipv4_proto41 (λ c. c) 0xc6336407 34 66 host)
l4_ipv4_proto41-Taken_example = l4_ipv4_proto41-Taken (λ c. c) 0xc6336407 34 66 host

-- A second address, 192.0.2.9, with 0x5a5a5a5a behind it on the stack.
abbrev second : InetAddr
second = record { addr = 0xc0000209; zero1 = 0; zero2 = 0; stack = 0x5a5a5a5a }

take_inet-remote_example :
    let i = bpf_at (take_inet all_memory 1 second false false host).ints 1 in
    (get_or i.ipv4_local 1 0 ≡ 0xc0000209) × (i.ipv4_remote ≡ 0x5a5a5a5a)
take_inet-remote_example =
    take_inet-remote all_memory 1 1 second false host (omega arith) refl (refl, refl, tt) refl
      (omega arith) (omega arith)
