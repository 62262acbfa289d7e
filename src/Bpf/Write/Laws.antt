-- ===== src/Bpf/Write/Laws.antt =====
-- The IPv4 header of a tunnelled packet, in src/ecmh.c with ECMH_BPF.
use ecmh.Prelude.{ℕ, ◌+◌, ◌%◌, ◌^◌, ◌<◌, ◌≡◌, arith}
use ecmh.Memory.{memory_of, addr_bytes}
use ecmh.Checksum.{sum_words, sum_odd, inchksum}
use ecmh.Checksum.Bounds.{HasBytes, inchksum-mod, inchksum-lt, finish_lem, All-HasBytes}
use ecmh.Bpf.Write.{proto41_header, proto41_checksum}

proto41_header-HasBytes :
    (len src dst csum : ℕ) → HasBytes (memory_of (proto41_header len src dst csum))
unfolding proto41_header addr_bytes
proto41_header-HasBytes len src dst csum =
    All-HasBytes (proto41_header len src dst csum) (omega arith)

-- The words of the header are those of the header without a checksum, and the checksum.
proto41_header-sum :
    (len src dst csum : ℕ)
    → csum < 2 ^ 16
    → sum_odd (memory_of (proto41_header len src dst csum)) 0 20
      ≡ sum_odd (memory_of (proto41_header len src dst 0)) 0 20 + csum
unfolding proto41_header addr_bytes sum_odd sum_words
proto41_header-sum len src dst csum h = omega (arith, h)

-- The words of the IPv4 header of a tunnelled packet, its checksum with them, sum up to a multiple
-- of 65535, and the checksum is a number of 16 bits that is not 0: a receiver accepts the header.
pub proto41_header-verifies :
    (len src dst : ℕ)
    → let csum = proto41_checksum len src dst in
      (0 < csum)
      × (csum < 2 ^ 16)
      × (sum_odd (memory_of (proto41_header len src dst csum)) 0 20 % 65535 ≡ 0)
proto41_header-verifies len src dst =
    let bare = memory_of (proto41_header len src dst 0) in
    let low = inchksum-lt bare 0 20 in
    let words = inchksum-mod bare 0 20 (proto41_header-HasBytes len src dst 0) (omega arith) in
    let (positive, small, sum) = finish_lem (inchksum bare 0 20) (omega (arith, low)) in
    let stored = proto41_header-sum len src dst (proto41_checksum len src dst) small in
    (positive, small, omega (arith, words, sum, stored))
