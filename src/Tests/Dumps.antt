-- ===== src/Tests/Dumps.antt =====
-- The theorems on the dump of statistics and on the names of types, of src/ecmh.c, at concrete
-- inputs.
use ecmh.Prelude.{[], ◌∷◌, ◌-◌, ◌%◌, ◌^◌, ◌≡◌, some, arith}
use ecmh.Interfaces.ProcNet.{read_addr, read_addr-hex}
use ecmh.Stats.{seconds_old, sigusr1}
use ecmh.Stats.Time.{seconds_old_lem}
use ecmh.Stats.Count.{all_subscriptions, ints_in_use, sigusr1-counts}
use ecmh.Tests.{registry, network}

sigusr1-counts_example :
    let c = (network (registry 900)).conf in
    let d = sigusr1 "1" "2" 10 1000 c in
    (d.subscriptions ≡ all_subscriptions c c.groups.items % 2 ^ 32)
    × (d.count ≡ ints_in_use c.ints % 2 ^ 32)
sigusr1-counts_example = sigusr1-counts "1" "2" 10 1000 (network (registry 900)).conf

-- The clock was set back by 5 seconds since the refresh; SIGUSR1 is signal 10.
seconds_old_lem_example : seconds_old 10 995 1000 ≡ 2 ^ 32 - 10
seconds_old_lem_example =
    seconds_old_lem 10 995 1000 (omega arith) (omega arith) (omega arith) (omega arith)
      (omega arith) (omega arith)

-- The start of a line of /proc/net/if_inet6, "fe80", and what follows.
read_addr-hex_example :
    read_addr 2 (102 ∷ (101 ∷ (56 ∷ (48 ∷ (32 ∷ []))))) ≡ some (0xfe ∷ (0x80 ∷ []))
read_addr-hex_example = read_addr-hex (0xfe ∷ (0x80 ∷ [])) (32 ∷ []) (omega arith)
