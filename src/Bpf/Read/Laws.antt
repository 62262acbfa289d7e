-- ===== src/Bpf/Read/Laws.antt =====
-- Which packets of a buffer, and of a tunnel, are handled, in src/ecmh.c with ECMH_BPF.
use ecmh.Prelude.{
  ℕ, zero, suc, ◌+◌, ◌<◌, ◌≤◌, ◌≡◌, ◌≢◌, ◌∙◌, refl, ap, inl, inr, true, false, ◌==◌, Option, none,
  some, [], ◌∷◌, arith, Bool-cases, Option-cases, eq_of_==, if◌then◌else◌,
}
use ecmh.Bpf.{BpfConf, bpf_at}
use ecmh.Bpf.Locals.{int_find_ipv4, local_find}
use ecmh.Bpf.Locals.Laws.{is_found, int_find_ipv4_lem}
use ecmh.Bpf.Read.{BpfHeader, read_loop, frames_of, Packet, to_tunnel, find_tunnel, l4_ipv4_proto41}

read_loop-end : (fuel : ℕ) (h : BpfHeader) (ep bp : ℕ) → ep ≤ bp → read_loop fuel h ep bp ≡ []
unfolding read_loop
read_loop-end zero h ep bp e = refl
read_loop-end (suc fuel) h ep bp e = ground arith

read_loop-step :
    (fuel : ℕ) (h : BpfHeader) (ep bp : ℕ)
    → bp < ep
    → read_loop (suc fuel) h ep bp
      ≡ (bp + h.hdrlen bp, h.caplen bp)
        ∷ read_loop fuel h ep (bp + h.wordalign (h.caplen bp + h.hdrlen bp))
unfolding read_loop
read_loop-step fuel h ep bp l = ground arith

-- Whatever the buffer holds: if aligning never shortens, the loop ends within two rounds, and it
-- handles the first packet of the buffer, unless that is empty, and no other.
pub read_loop_lem :
    (fuel : ℕ) (h : BpfHeader) (rbuffer : ℕ)
    → ((n : ℕ) → n ≤ h.wordalign n)
    → frames_of (suc (suc fuel)) h rbuffer
      ≡ (if h.caplen rbuffer == 0 then [] else (rbuffer + h.hdrlen rbuffer, h.caplen rbuffer) ∷ [])
read_loop_lem fuel h rbuffer a =
    let n = h.caplen rbuffer + h.hdrlen rbuffer in
    let ep = rbuffer + h.caplen rbuffer in
    elim (Bool-cases (h.caplen rbuffer == 0)) [
      | inl empty ↦ rw empty (read_loop-end (suc (suc fuel)) h ep rbuffer (ground arith))
      | inr full ↦
          let over = read_loop-end (suc fuel) h ep (rbuffer + h.wordalign n) (omega (arith, a n)) in
          rw full (
            read_loop-step (suc fuel) h ep rbuffer (ground arith)
            ∙ ap (λ r. (rbuffer + h.hdrlen rbuffer, h.caplen rbuffer) ∷ r) over)
    ]

-- A packet that is handed on, if there is one: its interface is in use and has the source as its
-- remote address.
abbrev pub Handed : ℕ → ℕ → ℕ → Option Packet × BpfConf → Type 0
Handed src off len (none, c) = Unit
Handed src off len (some q, c) =
    ((bpf_at c.ints q.intn).mtu ≢ 0)
    × ((bpf_at c.ints q.intn).ipv4_remote ≡ src)
    × (q.off ≡ off)
    × (q.len ≡ len)

to_tunnel-Handed :
    (src off len : ℕ) (c : BpfConf) (o : Option ℕ)
    → int_find_ipv4 false src c ≡ o
    → Handed src off len (to_tunnel off len c o)
to_tunnel-Handed src off len c none f = tt
to_tunnel-Handed src off len c (some t) f =
    let (on, remote) = int_find_ipv4_lem false src t c f in
    (on, eq_of_== (bpf_at c.ints t).ipv4_remote src remote, refl, refl)

find_tunnel-Handed :
    (update : BpfConf → BpfConf) (src off len : ℕ) (c : BpfConf) (o : Option ℕ)
    → int_find_ipv4 false src c ≡ o
    → Handed src off len (find_tunnel update src off len c o)
find_tunnel-Handed update src off len c none f =
    to_tunnel-Handed src off len (update c) (int_find_ipv4 false src (update c)) refl
find_tunnel-Handed update src off len c (some t) f = to_tunnel-Handed src off len c (some t) f

-- The same for a host whose configuration was `before`: it is in tunnel mode, and the source is
-- none of its own addresses.
abbrev pub Taken : BpfConf → ℕ → ℕ → ℕ → Option Packet × BpfConf → Type 0
Taken before src off len (none, c) = Unit
Taken before src off len (some q, c) =
    (before.tunnelmode ≡ true)
    × (is_found (local_find src before) ≡ false)
    × Handed src off len (some q, c)

Taken-Handed :
    (before : BpfConf) (src off len : ℕ) (r : Option Packet × BpfConf)
    → before.tunnelmode ≡ true
    → is_found (local_find src before) ≡ false
    → Handed src off len r
    → Taken before src off len r
Taken-Handed before src off len (none, c) on foreign h = tt
Taken-Handed before src off len (some q, c) on foreign h = (on, foreign, h)

-- Whatever the update of the interfaces does: if `l4_ipv4_proto41` takes a packet out of a tunnel,
-- tunnel mode is on, `local_find` does not find the source of the IPv4 header among the addresses
-- that are listed as local before the update, and the packet goes, whole, to an interface that is
-- in use and has that source as its remote address.
pub l4_ipv4_proto41-Taken :
    (update : BpfConf → BpfConf) (src off len : ℕ) (c : BpfConf)
    → Taken c src off len (l4_ipv4_proto41 update src off len c)
unfolding l4_ipv4_proto41
l4_ipv4_proto41-Taken update src off len c = elim (Bool-cases c.tunnelmode) [
  | inr off' ↦ simp off' tt
  | inl on ↦ elim (Option-cases (local_find src c)) [
    | inr (l, own) ↦ simp (on, own) tt
    | inl foreign ↦
        let taken =
          Taken-Handed c src off len (find_tunnel update src off len c (int_find_ipv4 false src c))
            on (ap is_found foreign)
            (find_tunnel-Handed update src off len c (int_find_ipv4 false src c) refl) in
        simp (on, foreign) taken
  ]
]
