-- ===== src/Bpf/Select/Laws.antt =====
-- The loop over the interfaces of src/ecmh.c with ECMH_BPF ends.
use ecmh.Prelude.{
  ℕ, zero, suc, ◌+◌, ◌-◌, ◌≤◌, ◌<◌, ◌*◌, ◌/◌, ◌%◌, ◌^◌, ◌≡◌, ◌≢◌, refl, inl, inr, Bool, true, false,
  not, ◌||◌, ◌==◌, ltb, Option, none, some, List, [], ◌∷◌, length, Bool-cases, Option-cases, arith,
  if◌then◌else◌,
}
use ecmh.Memory.{Memory, ntohs_at}
use ecmh.Bpf.{BpfConf, bpf_at}
use ecmh.Bpf.Locals.{local_find, int_find_ipv4}
use ecmh.Bpf.Read.{
  BpfHeader, Packet, frames_of, l2_eth, l3_ipv4, l4_ipv4_proto41, find_tunnel, to_tunnel, ipv4_at,
  ipv4_6to4_relay,
}
use ecmh.Bpf.Select.{
  Reads, Turn, handled, handle_frames, handle_read, handle_socket, handle_int, prepend, after_turn,
  handle_ints, select_round, Selected, interrupted, failed, quiet, ready,
}

module _ (update : BpfConf → BpfConf) (l3_ipv6 : Packet → BpfConf → BpfConf) (P : BpfConf → Type 0)
    (updated : (c : BpfConf) → P c → P (update c))
    (handles : (q : Packet) (c : BpfConf) → P c → P (l3_ipv6 q c)) where
  record Keeps (r : Option Packet × BpfConf) : Type 0 where
    kept : P r.1

  if-Keeps :
      (b : Bool) (x y : Option Packet × BpfConf) → Keeps x → Keeps y → Keeps (if b then x else y)
  if-Keeps true x y h k = h
  if-Keeps false x y h k = k

  to_tunnel-Keeps : (off len : ℕ) (c : BpfConf) (o : Option ℕ) → P c → Keeps (to_tunnel off len c o)
  to_tunnel-Keeps off len c none h = record { kept = h }
  to_tunnel-Keeps off len c (some t) h = record { kept = h }

  find_tunnel-Keeps :
      (src off len : ℕ) (c : BpfConf) (o : Option ℕ)
      → P c
      → Keeps (find_tunnel update src off len c o)
  find_tunnel-Keeps src off len c (some t) h = record { kept = h }
  find_tunnel-Keeps src off len c none h =
      to_tunnel-Keeps off len (update c) (int_find_ipv4 false src (update c)) (updated c h)

  proto41-Keeps :
      (src off len : ℕ) (c : BpfConf) → P c → Keeps (l4_ipv4_proto41 update src off len c)
  unfolding l4_ipv4_proto41
  proto41-Keeps src off len c h = elim (Bool-cases c.tunnelmode) [
    | inl e ↦ elim (Option-cases (local_find src c)) [
      | inl absent ↦
          simp (e, absent) (find_tunnel-Keeps src off len c (int_find_ipv4 false src c) h)
      | inr (l, there) ↦ simp (e, there) (record { kept = h })
    ]
    | inr e ↦ simp e (record { kept = h })
  ]

  l3_ipv4-Keeps :
      (mem : Memory) (ip len : ℕ) (c : BpfConf) → P c → Keeps (l3_ipv4 update mem ip len c)
  unfolding l3_ipv4
  l3_ipv4-Keeps mem ip len c h =
      let same : Keeps (none, c) = record { kept = h } in
      let src = ipv4_at mem (ip + 12) in
      let tunnelled =
        proto41-Keeps src (ip + 4 * (mem ip % 16)) ((len + 2 ^ 16 - 4 * (mem ip % 16)) % 2 ^ 16) c
          h in
      if-Keeps (not (mem ip / 16 == 4) || ltb (mem ip % 16) 5) _ _ same (
        if-Keeps (src == ipv4_6to4_relay || ipv4_at mem (ip + 16) == ipv4_6to4_relay) _ _ same
          (if-Keeps (mem (ip + 9) == 41) _ _ tunnelled same))

  l2_eth-Keeps :
      (mem : Memory) (p eth len : ℕ) (c : BpfConf) → P c → Keeps (l2_eth update mem p eth len c)
  unfolding l2_eth
  l2_eth-Keeps mem p eth len c h =
      let ether_type = ntohs_at mem (eth + 12) in
      let left = (len + 2 ^ 32 - 14) % 2 ^ 32 % 2 ^ 16 in
      let ipv6 : Keeps (some (record { intn = p; off = eth + 14; len = left }), c) = record {
        kept = h;
      } in
      let other : Keeps (none, c) = record { kept = h } in
      if-Keeps (ether_type == 0x0800) _ _ (l3_ipv4-Keeps mem (eth + 14) left c h)
        (if-Keeps (ether_type == 0x86dd) _ _ ipv6 other)

  handled-keeps : (o : Option Packet) (c : BpfConf) → P c → P (handled l3_ipv6 o c)
  handled-keeps none c h = h
  handled-keeps (some q) c h = handles q c h

  handle_frames-keeps :
      (mem : Memory) (p : ℕ) (fs : List (ℕ × ℕ)) (c : BpfConf)
      → P c
      → P (handle_frames update l3_ipv6 mem p fs c).1
  unfolding handle_frames
  handle_frames-keeps mem p [] c h = h
  handle_frames-keeps mem p ((eth, len) ∷ fs) c h =
      let (q, c') = l2_eth update mem p eth len c in
      handle_frames-keeps mem p fs (handled l3_ipv6 q c')
        (handled-keeps q c' (l2_eth-Keeps mem p eth len c h).kept)

  -- A turn that goes on, and keeps the predicate.
  record Goes (r : Turn) : Type 0 where
    goes : r.0 ≡ true
    kept : P r.2

  Goes-if : (b : Bool) (x y : Turn) → Goes x → Goes y → Goes (if b then x else y)
  Goes-if true x y h k = h
  Goes-if false x y h k = k

  handle_read-Goes :
      (p : ℕ) (c : BpfConf) (o : Option (Memory × BpfHeader))
      → P c
      → o ≢ none
      → Goes (handle_read update l3_ipv6 p c o)
  handle_read-Goes p c none h n = absurd (n refl)
  handle_read-Goes p c (some (mem, hd)) h n = record {
    goes = refl;
    kept = handle_frames-keeps mem p (frames_of 2 hd 0) c h;
  }

  handle_int-Goes :
      (read : Reads) (rbuffer : ℕ) (set : List ℕ) (p : ℕ) (c : BpfConf)
      → P c
      → ((fd to len : ℕ) → read fd to len ≢ none)
      → Goes (handle_int update l3_ipv6 read rbuffer set p c)
  unfolding handle_int
  handle_int-Goes read rbuffer set p c h n =
      Goes-if _ _ _ (record { goes = refl; kept = h }) (on_socket (bpf_at c.ints p).socket)
    where
      on_socket : (o : Option ℕ) → Goes (handle_socket update l3_ipv6 read rbuffer set p c o)
      on_socket none = record { goes = refl; kept = h }
      on_socket (some fd) =
          let len = (bpf_at c.ints p).bufferlen in
          Goes-if _ _ _ (handle_read-Goes p c (read fd rbuffer len) h (n fd rbuffer len))
            (record { goes = refl; kept = h })

  -- The loop goes on to the end, and keeps the predicate.
  abbrev Ends : Option Turn → Type 0
  Ends none = ⊥
  Ends (some r) = Goes r

  after_turn-Ends :
      (k : BpfConf → Option Turn) (r : Turn)
      → Goes r
      → ((c : BpfConf) → P c → Ends (k c))
      → Ends (after_turn update l3_ipv6 k r)
  after_turn-Ends k (false, ps, c) h e = cc h.goes
  after_turn-Ends k (true, ps, c) h e = prepended ps (k c) (e c h.kept)
    where
      prepended : (ps : List Packet) (o : Option Turn) → Ends o → Ends (prepend update l3_ipv6 ps o)
      prepended ps none h = h
      prepended ps (some (ok, qs, c)) h = record { goes = h.goes; kept = h.kept }

-- With at most `n` interfaces, also after each update of the interfaces, and reads that succeed,
-- the loop from the place `p` on ends within `n + 1 - p` rounds.
handle_ints-Ends :
    (update : BpfConf → BpfConf) (l3_ipv6 : Packet → BpfConf → BpfConf) (n : ℕ)
    (updated : (c : BpfConf) → length c.ints ≤ n → length (update c).ints ≤ n)
    (handles : (q : Packet) (c : BpfConf) → length c.ints ≤ n → length (l3_ipv6 q c).ints ≤ n)
    (fuel : ℕ) (read : Reads) (rbuffer : ℕ) (set : List ℕ) (p : ℕ) (c : BpfConf)
    → length c.ints ≤ n
    → p ≤ n
    → n < fuel + p
    → ((fd to len : ℕ) → read fd to len ≢ none)
    → Ends update l3_ipv6
        (λ c. length c.ints ≤ n)
        updated
        handles
        (handle_ints update l3_ipv6 fuel read rbuffer set p c)
unfolding handle_ints
handle_ints-Ends update l3_ipv6 n updated handles zero read rbuffer set p c h k b r =
    absurd (omega arith)
handle_ints-Ends update l3_ipv6 n updated handles (suc fuel) read rbuffer set p c h k b r =
    let Few : BpfConf → Type 0 = λ (c : BpfConf). length c.ints ≤ n in
    elim (Bool-cases (ltb p (length c.ints))) [
      | inl e ↦ rw e (
          after_turn-Ends update l3_ipv6 Few updated handles
            (handle_ints update l3_ipv6 fuel read rbuffer set (p + 1))
            (handle_int update l3_ipv6 read rbuffer set p c)
            (handle_int-Goes update l3_ipv6 Few updated handles read rbuffer set p c h r)
            (λ c' h'.
              handle_ints-Ends update l3_ipv6 n updated handles fuel read rbuffer set (p + 1) c' h'
                (ground arith) (omega arith) r))
      | inr e ↦ rw e (record { goes = refl; kept = h })
    ]

-- A round that ends, with `true` for the main loop, and with at most `n` interfaces.
abbrev pub Continues : ℕ → Option Turn → Type 0
Continues n none = ⊥
Continues n (some r) = (r.0 ≡ true) × (length r.2.ints ≤ n)

-- If there are at most `n` interfaces, also after any update of them and any packet, and every read
-- of a device succeeds, then after a `select` that did not fail, the loop over the interfaces ends
-- within `n + 1` rounds, the program goes on, and there are at most `n` interfaces.
pub select_round_lem :
    (update : BpfConf → BpfConf) (l3_ipv6 : Packet → BpfConf → BpfConf) (n : ℕ) (read : Reads)
    (s : Selected) (c : BpfConf)
    → ((c : BpfConf) → length c.ints ≤ n → length (update c).ints ≤ n)
    → ((q : Packet) (c : BpfConf) → length c.ints ≤ n → length (l3_ipv6 q c).ints ≤ n)
    → length c.ints ≤ n
    → ((fd to len : ℕ) → read fd to len ≢ none)
    → s ≢ failed
    → Continues n (select_round update l3_ipv6 (suc n) read s c)
unfolding select_round
select_round_lem update l3_ipv6 n read interrupted c u l h r s = (refl, h)
select_round_lem update l3_ipv6 n read failed c u l h r s = absurd (s refl)
select_round_lem update l3_ipv6 n read quiet c u l h r s = (refl, h)
select_round_lem update l3_ipv6 n read (ready set) c u l h r s =
    ended (handle_ints update l3_ipv6 (suc n) read c.buffer.address set 0 c) (
      handle_ints-Ends update l3_ipv6 n u l (suc n) read c.buffer.address set 0 c h (omega arith)
        (omega arith) r)
  where
    ended : (o : Option Turn) → Ends update l3_ipv6 (λ c. length c.ints ≤ n) u l o → Continues n o
    ended none e = e
    ended (some t) e = (e.goes, e.kept)
