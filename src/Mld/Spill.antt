-- ===== src/Mld/Spill.antt =====
-- The loops of `mld2_send_report` of src/ecmh.c after a write past its packet.
use ecmh.Prelude.{
  ℕ, ◌+◌, ◌-◌, ◌%◌, ◌^◌, ◌≤◌, ◌≡◌, refl, ◌∙◌, inl, inr, true, false, ◌||◌, ◌==◌, ltb, Option, none,
  some, List, [], ◌∷◌, All, arith, Bool-cases, if◌then◌else◌,
}
use ecmh.Addr.{is_addr_unspecified}
use ecmh.Memory.{Memory, le16, swap16, addr_bytes}
use ecmh.Subscr.{SubscrNode, mode_is_exclude}
use ecmh.Groups.{GroupNode}
use ecmh.Conf.{World, Env, int_at}
use ecmh.Send.{sendpacket6, count_icmp_sent}
use ecmh.Interfaces.{int_destroy}
use ecmh.Mld.Report2.{
  Rep, store, flush, nsrcs, slot, ngrec, place, new_grec, source_at, add_source, room_for,
  make_room, append_subscr, report_subscr, report_subscrs,
}
use ecmh.Mld.Room.{Spilled}

overrun-sendpacket6 :
    (e : Env) (p : ℕ) (iph : Memory) (len : ℕ) (w : World)
    → (sendpacket6 e p iph len w).overrun ≡ w.overrun
unfolding sendpacket6 int_destroy
overrun-sendpacket6 e p iph len w = ground arith

over-store :
    (r : Rep) (off : ℕ) (bs : List ℕ)
    → r.world.overrun ≡ true
    → (store r off bs).world.overrun ≡ true
unfolding store
over-store r off bs h = simp h refl

pub overrun-flush :
    (e : Env) (p : ℕ) (r : Rep) (g len : ℕ)
    → r.world.overrun ≡ true
    → (flush e p r g len).world.overrun ≡ true
unfolding flush count_icmp_sent
overrun-flush e p r g len h =
    overrun-sendpacket6 e p _ _ _
    ∙ over-store _ _ _ (over-store _ _ _ (over-store _ _ _ (over-store _ _ _ (over-store _ _ _ h))))

pub clean-flush :
    (e : Env) (p : ℕ) (r : Rep) (g len : ℕ)
    → r.world.overrun ≡ false
    → 56 ≤ g
    → g + 4 ≤ r.size
    → (flush e p r g len).world.overrun ≡ false
unfolding flush count_icmp_sent store
clean-flush e p r g len c lo h = overrun-sendpacket6 e p _ _ _ ∙ simp c (ground arith)

-- What was written past the packet stays noted.
Spilled-store : (r : Rep) (off : ℕ) (bs : List ℕ) → Spilled r → Spilled (store r off bs)
unfolding store
Spilled-store r off bs f = record { over = over-store r off bs f.over; unplaced = f.unplaced }

Spilled-room_for :
    (e : Env) (p mtu source : ℕ) (r : Rep) (o : Option ℕ)
    → Spilled r
    → Spilled (room_for e p mtu source r o)
Spilled-room_for e p mtu source r none f = elim (Bool-cases (ltb mtu (56 + 40 + 20 + source))) [
  | inl small ↦ rw small (record { over = f.over; unplaced = f.unplaced })
  | inr wide ↦ rw wide (record { over = f.over; unplaced = f.unplaced })
]
Spilled-room_for e p mtu source r (some g) f =
    let len = slot r g - 40 in
    elim (Bool-cases (ltb mtu (len + 40 + source))) [
      | inl small ↦ rw small (record {
        over = over-store (flush e p r g len) 54 (le16 0) (overrun-flush e p r g len f.over);
        unplaced = refl;
      })
      | inr wide ↦ rw wide (record { over = f.over; unplaced = f.unplaced })
    ]

Spilled-place : (r : Rep) (o : Option ℕ) → Spilled r → Spilled (place r o).0
Spilled-place r none f = f
Spilled-place r (some g) f = Spilled-store r (g + 2) (le16 (swap16 (nsrcs r g))) f

Spilled-new_grec : (gn : GroupNode) (r : Rep) → Spilled r → Spilled (new_grec gn r)
unfolding new_grec
Spilled-new_grec gn r f =
    let counted = store r 54 (le16 ((ngrec r + 1) % 2 ^ 16)) in
    let (placed, g) = place counted r.grec in
    let a = store placed (g + 4) (addr_bytes 16 gn.mca) in
    let b = store a (g + 2) (le16 0) in
    let one = Spilled-store r 54 (le16 ((ngrec r + 1) % 2 ^ 16)) f in
    let two = Spilled-place counted r.grec one in
    let three = Spilled-store placed (g + 4) (addr_bytes 16 gn.mca) two in
    let four = Spilled-store a (g + 2) (le16 0) three in
    let five = Spilled-store b g (mode_is_exclude ∷ []) four in
    record { over = five.over; unplaced = five.unplaced }

Spilled-source_at :
    (s : SubscrNode) (r : Rep) (o : Option ℕ)
    → is_addr_unspecified s.ipv6 ≡ true
    → Spilled r
    → Spilled (source_at s r o)
Spilled-source_at s r none any f = f
Spilled-source_at s r (some g) any f = rw any (record { over = f.over; unplaced = f.unplaced })

pub append_subscr-Spilled :
    (e : Env) (p : ℕ) (gn : GroupNode) (s : SubscrNode) (r : Rep)
    → is_addr_unspecified s.ipv6 ≡ true
    → Spilled r
    → Spilled (append_subscr e p gn s r)
unfolding make_room add_source
append_subscr-Spilled e p gn s r any f =
    let source : ℕ = if r.any || is_addr_unspecified s.ipv6 then 0 else 16 in
    let made : Spilled (make_room e p s r) =
      Spilled-room_for e p (int_at r.world.conf.ints p).mtu source r r.grec f in
    appended (make_room e p s r) made
  where
    appended :
        (r : Rep)
        → Spilled r
        → Spilled
            (if r.done then r else add_source s (elim r.src [ none ↦ new_grec gn r | some _ ↦ r ]))
    appended r f = elim (Bool-cases r.done) [
      | inl e ↦ simp e f
      | inr e ↦
          simp (e, f.unplaced)
            (Spilled-source_at s (new_grec gn r) (new_grec gn r).grec any (Spilled-new_grec gn r f))
    ]

-- A subscription that the report passes over, or one to any source.
abbrev pub IsAnySource : SubscrNode → Type 0
IsAnySource s = (s.mode == mode_is_exclude || is_addr_unspecified s.ipv6) ≡ true

pub report_subscr-Spilled :
    (e : Env) (p : ℕ) (gn : GroupNode) (s : SubscrNode) (r : Rep)
    → IsAnySource s
    → Spilled r
    → Spilled (report_subscr e p gn s r)
unfolding report_subscr
report_subscr-Spilled e p gn s r any f = elim (Bool-cases (r.done || s.mode == mode_is_exclude)) [
  | inl passed ↦ rw passed f
  | inr taken ↦
      let addr : is_addr_unspecified s.ipv6 ≡ true = ground arith in
      simp (taken, f.unplaced) (append_subscr-Spilled e p gn s r addr f)
]

pub report_subscrs-Spilled :
    (e : Env) (p : ℕ) (gn : GroupNode) (ss : List SubscrNode) (r : Rep)
    → All IsAnySource ss
    → Spilled r
    → Spilled (report_subscrs e p gn ss r)
unfolding report_subscrs
report_subscrs-Spilled e p gn [] r any f = f
report_subscrs-Spilled e p gn (s ∷ ss) r any f =
    report_subscrs-Spilled e p gn ss (report_subscr e p gn s r) any.1
      (report_subscr-Spilled e p gn s r any.0 f)
