-- ===== src/Forward/Delivery.antt =====
-- On which interfaces `l4_ipv6_multicast` of src/ecmh.c delivers a packet.
use ecmh.Prelude.{
  ℕ, ◌+◌, ◌≡◌, ◌≢◌, refl, sym, ◌∙◌, inl, inr, Bool, true, false, not, ◌&&◌, ◌||◌, ◌==◌, Option,
  none, some, List, [], ◌∷◌, ◌++◌, length-set, All, IsDistinct, find_by, find_by-All,
  find_by-absent, arith, Bool-cases, Option-cases, eq_of_==, if◌then◌else◌,
}
use ecmh.Addr.{
  In6Addr, is_addr_multicast, is_addr_unspecified, is_addr_linklocal, is_addr_mc_nodelocal,
  is_addr_mc_linklocal, addr_at,
}
use ecmh.Memory.{Memory}
use ecmh.Subscr.{SubscrNode}
use ecmh.GrpInt.{GrpIntNode, ifindex_of, grpint_find}
use ecmh.Groups.{GroupNode, mca_of, group_find}
use ecmh.Groups.WellFormed.{IsSoundGroup, IsRegistry}
use ecmh.Groups.Lookup.{grpint_in, grpint_at}
use ecmh.Conf.{IntNode, Frame, World, Env, Outcome, sent, no_device, failed, int_at, put_int}
use ecmh.Interfaces.{int_find, int_destroy}
use ecmh.Send.{sendpacket6, frame_of, count_sent}
use ecmh.Mld.Quiet.{groups_of}
use ecmh.Forward.{
  is_wanted_by, is_not_routed, forward_subscrs, forward_grpints, forward_group, l4_ipv6_multicast,
}
use ecmh.Forward.Laws.{
  IsIndexed, Away, Away-IsIndexed, int_at-set, int_find-lem, forward_subscrs-Away,
}

-- The number of frames for an interface.
abbrev pub count_on : ℕ → List Frame → ℕ
count_on i [] = 0
count_on i (f ∷ fs) = (if f.ifindex == i then 1 else 0) + count_on i fs

-- By source and destination: no multicast or unspecified source, no unspecified destination, and
-- none of them for the link or the node only.
abbrev pub is_routed : In6Addr → In6Addr → Bool
is_routed src dst = not (
    is_addr_multicast src
    || is_addr_unspecified src
    || is_addr_unspecified dst
    || is_addr_linklocal src
    || is_addr_mc_nodelocal dst
    || is_addr_mc_linklocal dst)

-- A subscription that includes the source, or all sources: the mode is 1, and `::` is 0.
abbrev pub lets_through : In6Addr → SubscrNode → Bool
lets_through src s = (s.ipv6 == 0 || s.ipv6 == src) && s.mode == 1

-- Does a subscription let the source through?
abbrev pub has_wanted : In6Addr → List SubscrNode → Bool
has_wanted src [] = false
has_wanted src (s ∷ ss) = lets_through src s || has_wanted src ss

abbrev pub is_found : Option ℕ → Bool
is_found none = false
is_found (some p) = true

count_on-snoc :
    (i : ℕ) (fs : List Frame) (f : Frame)
    → count_on i (fs ++ f ∷ []) ≡ count_on i fs + (if f.ifindex == i then 1 else 0)
count_on-snoc i [] f = omega arith
count_on-snoc i (x ∷ fs) f = omega (arith, count_on-snoc i fs f)

wire-sendpacket6 :
    (e : Env) (p : ℕ) (iph : Memory) (len : ℕ) (w : World)
    → (sendpacket6 e p iph len w).wire ≡ w.wire ++ frame_of (int_at w.conf.ints p) iph len ∷ []
unfolding sendpacket6 int_destroy
wire-sendpacket6 e p iph len w = ground arith

int_find-put_int_ne :
    (w : World) (p i : ℕ) (n : IntNode)
    → p ≢ i
    → int_find (put_int w p n).conf i ≡ int_find w.conf i
unfolding int_find
int_find-put_int_ne w p i n h =
    ground (arith, int_at-set w.conf.ints p i n, length-set w.conf.ints p n)

int_find-sendpacket6 :
    (e : Env) (p i : ℕ) (iph : Memory) (len : ℕ) (w : World)
    → p ≢ i
    → int_find (sendpacket6 e p iph len w).conf i ≡ int_find w.conf i
unfolding sendpacket6 int_destroy int_find
int_find-sendpacket6 e p i iph len w h = by_outcome (e.sendto w.wire frame)
  where
    frame : Frame
    frame = frame_of (int_at w.conf.ints p) iph len

    by_outcome :
        (o : Outcome)
        → int_find
            (elim o as (λ _. World) [
              | sent ↦ count_sent p len (record w { wire = w.wire ++ frame ∷ [] })
              | no_device ↦ int_destroy p (record w { wire = w.wire ++ frame ∷ [] })
              | failed ↦ record w { wire = w.wire ++ frame ∷ [] }
            ]).conf
            i
          ≡ int_find w.conf i
    by_outcome sent = int_find-put_int_ne w p i _ h
    by_outcome no_device = int_find-put_int_ne w p i _ h
    by_outcome failed = refl

-- Nothing changes for the interfaces other than the one forwarded to.
forward_subscrs-ne :
    (e : Env) (ifindex i : ℕ) (src : In6Addr) (iph : Memory) (len : ℕ) (ss : List SubscrNode)
    (w : World)
    → ifindex ≢ i
    → int_find (forward_subscrs e ifindex src iph len ss w).conf i ≡ int_find w.conf i
unfolding forward_subscrs
forward_subscrs-ne e ifindex i src iph len [] w h = refl
forward_subscrs-ne e ifindex i src iph len (s ∷ ss) w h =
    let rest = forward_subscrs-ne e ifindex i src iph len ss w h in
    elim (Bool-cases (is_wanted_by src s)) [
      | inr other ↦ rw other rest
      | inl wanted ↦ elim (Option-cases (int_find w.conf ifindex)) [
        | inl off ↦ rw (wanted, off) rest
        | inr (p, on) ↦
            rw (wanted, on)
              (int_find-sendpacket6 e p i iph len w
                (λ q. h (sym (int_find-lem w.conf ifindex p on).0 ∙ q)))
      ]
    ]

forward_subscrs-count :
    (e : Env) (ifindex i : ℕ) (src : In6Addr) (iph : Memory) (len : ℕ) (ss : List SubscrNode)
    (w : World)
    → IsIndexed w
    → count_on i (forward_subscrs e ifindex src iph len ss w).wire
      ≡ count_on i w.wire
        + (if ifindex == i && has_wanted src ss && is_found (int_find w.conf ifindex) then 1 else 0)
unfolding forward_subscrs
forward_subscrs-count e ifindex i src iph len [] w v = ground arith
forward_subscrs-count e ifindex i src iph len (s ∷ ss) w v =
    let rest = forward_subscrs-count e ifindex i src iph len ss w v in
    elim (Bool-cases (is_wanted_by src s)) [
      | inr other ↦ rw other rest
      | inl wanted ↦ elim (Option-cases (int_find w.conf ifindex)) [
        | inl off ↦ rw (wanted, off) (rest ∙ rw off (ground arith))
        | inr (p, on) ↦
            let (place, used) = int_find-lem w.conf ifindex p on in
            let frame = frame_of (int_at w.conf.ints p) iph len in
            let named : frame.ifindex ≡ ifindex = rw place (v ifindex used) in
            rw (wanted, on, wire-sendpacket6 e p iph len w)
              (count_on-snoc i w.wire frame ∙ rw named (ground arith))
      ]
    ]

-- How often a packet is sent on interface `i`: once, if the interface is not the one that the
-- packet came in on, is in use, and has a subscription that lets the source through.
abbrev pub deliveries : ℕ → In6Addr → Bool → ℕ → Option GrpIntNode → ℕ
deliveries incoming src on i none = 0
deliveries incoming src on i (some g) =
    if not (incoming == i) && has_wanted src g.subscriptions.items && on then 1 else 0

module _ (e : Env) (p incoming i : ℕ) (src : In6Addr) (iph : Memory) (len : ℕ) where
  -- The interfaces from here on are delivered to as they should be.
  abbrev Delivers : List GrpIntNode → World → Type 0
  Delivers gs w =
      count_on i (forward_grpints e p src iph len gs w).wire
      ≡ count_on i w.wire
        + deliveries incoming src (is_found (int_find w.conf i)) i (grpint_find gs i)

  forward_grpint-count :
      (g : GrpIntNode) (gs : List GrpIntNode) (w : World) (own : Bool)
      → (incoming == g.ifindex) ≡ own
      → IsIndexed w
      → (int_at w.conf.ints p).ifindex ≡ incoming
      → All (λ y. g.ifindex ≢ ifindex_of y) gs
      → ((w' : World) → IsIndexed w' → (int_at w'.conf.ints p).ifindex ≡ incoming → Delivers gs w')
      → count_on i
          (forward_grpints e p src iph len gs (
            if own
            then w
            else forward_subscrs e g.ifindex src iph len g.subscriptions.items w)).wire
        ≡ count_on i w.wire
          + deliveries incoming src (is_found (int_find w.conf i)) i (grpint_find (g ∷ gs) i)
  unfolding find_by
  forward_grpint-count g gs w true own v h d rest = elim (Bool-cases (g.ifindex == i)) [
    | inr other ↦ rest w v h ∙ rw other refl
    | inl same ↦
        let gone = find_by-absent ifindex_of g.ifindex gs i (eq_of_== _ _ same) d in
        rest w v h ∙ rw (same, gone) (ground arith)
  ]
  forward_grpint-count g gs w false foreign v h d rest =
      let next = forward_subscrs e g.ifindex src iph len g.subscriptions.items w in
      let counted = forward_subscrs-count e g.ifindex i src iph len g.subscriptions.items w v in
      let away : Away incoming 1 w next =
        forward_subscrs-Away e g.ifindex incoming src iph len g.subscriptions.items w v
          (ground arith) in
      let after = rest next (Away-IsIndexed incoming 1 w next away v) (away.same p ∙ h) in
      elim (Bool-cases (g.ifindex == i)) [
        | inr other ↦
            let kept =
              forward_subscrs-ne e g.ifindex i src iph len g.subscriptions.items w (ground arith) in
            after ∙ rw (counted, kept, other) (omega arith)
        | inl same ↦
            let gone = find_by-absent ifindex_of g.ifindex gs i (eq_of_== _ _ same) d in
            after
            ∙ rw (gone, counted, same) (rw⁻¹ (eq_of_== g.ifindex i same) (rw foreign (omega arith)))
      ]

  forward_grpints-count :
      (gs : List GrpIntNode) (w : World)
      → IsIndexed w
      → (int_at w.conf.ints p).ifindex ≡ incoming
      → IsDistinct ifindex_of gs
      → Delivers gs w
  unfolding forward_grpints find_by
  forward_grpints-count [] w v h d = omega arith
  forward_grpints-count (g ∷ gs) w v h d =
      forward_grpint-count g gs w ((int_at w.conf.ints p).ifindex == g.ifindex) (rw h refl) v h d.0
        (λ w' v' h'. forward_grpints-count gs w' v' h' d.1)

-- Every interface is sent a packet that came in on the interface at `p` exactly as often as it
-- should be, which is once or not at all, if the registry is well formed and the interfaces in use
-- stand at their indices: once, if the packet is routed, and the interface is not the one it came
-- in on, is in use, and has a subscription to the group that lets the source through.
pub l4_ipv6_multicast-deliveries :
    (e : Env) (p i : ℕ) (iph : Memory) (len : ℕ) (w : World)
    → IsIndexed w
    → IsRegistry (groups_of w)
    → count_on i (l4_ipv6_multicast e p iph len w).wire
      ≡ count_on i w.wire
        + (if is_routed (addr_at iph 8) (addr_at iph 24)
            then deliveries
                (int_at w.conf.ints p).ifindex
                (addr_at iph 8)
                (is_found (int_find w.conf i))
                i
                (grpint_at (groups_of w) (addr_at iph 24) i)
            else 0)
unfolding l4_ipv6_multicast int_find
l4_ipv6_multicast-deliveries e p i iph len w v r =
    elim (Bool-cases (is_not_routed (addr_at iph 8) (addr_at iph 24))) [
      | inl stop ↦ rw stop (omega arith)
      | inr go ↦ rw go (to_group (group_find w.conf.groups.items (addr_at iph 24)) refl)
    ]
  where
    to_group :
        (o : Option GroupNode)
        → group_find w.conf.groups.items (addr_at iph 24) ≡ o
        → count_on i (forward_group e p (addr_at iph 8) (addr_at iph 24) iph len w o).wire
          ≡ count_on i w.wire
            + deliveries
                (int_at w.conf.ints p).ifindex
                (addr_at iph 8)
                (is_found (int_find w.conf i))
                i
                (grpint_in i o)
    to_group none f = omega arith
    to_group (some g) f =
        let s = find_by-All mca_of IsSoundGroup w.conf.groups.items (addr_at iph 24) g r.sound f in
        forward_grpints-count e p (int_at w.conf.ints p).ifindex i (addr_at iph 8) iph len
          g.interfaces.items _ v refl s.distinct
