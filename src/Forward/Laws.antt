-- ===== src/Forward/Laws.antt =====
-- Where `l4_ipv6_multicast` of src/ecmh.c sends a packet.
use ecmh.Prelude.{
  ℕ, zero, suc, ◌+◌, ◌≤◌, ◌≡◌, ◌≢◌, refl, sym, ap, ◌∙◌, inl, inr, ◌&&◌, ◌==◌, ltb, Option, none,
  some, List, [], ◌∷◌, ◌++◌, length, length-append, set, All, All-append, arith, Bool-cases,
  Option-cases, if◌then◌else◌,
}
use ecmh.Addr.{In6Addr, addr_at}
use ecmh.Memory.{Memory}
use ecmh.Subscr.{SubscrNode}
use ecmh.GrpInt.{GrpIntNode}
use ecmh.Groups.{GroupNode, group_find}
use ecmh.Conf.{IntNode, Conf, Frame, World, Env, Outcome, sent, no_device, failed, int_at, put_int}
use ecmh.Interfaces.{int_find, int_destroy}
use ecmh.Send.{sendpacket6, frame_of, count_sent}
use ecmh.Forward.{
  is_wanted_by, is_not_routed, forward_subscrs, forward_grpints, forward_group, l4_ipv6_multicast,
}

-- An interface that is in use stands at its own index.
abbrev pub IsIndexed : World → Type 0
IsIndexed w = (k : ℕ) → (int_at w.conf.ints k).mtu ≢ 0 → (int_at w.conf.ints k).ifindex ≡ k

-- From `w` to `w'`: at most `n` frames went out, none of them on the interface `i`, and the
-- interfaces have their indices still.
pub record Away (i n : ℕ) (w w' : World) : Type 0 where
  pub frames : List Frame
  pub wire : w'.wire ≡ w.wire ++ frames
  pub few : length frames ≤ n
  pub away : All (λ (f : Frame). f.ifindex ≢ i) frames
  pub same : (k : ℕ) → (int_at w'.conf.ints k).ifindex ≡ (int_at w.conf.ints k).ifindex
  pub live : (k : ℕ) → (int_at w'.conf.ints k).mtu ≢ 0 → (int_at w.conf.ints k).mtu ≢ 0

append_nil {ℓ} : {A : Type ℓ} (xs : List A) → xs ≡ xs ++ []
append_nil [] = refl
append_nil (x ∷ xs) = ap (λ ys. x ∷ ys) (append_nil xs)

append_assoc {ℓ} : {A : Type ℓ} (xs ys zs : List A) → (xs ++ ys) ++ zs ≡ xs ++ (ys ++ zs)
append_assoc [] ys zs = refl
append_assoc (x ∷ xs) ys zs = ap (λ l. x ∷ l) (append_assoc xs ys zs)

Away-refl : (i n : ℕ) (w : World) → Away i n w w
Away-refl i n w = record {
  frames = [];
  wire = append_nil w.wire;
  few = omega arith;
  away = tt;
  same = λ k. refl;
  live = λ k h. h;
}

Away-trans :
    (i m n k : ℕ) (w w' w'' : World) → Away i m w w' → Away i n w' w'' → m + n ≤ k → Away i k w w''
Away-trans i m n k w w' w'' a b h = record {
  frames = a.frames ++ b.frames;
  wire = b.wire ∙ ap (λ l. l ++ b.frames) a.wire ∙ append_assoc w.wire a.frames b.frames;
  few = omega (arith, length-append a.frames b.frames, a.few, b.few, h);
  away = All-append _ a.frames b.frames a.away b.away;
  same = λ p. b.same p ∙ a.same p;
  live = λ p m. a.live p (b.live p m);
}

pub Away-IsIndexed : (i n : ℕ) (w w' : World) → Away i n w w' → IsIndexed w → IsIndexed w'
Away-IsIndexed i n w w' a v k h = a.same k ∙ v k (a.live k h)

pub int_at-set :
    (ints : List IntNode) (p k : ℕ) (i : IntNode)
    → int_at (set ints p i) k ≡ (if p == k && ltb k (length ints) then i else int_at ints k)
int_at-set [] p k i = ground arith
int_at-set (x ∷ xs) zero zero i = ground arith
int_at-set (x ∷ xs) zero (suc k) i = ground arith
int_at-set (x ∷ xs) (suc p) zero i = ground arith
int_at-set (x ∷ xs) (suc p) (suc k) i = int_at-set xs p k i ∙ ground arith

-- Writing an interface back with its index, and with its MTU or 0.
pub put_int-same :
    (w : World) (p k : ℕ) (i : IntNode)
    → i.ifindex ≡ (int_at w.conf.ints p).ifindex
    → (int_at (put_int w p i).conf.ints k).ifindex ≡ (int_at w.conf.ints k).ifindex
put_int-same w p k i h = ground (arith, int_at-set w.conf.ints p k i)

put_int-live :
    (w : World) (p k : ℕ) (i : IntNode)
    → (i.mtu ≢ 0 → (int_at w.conf.ints p).mtu ≢ 0)
    → (int_at (put_int w p i).conf.ints k).mtu ≢ 0
    → (int_at w.conf.ints k).mtu ≢ 0
put_int-live w p k i h = elim (Bool-cases (p == k && ltb k (length w.conf.ints))) [
  | inl own ↦ rw (int_at-set w.conf.ints p k i, own) (λ m. ground (arith, h m))
  | inr foreign ↦ rw (int_at-set w.conf.ints p k i, foreign) (λ m. m)
]

-- A packet goes out on the interface at `p`.
sendpacket6-Away :
    (e : Env) (p : ℕ) (iph : Memory) (len i : ℕ) (w : World)
    → (int_at w.conf.ints p).ifindex ≢ i
    → Away i 1 w (sendpacket6 e p iph len w)
unfolding sendpacket6 int_destroy
sendpacket6-Away e p iph len i w h = by_outcome (e.sendto w.wire frame)
  where
    frame : Frame
    frame = frame_of (int_at w.conf.ints p) iph len

    by_outcome :
        (o : Outcome)
        → Away i 1 w (elim o [
          | sent ↦ count_sent p len (record w { wire = w.wire ++ frame ∷ [] })
          | no_device ↦ int_destroy p (record w { wire = w.wire ++ frame ∷ [] })
          | failed ↦ record w { wire = w.wire ++ frame ∷ [] }
        ])
    by_outcome sent = record {
      frames = frame ∷ [];
      wire = refl;
      few = omega arith;
      away = (h, tt);
      same = λ k. put_int-same w p k _ refl;
      live = λ k. put_int-live w p k _ (λ m. m);
    }
    by_outcome no_device = record {
      frames = frame ∷ [];
      wire = refl;
      few = omega arith;
      away = (h, tt);
      same = λ k. put_int-same w p k _ refl;
      live = λ k. put_int-live w p k _ (λ m. absurd (m refl));
    }
    by_outcome failed = record {
      frames = frame ∷ [];
      wire = refl;
      few = omega arith;
      away = (h, tt);
      same = λ k. refl;
      live = λ k m. m;
    }

pub int_find-lem :
    (c : Conf) (k p : ℕ) → int_find c k ≡ some p → (p ≡ k) × ((int_at c.ints k).mtu ≢ 0)
unfolding int_find
int_find-lem c k p h = ground arith

pub forward_subscrs-Away :
    (e : Env) (ifindex i : ℕ) (src : In6Addr) (iph : Memory) (len : ℕ) (ss : List SubscrNode)
    (w : World)
    → IsIndexed w
    → ifindex ≢ i
    → Away i 1 w (forward_subscrs e ifindex src iph len ss w)
unfolding forward_subscrs
forward_subscrs-Away e ifindex i src iph len [] w v h = Away-refl i 1 w
forward_subscrs-Away e ifindex i src iph len (s ∷ ss) w v h =
    let rest = forward_subscrs-Away e ifindex i src iph len ss w v h in
    elim (Bool-cases (is_wanted_by src s)) [
      | inr other ↦ rw other rest
      | inl wanted ↦ elim (Option-cases (int_find w.conf ifindex)) [
        | inl off ↦ rw (wanted, off) rest
        | inr (p, on) ↦
            let (place, used) = int_find-lem w.conf ifindex p on in
            rw (wanted, on)
              (sendpacket6-Away e p iph len i w (rw place (λ q. h (sym (v ifindex used) ∙ q))))
      ]
    ]

forward_grpints-Away :
    (e : Env) (p i : ℕ) (src : In6Addr) (iph : Memory) (len : ℕ) (gs : List GrpIntNode) (w : World)
    → IsIndexed w
    → (int_at w.conf.ints p).ifindex ≡ i
    → Away i (length gs) w (forward_grpints e p src iph len gs w)
unfolding forward_grpints
forward_grpints-Away e p i src iph len [] w v h = Away-refl i 0 w
forward_grpints-Away e p i src iph len (g ∷ gs) w v h =
    let next =
      if (int_at w.conf.ints p).ifindex == g.ifindex
      then w
      else forward_subscrs e g.ifindex src iph len g.subscriptions.items w in
    let first : Away i 1 w next = elim (Bool-cases ((int_at w.conf.ints p).ifindex == g.ifindex)) [
      | inl own ↦ rw own (Away-refl i 1 w)
      | inr foreign ↦
          rw foreign (
            forward_subscrs-Away e g.ifindex i src iph len g.subscriptions.items w v (ground arith))
    ] in
    Away-trans i 1 (length gs) (suc (length gs)) w next _ first
      (forward_grpints-Away e p i src iph len gs next (Away-IsIndexed i 1 w next first v)
        (first.same p ∙ h))
      (omega arith)

-- The number of interfaces with listeners.
abbrev pub count_grpints : Option GroupNode → ℕ
count_grpints none = 0
count_grpints (some g) = length g.interfaces.items

-- If the interfaces in use stand at their indices, forwarding a packet that came in on the
-- interface at `p` sends it at most once for each interface of its group, and never on the
-- interface that it came in on. A packet for a group that is not known is not sent.
pub l4_ipv6_multicast-Away :
    (e : Env) (p : ℕ) (iph : Memory) (len : ℕ) (w : World)
    → IsIndexed w
    → Away
        (int_at w.conf.ints p).ifindex
        (count_grpints (group_find w.conf.groups.items (addr_at iph 24)))
        w
        (l4_ipv6_multicast e p iph len w)
unfolding l4_ipv6_multicast
l4_ipv6_multicast-Away e p iph len w v =
    elim (Bool-cases (is_not_routed (addr_at iph 8) (addr_at iph 24))) [
      | inl stop ↦ rw stop (Away-refl _ _ w)
      | inr go ↦ rw go (to_group (group_find w.conf.groups.items (addr_at iph 24)))
    ]
  where
    to_group :
        (o : Option GroupNode)
        → Away
            (int_at w.conf.ints p).ifindex
            (count_grpints o)
            w
            (forward_group e p (addr_at iph 8) (addr_at iph 24) iph len w o)
    to_group none = Away-refl _ 0 w
    to_group (some g) =
        let a =
          forward_grpints-Away e p (int_at w.conf.ints p).ifindex (addr_at iph 8) iph len
            g.interfaces.items _ v refl in
        record {
          frames = a.frames;
          wire = a.wire;
          few = a.few;
          away = a.away;
          same = a.same;
          live = a.live;
        }
