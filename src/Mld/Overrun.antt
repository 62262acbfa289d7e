-- ===== src/Mld/Overrun.antt =====
-- When `mld2_send_report` of src/ecmh.c writes past its packet, for listeners to any source.
use ecmh.Prelude.{
  ℕ, zero, suc, ◌+◌, ◌-◌, ◌*◌, ◌≤◌, ◌≡◌, refl, sym, ◌∙◌, inl, inr, Bool, true, false, ◌||◌, ◌==◌,
  ltb, Option, none, some, List, [], ◌∷◌, All, arith, Bool-cases, if◌then◌else◌,
}
use mathlib.Core.Path.{subst}
use ecmh.Addr.{In6Addr, is_addr_unspecified}
use ecmh.Memory.{addr_bytes}
use ecmh.Subscr.{SubscrNode, mode_is_exclude}
use ecmh.GrpInt.{GrpIntNode}
use ecmh.Groups.{GroupNode}
use ecmh.Conf.{World, Env, int_at}
use ecmh.Mld.Report2.{
  Rep, store, flush, slot, ngrec, append_subscr, report_subscr, report_subscrs, report_grpints,
  report_groups, is_asked, start, flush_last, mld2_send_report,
}
use ecmh.Mld.Room.{Fine, Spilled, Behind, IsLast, append_subscr-Fine}
use ecmh.Mld.Spill.{
  IsAnySource, report_subscr-Spilled, report_subscrs-Spilled, overrun-flush, clean-flush,
}

abbrev pub AreAnySource : List GroupNode → Type 0
AreAnySource gns =
    All (λ gn. All (λ g. All IsAnySource g.subscriptions.items) gn.interfaces.items) gns

-- The subscriptions that the report reads, of the groups that are asked for, on all interfaces but
-- its own.
abbrev pub listeners : List SubscrNode → ℕ
listeners [] = 0
listeners (s ∷ ss) = (if s.mode == mode_is_exclude then 0 else 1) + listeners ss

abbrev pub listeners_elsewhere : ℕ → List GrpIntNode → ℕ
listeners_elsewhere own [] = 0
listeners_elsewhere own (g ∷ gs) =
    (if g.ifindex == own then 0 else listeners g.subscriptions.items) + listeners_elsewhere own gs

abbrev pub all_listeners : ℕ → Option In6Addr → List GroupNode → ℕ
all_listeners own mca [] = 0
all_listeners own mca (gn ∷ gns) =
    (if is_asked mca gn then listeners_elsewhere own gn.interfaces.items else 0)
    + all_listeners own mca gns

module _ (e : Env) (p mtu own : ℕ) (lo : 116 ≤ mtu) where
  recount : {k m : ℕ} (r : Rep) → k ≡ m → Behind p mtu own k r → Behind p mtu own m r
  recount r same f = subst (λ k. Behind p mtu own k r) same f

  report_subscr-Behind :
      (gn : GroupNode) (s : SubscrNode) (k m : ℕ) (r : Rep)
      → IsAnySource s
      → m ≡ k + (if s.mode == mode_is_exclude then 0 else 1)
      → Behind p mtu own k r
      → Behind p mtu own m (report_subscr e p gn s r)
  unfolding report_subscr
  report_subscr-Behind gn s k m r any more (inr f) =
      inr (omega (arith, f.0), report_subscr-Spilled e p gn s r any f.1)
  report_subscr-Behind gn s k m r any more (inl f) = elim (Bool-cases (s.mode == mode_is_exclude)) [
    | inl out ↦
        let skipped : (r.done || s.mode == mode_is_exclude) ≡ true = ground arith in
        rw skipped (recount r (ground arith) (inl f))
    | inr in' ↦
        let addr : is_addr_unspecified s.ipv6 ≡ true = ground arith in
        let same : suc k ≡ m = ground arith in
        simp (in', f.going, f.unplaced)
          (recount (append_subscr e p gn s r) same
            (append_subscr-Fine e p mtu own k gn s r addr lo f))
  ]

  report_subscrs-Behind :
      (gn : GroupNode) (ss : List SubscrNode) (k m : ℕ) (r : Rep)
      → All IsAnySource ss
      → m ≡ k + listeners ss
      → Behind p mtu own k r
      → Behind p mtu own m (report_subscrs e p gn ss r)
  unfolding report_subscrs
  report_subscrs-Behind gn [] k m r any more f = recount r (omega arith) f
  report_subscrs-Behind gn (s ∷ ss) k m r any more f =
      let k' = k + (if s.mode == mode_is_exclude then 0 else 1) in
      report_subscrs-Behind gn ss k' m (report_subscr e p gn s r) any.1 (omega arith)
        (report_subscr-Behind gn s k k' r any.0 refl f)

  one_grpint-Behind :
      (gn : GroupNode) (g : GrpIntNode) (k : ℕ) (r : Rep)
      → All IsAnySource g.subscriptions.items
      → Behind p mtu own k r
      → Behind p mtu own (k + (if g.ifindex == own then 0 else listeners g.subscriptions.items)) (
          if g.ifindex == (int_at r.world.conf.ints p).ifindex
          then r
          else report_subscrs e p gn g.subscriptions.items r)
  one_grpint-Behind gn g k r any (inr f) =
      let ss = g.subscriptions.items in
      inr (omega (arith, f.0), by_test (g.ifindex == (int_at r.world.conf.ints p).ifindex))
    where
      by_test :
          (b : Bool) → Spilled (if b then r else report_subscrs e p gn g.subscriptions.items r)
      by_test true = f.1
      by_test false = report_subscrs-Spilled e p gn g.subscriptions.items r any f.1
  one_grpint-Behind gn g k r any (inl f) =
      let ss = g.subscriptions.items in
      subst
        (λ (n : ℕ).
          Behind p mtu own (k + (if g.ifindex == own then 0 else listeners ss))
            (if g.ifindex == n then r else report_subscrs e p gn ss r))
        (sym f.named) (by_test (g.ifindex == own))
    where
      by_test :
          (b : Bool)
          → Behind p mtu own
              (k + (if b then 0 else listeners g.subscriptions.items))
              (if b then r else report_subscrs e p gn g.subscriptions.items r)
      by_test true = recount r (omega arith) (inl f)
      by_test false = report_subscrs-Behind gn g.subscriptions.items k _ r any refl (inl f)

  report_grpints-Behind :
      (gn : GroupNode) (gs : List GrpIntNode) (k m : ℕ) (r : Rep)
      → All (λ g. All IsAnySource g.subscriptions.items) gs
      → m ≡ k + listeners_elsewhere own gs
      → Behind p mtu own k r
      → Behind p mtu own m (report_grpints e p gn gs r)
  unfolding report_grpints
  report_grpints-Behind gn [] k m r any more f = recount r (omega arith) f
  report_grpints-Behind gn (g ∷ gs) k m r any more f =
      let k' = k + (if g.ifindex == own then 0 else listeners g.subscriptions.items) in
      report_grpints-Behind gn gs k' m _ any.1 (omega arith) (one_grpint-Behind gn g k r any.0 f)

  IsLast-src : (k : ℕ) (r : Rep) → IsLast k r → IsLast k (record r { src = none })
  IsLast-src zero r h = h
  IsLast-src (suc j) r h = h

  unplaced-Behind :
      (k : ℕ) (r : Rep) → Behind p mtu own k r → Behind p mtu own k (record r { src = none })
  unplaced-Behind k r (inl f) = inl (record {
    size = f.size;
    room = f.room;
    named = f.named;
    clean = f.clean;
    going = f.going;
    unplaced = refl;
    last = IsLast-src k r f.last;
    fits = f.fits;
  })
  unplaced-Behind k r (inr f) = inr (f.0, record { over = f.1.over; unplaced = refl })

  report_groups-Behind :
      (mca : Option In6Addr) (gns : List GroupNode) (k m : ℕ) (r : Rep)
      → AreAnySource gns
      → m ≡ k + all_listeners own mca gns
      → Behind p mtu own k r
      → Behind p mtu own m (report_groups e p mca gns r)
  unfolding report_groups
  report_groups-Behind mca [] k m r any more f = recount r (omega arith) f
  report_groups-Behind mca (gn ∷ gns) k m r any more f = elim (Bool-cases (is_asked mca gn)) [
    | inl asked ↦
        let k' = k + listeners_elsewhere own gn.interfaces.items in
        simp asked (
          report_groups-Behind mca gns k' m _ any.1 (ground arith) (
            report_grpints-Behind gn gn.interfaces.items k k' (record r { src = none }) any.0 refl
              (unplaced-Behind k r f)))
    | inr other ↦ simp other (report_groups-Behind mca gns k m r any.1 (ground arith) f)
  ]

  -- What goes out at last.
  overrun-flush_last :
      (k : ℕ) (r : Rep) → Behind p mtu own k r → (flush_last e p r).overrun ≡ ltb mtu (56 + 20 * k)
  overrun-flush_last k r (inr f) = by_grec r.grec ∙ ground (arith, f.0)
    where
      by_grec :
          (o : Option ℕ)
          → (if r.done || ngrec r == 0 then r.world else elim o [
            | none ↦ r.world
            | some g ↦ (flush e p r g (slot r g - 40)).world
          ]).overrun
            ≡ true
      by_grec none = ground (arith, f.1.over)
      by_grec (some g) = ground (arith, f.1.over, overrun-flush e p r g (slot r g - 40) f.1.over)
  overrun-flush_last zero r (inl f) = simp f.last (ground (arith, f.clean, f.fits))
  overrun-flush_last (suc j) r (inl f) =
      let g = 56 + 20 * j in
      let out =
        clean-flush e p r g (slot r g - 40) f.clean (omega arith) (omega (arith, f.size, f.fits)) in
      simp f.last.0 (ground (arith, f.clean, f.fits, out))

start-Fine :
    (p : ℕ) (w : World)
    → w.overrun ≡ false
    → 116 ≤ (int_at w.conf.ints p).mtu
    → Fine p (int_at w.conf.ints p).mtu (int_at w.conf.ints p).ifindex 0 (start p w)
unfolding store addr_bytes
start-Fine p w c lo = record {
  size = refl;
  room = refl;
  named = refl;
  clean = simp c (ground arith);
  going = refl;
  unplaced = refl;
  last = refl;
  fits = omega arith;
}

-- With room for a record and a source, and only listeners to any source in the groups, a report of
-- version 2 writes past its packet exactly when the packet, its headers of 56 bytes and 20 bytes
-- for each listener that it reports, is longer than the MTU of the interface: it does not begin a
-- new packet in time.
pub mld2_send_report-overrun :
    (e : Env) (p : ℕ) (mca : Option In6Addr) (w : World)
    → w.overrun ≡ false
    → 116 ≤ (int_at w.conf.ints p).mtu
    → AreAnySource w.conf.groups.items
    → let i = int_at w.conf.ints p in
      (mld2_send_report e p mca w).overrun
      ≡ ltb i.mtu (56 + 20 * all_listeners i.ifindex mca w.conf.groups.items)
unfolding mld2_send_report
mld2_send_report-overrun e p mca w c lo any =
    let i = int_at w.conf.ints p in
    let gns = w.conf.groups.items in
    let k = all_listeners i.ifindex mca gns in
    let wide : ltb i.mtu 56 ≡ false = ground arith in
    let looped =
      report_groups-Behind e p i.mtu i.ifindex lo mca gns 0 k (start p w) any (omega arith)
        (inl (start-Fine p w c lo)) in
    simp wide (overrun-flush_last e p i.mtu i.ifindex lo k _ looped)
