-- ===== src/Mld/Listen/FailingReport.antt =====
-- A version 1 report of src/ecmh.c when `calloc` fails for any of the nodes and their links.
use ecmh.Prelude.{ℕ, ◌≡◌, ◌⊎◌, refl, sym, ap, inl, inr, false, Option, none, some, Bool-cases}
use mathlib.Core.Path.{subst}
use ecmh.Addr.{In6Addr, addr_any}
use ecmh.LinkList.{LinkedList}
use ecmh.Subscr.{SubscrNode, mode_is_include}
use ecmh.GrpInt.{GrpIntNode, grpint_refresh}
use ecmh.Groups.{GroupNode, groupint_get}
use ecmh.Conf.{World, Env, int_at}
use ecmh.Interfaces.{int_set_mld_version}
use ecmh.Mld.Quiet.{groups_of}
use ecmh.Mld.Listen.{store_grpint, is_local_group, join, mld1_report}
use ecmh.Mld.Listen.WellFormed.{groups-int_set_mld_version}
use ecmh.Mld.Listen.Members.{subscribed, join-subscribed}
use ecmh.Mld.Listen.Failures.{groupint_get-subscribed}
use ecmh.Mld.Listen.Stored.{Written, store_grpint-Written}
use ecmh.Mld.Listen.Handed.{groupint_get-IsHanded}

-- A subscription after a report for a group on an interface: as it was, or the one for all sources
-- of the group on the interface, refreshed now.
abbrev pub JoinedEntry :
    ℕ → In6Addr → ℕ → In6Addr → ℕ → In6Addr → Option SubscrNode → Option SubscrNode → Type 0
JoinedEntry now mca ifindex k i j old new =
    (new ≡ old)
    ⊎ ((is_local_group mca ≡ false)
        × (mca ≡ k)
        × (ifindex ≡ i)
        × (addr_any ≡ j)
        × (new ≡ some (record { ipv6 = addr_any; mode = mode_is_include; refreshtime = now })))

-- By what a refresh writes.
joined_of :
    {now : ℕ} {mca : In6Addr} {ifindex : ℕ} {k : In6Addr} {i : ℕ} {j : In6Addr}
    {old new : Option SubscrNode}
    → is_local_group mca ≡ false
    → Written now mca ifindex addr_any mode_is_include k i j old new
    → JoinedEntry now mca ifindex k i j old new
joined_of far (inl e) = inl e
joined_of far (inr (same, at, e, f)) = inr (far, same, at, e, f)

joined :
    (e : Env) (p : ℕ) (mca : In6Addr) (w : World) (k : In6Addr) (i : ℕ) (j : In6Addr)
    → is_local_group mca ≡ false
    → (o : Option GrpIntNode)
    → let ifindex = (int_at w.conf.ints p).ifindex in
      let got = groupint_get (e.alloc 0 0) e.now w.conf.groups mca ifindex in
      got.node ≡ o
      → JoinedEntry e.now mca ifindex k i j
          (subscribed (groups_of w) k i j)
          (subscribed (groups_of (join e p mca w got o)) k i j)
joined e p mca w k i j far none h = inl (
    groupint_get-subscribed (e.alloc 0 0) e.now (int_at w.conf.ints p).ifindex w.conf.groups mca k i
      j)
joined e p mca w k i j far (some gi) h =
    let a = e.alloc 0 0 in
    let ifindex = (int_at w.conf.ints p).ifindex in
    let got = groupint_get a e.now w.conf.groups mca ifindex in
    let handed = groupint_get-IsHanded a e.now ifindex w.conf.groups mca gi h in
    let gi' = (grpint_refresh a e.now gi addr_any mode_is_include).1 in
    let same = groupint_get-subscribed a e.now ifindex w.conf.groups mca k i j in
    rw (join-subscribed e p mca w got gi) (
      subst
        (λ o.
          JoinedEntry e.now mca ifindex k i j o
            (subscribed (store_grpint got.groups mca gi') k i j))
        same
        (joined_of far (
          store_grpint-Written a e.now mca ifindex addr_any mode_is_include got.groups gi k i j
            handed)))

-- Whatever memory `calloc` finds for the nodes and their links, after a version 1 report each
-- subscription is as it was, or it is the one for all sources of the group, refreshed now, on the
-- interface that the report came in on, and the group is a multicast group that is neither
-- node-local nor link-local.
pub mld1_report-Joined :
    (e : Env) (p : ℕ) (mca : In6Addr) (w : World) (k : In6Addr) (i : ℕ) (j : In6Addr)
    → JoinedEntry e.now mca
        (int_at (int_set_mld_version e p 1 w).conf.ints p).ifindex
        k
        i
        j
        (subscribed (groups_of w) k i j)
        (subscribed (groups_of (mld1_report e p mca w)) k i j)
unfolding mld1_report
mld1_report-Joined e p mca w k i j =
    let seen = int_set_mld_version e p 1 w in
    let ifindex = (int_at seen.conf.ints p).ifindex in
    let got = groupint_get (e.alloc 0 0) e.now seen.conf.groups mca ifindex in
    let old = subscribed (groups_of w) k i j in
    let unseen =
      ap (λ (l : LinkedList GroupNode). subscribed l k i j) (groups-int_set_mld_version e p 1 w) in
    elim (Bool-cases (is_local_group mca)) [
      | inl local ↦ rw local (inl unseen)
      | inr far ↦
          let run : mld1_report e p mca w ≡ join e p mca seen got got.node = rw far refl in
          let Entry : Option SubscrNode → World → Type 0 =
            λ o x. JoinedEntry e.now mca ifindex k i j o (subscribed (groups_of x) k i j) in
          subst (λ x. Entry old x) (sym run)
            (subst (λ o. Entry o (join e p mca seen got got.node)) unseen
              (joined e p mca seen k i j far got.node refl))
    ]
