-- ===== src/Mld/Listen/Members.antt =====
-- What a version 1 report does, in src/ecmh.c, to the subscriptions, as a map from the group, the
-- interface and the source.
use ecmh.Prelude.{
  ℕ, ◌≡◌, refl, sym, ◌∙◌, inl, inr, false, ◌&&◌, ◌==◌, Option, none, some, arith, Bool-cases,
  Option-cases, eq_of_==, find_by, find_by-key, find_by-update_by, if◌then◌else◌,
}
use ecmh.Addr.{In6Addr, addr_any}
use ecmh.LinkList.{LinkedList}
use ecmh.Subscr.{SubscrNode, mode_is_include, subscr_find}
use ecmh.GrpInt.{GrpIntNode, ifindex_of, grpint_find, grpint_refresh}
use ecmh.GrpInt.Laws.{grpint_refresh-ifindex, subscr_find-grpint_refresh}
use ecmh.Groups.{GroupNode, mca_of, group_find, Got, groupint_get}
use ecmh.Groups.Lookup.{HasMemory, grpint_in, grpint_at, or_new, groupint_get-at, groupint_get-node}
use ecmh.Conf.{World, Env, int_at}
use ecmh.Interfaces.{int_set_mld_version}
use ecmh.Mld.Quiet.{groups_of, groups-mld_send_report_all}
use ecmh.Mld.Listen.{put_grpint, store_grpint, is_local_group, join, mld1_report}
use ecmh.Mld.Listen.WellFormed.{groups-int_set_mld_version}

abbrev pub subscr_in : In6Addr → Option GrpIntNode → Option SubscrNode
subscr_in j none = none
subscr_in j (some gi) = subscr_find gi.subscriptions j

-- The subscription to a group, on an interface, for a source.
abbrev pub subscribed : LinkedList GroupNode → In6Addr → ℕ → In6Addr → Option SubscrNode
subscribed groups mca ifindex j = subscr_in j (grpint_at groups mca ifindex)

abbrev overwrite : GrpIntNode → Option GrpIntNode → Option GrpIntNode
overwrite gi none = none
overwrite gi (some _) = some gi

put_grpint-find :
    (gi : GrpIntNode) (g : GroupNode) (i : ℕ)
    → grpint_find (put_grpint gi g).interfaces.items i ≡ (
        if gi.ifindex == i
        then overwrite gi (grpint_find g.interfaces.items i)
        else grpint_find g.interfaces.items i)
put_grpint-find gi g i =
    ground
      (arith, find_by-update_by ifindex_of gi.ifindex i (λ _. gi) g.interfaces.items (λ x m. sym m))

pub store_grpint-at :
    (groups : LinkedList GroupNode) (mca k : In6Addr) (gi : GrpIntNode) (i : ℕ)
    → grpint_at (store_grpint groups mca gi) k i ≡ (
        if mca == k && gi.ifindex == i
        then overwrite gi (grpint_at groups k i)
        else grpint_at groups k i)
store_grpint-at groups mca k gi i =
    let written = find_by-update_by mca_of mca k (put_grpint gi) groups.items (λ x m. refl) in
    elim (Option-cases (group_find groups.items k)) [
      | inl absent ↦ rw (written, absent) (ground arith)
      | inr (g, there) ↦ elim (Bool-cases (mca == k)) [
        | inl same ↦ rw (written, there, same) (put_grpint-find gi g i)
        | inr other ↦ rw (written, there, other) refl
      ]
    ]

pub or_new-ifindex : (i : ℕ) (o : Option GroupNode) → (or_new i (grpint_in i o)).ifindex ≡ i
or_new-ifindex i none = refl
or_new-ifindex i (some g) = elim (Option-cases (grpint_find g.interfaces.items i)) [
  | inl absent ↦ rw absent refl
  | inr (gi, there) ↦ rw there (find_by-key ifindex_of g.interfaces.items i gi there)
]

pub or_new-subscr_in :
    (i : ℕ) (j : In6Addr) (o : Option GrpIntNode)
    → subscr_find (or_new i o).subscriptions j ≡ subscr_in j o
unfolding find_by
or_new-subscr_in i j none = refl
or_new-subscr_in i j (some gi) = refl

-- The subscriptions after a version 1 report: one entry is written.
abbrev pub joined :
    In6Addr → ℕ → ℕ → LinkedList GroupNode → In6Addr → ℕ → In6Addr → Option SubscrNode
joined mca ifindex now groups k i j =
    if mca == k && ifindex == i && addr_any == j
    then some (record { ipv6 = addr_any; mode = mode_is_include; refreshtime = now })
    else subscribed groups k i j

-- The groups after the node that `groupint_get` returned was refreshed.
pub join-subscribed :
    (e : Env) (p : ℕ) (mca : In6Addr) (w : World) (got : Got) (gi : GrpIntNode)
    → groups_of (join e p mca w got (some gi))
      ≡ store_grpint got.groups mca
          (grpint_refresh (e.alloc 0 0) e.now gi addr_any mode_is_include).1
join-subscribed e p mca w got gi =
    elim (Bool-cases
      ((grpint_refresh (e.alloc 0 0) e.now gi addr_any mode_is_include).0 && got.isnew)) [
        | inl go ↦ rw go (groups-mld_send_report_all e p mca _)
        | inr stay ↦ rw stay refl
      ]

module _ (e : Env) (p : ℕ) (mca : In6Addr) (m : HasMemory (e.alloc 0 0)) where
  stored :
      (groups : LinkedList GroupNode) (ifindex : ℕ) (k : In6Addr) (i : ℕ) (j : In6Addr)
      → let got : Got = groupint_get (e.alloc 0 0) e.now groups mca ifindex in
        let gi : GrpIntNode = or_new ifindex (grpint_at groups mca ifindex) in
        subscribed
          (store_grpint got.groups mca
            (grpint_refresh (e.alloc 0 0) e.now gi addr_any mode_is_include).1)
          k
          i
          j
        ≡ joined mca ifindex e.now groups k i j
  stored groups ifindex k i j =
      let gi = or_new ifindex (grpint_at groups mca ifindex) in
      let named =
        grpint_refresh-ifindex (e.alloc 0 0) e.now gi addr_any mode_is_include
        ∙ or_new-ifindex ifindex (group_find groups.items mca) in
      let refreshed =
        subscr_find-grpint_refresh (e.alloc 0 0) e.now gi addr_any j mode_is_include m.subscr
          m.subscr_link in
      let kept = or_new-subscr_in ifindex j (grpint_at groups mca ifindex) in
      let got = groupint_get-at (e.alloc 0 0) e.now ifindex m groups mca k i in
      let written =
        store_grpint-at (groupint_get (e.alloc 0 0) e.now groups mca ifindex).groups mca k
          (grpint_refresh (e.alloc 0 0) e.now gi addr_any mode_is_include).1 i in
      elim (Bool-cases (mca == k)) [
        | inr other ↦ rw (written, got, other) refl
        | inl group ↦ elim (Bool-cases (ifindex == i)) [
          | inr other ↦ rw (written, got, named, group, other) refl
          | inl int ↦
              rw
                (
                  written,
                  got,
                  named,
                  group,
                  int,
                  refreshed,
                  kept,
                  eq_of_== mca k group,
                  eq_of_== ifindex i int,
                )
                refl
        ]
      ]

  -- With memory at hand, a version 1 report for a multicast group that is neither node-local nor
  -- link-local subscribes the interface that it came in on to all sources of the group, from now
  -- on, and changes no other subscription.
  pub mld1_report-subscribed :
      (w : World) (k : In6Addr) (i : ℕ) (j : In6Addr)
      → is_local_group mca ≡ false
      → subscribed (groups_of (mld1_report e p mca w)) k i j
        ≡ joined mca
            (int_at (int_set_mld_version e p 1 w).conf.ints p).ifindex
            e.now
            (groups_of w)
            k
            i
            j
  unfolding mld1_report
  mld1_report-subscribed w k i j far =
      let seen = int_set_mld_version e p 1 w in
      let ifindex = (int_at seen.conf.ints p).ifindex in
      let node = groupint_get-node (e.alloc 0 0) e.now ifindex m seen.conf.groups mca in
      let same = groups-int_set_mld_version e p 1 w in
      rw far (
        rw node (
          rw (join-subscribed e p mca seen _ _)
            (stored seen.conf.groups ifindex k i j ∙ rw same refl)))
