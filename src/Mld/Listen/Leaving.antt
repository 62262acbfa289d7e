-- ===== src/Mld/Listen/Leaving.antt =====
-- What a version 1 Done does, in src/ecmh.c, to the subscriptions.
use ecmh.Prelude.{
  ℕ, ◌≡◌, refl, sym, ap, ◌∙◌, inl, inr, Bool, true, false, ◌&&◌, ◌==◌, Option, none, some,
  is_nonpos, negsuc, IsDistinct, arith, Bool-cases, Option-cases, eq_of_==, place_by, find_by-key,
  find_by-All, place_by-none, if◌then◌else◌,
}
use mathlib.Core.Path.{subst}
use ecmh.Addr.{In6Addr, addr_any}
use ecmh.LinkList.{LinkedList, list_delete_node}
use ecmh.LinkList.Laws.{find_by-remove_at}
use ecmh.Subscr.{SubscrNode, ipv6_of, subscr_find, subscr_unsub}
use ecmh.GrpInt.{GrpIntNode, ifindex_of, grpint_find}
use ecmh.GrpInt.Laws.{IsSound}
use ecmh.Groups.{GroupNode, mca_of, group_find}
use ecmh.Groups.WellFormed.{IsSoundGroup, IsRegistry}
use ecmh.Groups.Lookup.{grpint_in, grpint_at}
use ecmh.Conf.{World, Env, int_at}
use ecmh.Interfaces.{int_set_mld_version}
use ecmh.Mld.Quiet.{groups_of, groups-mld_send_query}
use ecmh.Mld.Listen.{store_grpint, is_local_group, leave, reduce_group, mld1_reduction}
use ecmh.Mld.Listen.WellFormed.{HasRegistry, groups-int_set_mld_version}
use ecmh.Mld.Listen.Members.{subscr_in, subscribed, store_grpint-at}

-- The subscriptions after a version 1 Done: one entry is cleared.
abbrev pub left : In6Addr → ℕ → LinkedList GroupNode → In6Addr → ℕ → In6Addr → Option SubscrNode
left mca ifindex groups k i j =
    if mca == k && ifindex == i && addr_any == j then none else subscribed groups k i j

left_nothing :
    (mca : In6Addr) (ifindex : ℕ) (groups : LinkedList GroupNode) (k : In6Addr) (i : ℕ)
    (j : In6Addr)
    → subscribed groups mca ifindex addr_any ≡ none
    → subscribed groups k i j ≡ left mca ifindex groups k i j
left_nothing mca ifindex groups k i j h = elim (Bool-cases (mca == k)) [
  | inr other ↦ rw other refl
  | inl group ↦ elim (Bool-cases (ifindex == i)) [
    | inr other ↦ rw (group, other) refl
    | inl int ↦ elim (Bool-cases (addr_any == j)) [
      | inr other ↦ rw (group, int, other) refl
      | inl any ↦
          rw (group, int, any)
            (rw⁻¹ (eq_of_== mca k group, eq_of_== ifindex i int, eq_of_== addr_any j any) h)
    ]
  ]
]

-- The list that `subscr_unsub` leaves, marked or not.
abbrev remarked : LinkedList SubscrNode → LinkedList SubscrNode
remarked l = if is_nonpos l.count then record l { count = negsuc 1 } else l

remarked-find :
    (l : LinkedList SubscrNode) (j : In6Addr) → subscr_find (remarked l) j ≡ subscr_find l j
remarked-find l j = ground arith

left_one :
    (mca : In6Addr) (ifindex n : ℕ) (groups : LinkedList GroupNode) (gi : GrpIntNode) (k : In6Addr)
    (i : ℕ) (j : In6Addr)
    → grpint_at groups mca ifindex ≡ some gi
    → gi.ifindex ≡ ifindex
    → IsDistinct ipv6_of gi.subscriptions.items
    → place_by ipv6_of gi.subscriptions.items addr_any ≡ some n
    → subscribed
        (store_grpint groups mca
          (record gi { subscriptions = remarked (list_delete_node gi.subscriptions n) }))
        k
        i
        j
      ≡ left mca ifindex groups k i j
unfolding list_delete_node
left_one mca ifindex n groups gi k i j there named d placed =
    let gi' : GrpIntNode = record gi {
      subscriptions = remarked (list_delete_node gi.subscriptions n);
    } in
    let written = store_grpint-at groups mca k gi' i in
    let unmarked = remarked-find (list_delete_node gi.subscriptions n) j in
    let removed = find_by-remove_at ipv6_of gi.subscriptions.items addr_any n j placed d in
    elim (Bool-cases (mca == k)) [
      | inr other ↦ rw (written, other) refl
      | inl group ↦ elim (Bool-cases (ifindex == i)) [
        | inr other ↦ rw (written, named, group, other) refl
        | inl int ↦
            let here : grpint_at groups k i ≡ some gi =
              rw⁻¹ (eq_of_== mca k group, eq_of_== ifindex i int) there in
            rw (written, named, group, int, here) (unmarked ∙ removed)
      ]
    ]

-- The groups after `subscr_unsub`.
abbrev left_groups :
    LinkedList GroupNode
    → In6Addr
    → GrpIntNode
    → Bool × LinkedList SubscrNode
    → LinkedList GroupNode
left_groups groups mca gi (false, l) = groups
left_groups groups mca gi (true, l) =
    store_grpint groups mca (record gi { subscriptions = remarked l })

left_groups-subscribed :
    (mca : In6Addr) (ifindex : ℕ) (groups : LinkedList GroupNode) (gi : GrpIntNode) (k : In6Addr)
    (i : ℕ) (j : In6Addr)
    → grpint_at groups mca ifindex ≡ some gi
    → gi.ifindex ≡ ifindex
    → IsDistinct ipv6_of gi.subscriptions.items
    → subscribed (left_groups groups mca gi (subscr_unsub gi.subscriptions addr_any)) k i j
      ≡ left mca ifindex groups k i j
unfolding subscr_unsub
left_groups-subscribed mca ifindex groups gi k i j there named d =
    elim (Option-cases (place_by ipv6_of gi.subscriptions.items addr_any)) [
      | inl absent ↦
          rw (absent, subscr_unsub)
            (left_nothing mca ifindex groups k i j (
              ap (subscr_in addr_any) there
              ∙ place_by-none ipv6_of gi.subscriptions.items addr_any absent))
      | inr (n, placed) ↦
          rw (placed, subscr_unsub) (left_one mca ifindex n groups gi k i j there named d placed)
    ]

module _ (e : Env) (p : ℕ) (mca : In6Addr) where
  groups-leave :
      (w : World) (gi : GrpIntNode) (r : Bool × LinkedList SubscrNode)
      → groups_of (leave e p mca w gi r) ≡ left_groups w.conf.groups mca gi r
  groups-leave w gi (false, l) = refl
  groups-leave w gi (true, l) = elim (Bool-cases (is_nonpos l.count)) [
    | inl last ↦ rw last (groups-mld_send_query e p mca _)
    | inr more ↦ rw more refl
  ]

  reduce_group-subscribed :
      (w : World) (o : Option GroupNode) (k : In6Addr) (i : ℕ) (j : In6Addr)
      → group_find w.conf.groups.items mca ≡ o
      → HasRegistry w
      → subscribed (groups_of (reduce_group e p mca w o)) k i j
        ≡ left mca (int_at w.conf.ints p).ifindex w.conf.groups k i j
  reduce_group-subscribed w none k i j f v =
      let ifindex = (int_at w.conf.ints p).ifindex in
      left_nothing mca ifindex w.conf.groups k i j
        (ap (λ o. subscr_in addr_any (grpint_in ifindex o)) f)
  reduce_group-subscribed w (some g) k i j f v =
      let ifindex = (int_at w.conf.ints p).ifindex in
      let sound = find_by-All mca_of IsSoundGroup w.conf.groups.items mca g v.sound f in
      let at : grpint_at w.conf.groups mca ifindex ≡ grpint_find g.interfaces.items ifindex =
        ap (grpint_in ifindex) f in
      elim (Option-cases (grpint_find g.interfaces.items ifindex)) [
        | inl absent ↦
            rw absent
              (left_nothing mca ifindex w.conf.groups k i j (ap (subscr_in addr_any) (at ∙ absent)))
        | inr (gi, there) ↦
            let named = find_by-key ifindex_of g.interfaces.items ifindex gi there in
            let kept =
              find_by-All ifindex_of (λ (x : GrpIntNode). IsSound x.subscriptions)
                g.interfaces.items ifindex gi sound.sound there in
            rw there (
              rw (groups-leave w gi (subscr_unsub gi.subscriptions addr_any)) (
                left_groups-subscribed mca ifindex w.conf.groups gi k i j (at ∙ there) named
                  kept.distinct))
      ]

  -- In a well-formed registry, a version 1 Done for a multicast group that is neither node-local
  -- nor link-local ends the subscription to all sources of the group on the interface that it came
  -- in on, and changes no other subscription.
  pub mld1_reduction-subscribed :
      (w : World) (k : In6Addr) (i : ℕ) (j : In6Addr)
      → is_local_group mca ≡ false
      → HasRegistry w
      → subscribed (groups_of (mld1_reduction e p mca w)) k i j
        ≡ left mca (int_at (int_set_mld_version e p 1 w).conf.ints p).ifindex (groups_of w) k i j
  unfolding mld1_reduction
  mld1_reduction-subscribed w k i j far v =
      let seen = int_set_mld_version e p 1 w in
      let same = groups-int_set_mld_version e p 1 w in
      rw far (
        reduce_group-subscribed seen (group_find seen.conf.groups.items mca) k i j refl
          (subst IsRegistry (sym same) v)
        ∙ rw same refl)
