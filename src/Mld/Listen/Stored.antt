-- ===== src/Mld/Listen/Stored.antt =====
-- What `grpint_refresh` on a node that `groupint_get` returned does, in src/ecmh.c, to the
-- subscriptions, whatever memory `calloc` finds.
use ecmh.Prelude.{
  ==_refl, ℕ, ◌≡◌, ◌⊎◌, refl, sym, ap, ◌∙◌, inl, inr, Bool, true, false, ◌&&◌, ◌==◌, Option, none,
  some, arith, Bool-cases, Option-cases, eq_of_==,
}
use mathlib.Core.Path.{subst}
use ecmh.Addr.{In6Addr, is_addr_unspecified}
use ecmh.LinkList.{LinkedList, listnode_add}
use ecmh.Subscr.{SubscrNode, mode_is_exclude, subscr_create, subscr_find}
use ecmh.GrpInt.{GrpIntNode, Alloc, grpint_refresh}
use ecmh.GrpInt.Laws.{grpint_refresh-ifindex, subscr_find-grpint_refresh}
use ecmh.Groups.{GroupNode}
use ecmh.Groups.Lookup.{grpint_at}
use ecmh.Mld.Listen.{store_grpint}
use ecmh.Mld.Listen.Members.{subscribed, store_grpint-at}
use ecmh.Mld.Listen.Handed.{IsHanded}

-- A subscription after a refresh: as it was, or the one for the source, refreshed now.
abbrev Refreshed : ℕ → In6Addr → ℕ → In6Addr → Option SubscrNode → Option SubscrNode → Type 0
Refreshed now src mode j old new =
    (new ≡ old) ⊎ ((src ≡ j) × (new ≡ some (record { ipv6 = src; mode = mode; refreshtime = now })))

module _ (a : Alloc) (now : ℕ) where
  abbrev all_memory : Alloc
  all_memory = record a { subscr = true; subscr_link = true }

  -- If there is a subscription for the source, no memory is needed.
  refresh-found :
      (gi : GrpIntNode) (src : In6Addr) (mode : ℕ) (s : SubscrNode)
      → subscr_find gi.subscriptions src ≡ some s
      → grpint_refresh a now gi src mode ≡ grpint_refresh all_memory now gi src mode
  unfolding grpint_refresh
  refresh-found gi src mode s there = rw there refl

  refresh-absent :
      (gi : GrpIntNode) (src : In6Addr) (mode : ℕ)
      → subscr_find gi.subscriptions src ≡ none
      → (a.subscr && a.subscr_link) ≡ false
      → (grpint_refresh a now gi src mode).1.subscriptions ≡ gi.subscriptions
  unfolding grpint_refresh subscr_create listnode_add
  refresh-absent gi src mode absent fails = rw absent (ground arith)

  Refreshed-all :
      (b : Alloc) (gi : GrpIntNode) (src j : In6Addr) (mode : ℕ)
      → b.subscr ≡ true
      → b.subscr_link ≡ true
      → Refreshed now src mode j
          (subscr_find gi.subscriptions j)
          (subscr_find (grpint_refresh b now gi src mode).1.subscriptions j)
  Refreshed-all b gi src j mode m m' =
      let result = subscr_find-grpint_refresh b now gi src j mode m m' in
      elim (Bool-cases (mode == mode_is_exclude && is_addr_unspecified src)) [
        | inl nothing ↦ inl (result ∙ rw nothing refl)
        | inr write ↦ elim (Bool-cases (src == j)) [
          | inl same ↦ inr (eq_of_== src j same, result ∙ rw (write, same) refl)
          | inr other ↦ inl (result ∙ rw (write, other) refl)
        ]
      ]

  refresh-Refreshed :
      (gi : GrpIntNode) (src j : In6Addr) (mode : ℕ)
      → Refreshed now src mode j
          (subscr_find gi.subscriptions j)
          (subscr_find (grpint_refresh a now gi src mode).1.subscriptions j)
  refresh-Refreshed gi src j mode = elim (Bool-cases (a.subscr && a.subscr_link)) [
    | inl m ↦ Refreshed-all a gi src j mode (ground arith) (ground arith)
    | inr fails ↦ elim (Option-cases (subscr_find gi.subscriptions src)) [
      | inl absent ↦ inl (ap (λ l. subscr_find l j) (refresh-absent gi src mode absent fails))
      | inr (s, there) ↦
          subst
            (λ (r : Bool × GrpIntNode).
              Refreshed now src mode j (subscr_find gi.subscriptions j)
                (subscr_find r.1.subscriptions j))
            (sym (refresh-found gi src mode s there))
            (Refreshed-all all_memory gi src j mode refl refl)
    ]
  ]

-- A subscription after a refresh of a group on an interface: as it was, or the one for the source,
-- refreshed now.
abbrev pub Written :
    ℕ
    → In6Addr
    → ℕ
    → In6Addr
    → ℕ
    → In6Addr
    → ℕ
    → In6Addr
    → Option SubscrNode
    → Option SubscrNode
    → Type 0
Written now mca ifindex src mode k i j old new =
    (new ≡ old)
    ⊎ ((mca ≡ k)
        × (ifindex ≡ i)
        × (src ≡ j)
        × (new ≡ some (record { ipv6 = src; mode = mode; refreshtime = now })))

module _ (a : Alloc) (now : ℕ) (mca : In6Addr) (ifindex : ℕ) (src : In6Addr) (mode : ℕ) where
  abbrev pub refreshed : GrpIntNode → GrpIntNode
  refreshed gi = (grpint_refresh a now gi src mode).1

  pub store_grpint-Written :
      (groups : LinkedList GroupNode) (gi : GrpIntNode) (k : In6Addr) (i : ℕ) (j : In6Addr)
      → IsHanded groups mca ifindex gi
      → Written now mca ifindex src mode k i j
          (subscribed groups k i j)
          (subscribed (store_grpint groups mca (refreshed gi)) k i j)
  store_grpint-Written groups gi k i j h =
      let gi' = refreshed gi in
      let named = grpint_refresh-ifindex a now gi src mode ∙ h.0 in
      let written = store_grpint-at groups mca k gi' i in
      elim (Bool-cases (mca == k)) [
        | inr other ↦ inl (rw (written, other) refl)
        | inl group ↦ elim (Bool-cases (ifindex == i)) [
          | inr other ↦ inl (rw (written, named, group, other) refl)
          | inl int ↦
              let same = eq_of_== mca k group in
              let at = eq_of_== ifindex i int in
              let keys : grpint_at groups k i ≡ grpint_at groups mca ifindex =
                ap (λ x. grpint_at groups x i) (sym same) ∙ ap (grpint_at groups mca) (sym at) in
              elim h.1 [
                | inr lost ↦ inl (rw (written, named, group, int, keys ∙ lost) refl)
                | inl there ↦
                    rw (written, named, group, int, keys ∙ there)
                      (entered same at (refresh-Refreshed a now gi src j mode))
              ]
        ]
      ]
    where
      entered :
          {old new : Option SubscrNode}
          → mca ≡ k
          → ifindex ≡ i
          → Refreshed now src mode j old new
          → Written now mca ifindex src mode k i j old new
      entered same at (inl e) = inl e
      entered same at (inr (e, f)) = inr (same, at, e, f)

  -- The node stays one that is in the registry under its keys, or was lost with its link.
  pub store_grpint-IsHanded :
      (groups : LinkedList GroupNode) (gi : GrpIntNode)
      → IsHanded groups mca ifindex gi
      → IsHanded (store_grpint groups mca (refreshed gi)) mca ifindex (refreshed gi)
  store_grpint-IsHanded groups gi h =
      let named = grpint_refresh-ifindex a now gi src mode ∙ h.0 in
      let written = store_grpint-at groups mca mca (refreshed gi) ifindex in
      let same : (mca == mca) ≡ true = ==_refl mca in
      let int : (ifindex == ifindex) ≡ true = ==_refl ifindex in
      (
        named,
        elim h.1 [
          | inl there ↦ inl (rw (written, named, same, int, there) refl)
          | inr lost ↦ inr (rw (written, named, same, int, lost) refl)
        ],
      )
