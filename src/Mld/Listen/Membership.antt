-- ===== src/Mld/Listen/Membership.antt =====
-- The abstract view of the registry that src/ecmh.c keeps: who is subscribed, by group, interface
-- and source. It forgets the lists, their order and counts, and the nodes without subscriptions.
use ecmh.Prelude.{
  ℕ, ◌≡◌, refl, ◌∙◌, inl, inr, ◌&&◌, ◌==◌, Option, some, arith, Bool-cases, eq_of_==, if◌then◌else◌,
}
use mathlib.Core.Path.{fun_ext}
use ecmh.Addr.{In6Addr, is_addr_unspecified}
use ecmh.LinkList.{LinkedList}
use ecmh.Subscr.{SubscrNode, mode_is_exclude}
use ecmh.GrpInt.{GrpIntNode, Alloc, grpint_refresh}
use ecmh.GrpInt.Laws.{grpint_refresh-ifindex, subscr_find-grpint_refresh}
use ecmh.Groups.{GroupNode, groupint_get, group_find}
use ecmh.Groups.Lookup.{HasMemory, grpint_at, or_new, groupint_get-at}
use ecmh.Mld.Listen.{store_grpint}
use ecmh.Mld.Listen.Members.{subscribed, store_grpint-at, or_new-ifindex, or_new-subscr_in}

abbrev pub Membership : Type 0
Membership = In6Addr → ℕ → In6Addr → Option SubscrNode

-- One entry is written, unless all sources are excluded.
abbrev pub refreshed : ℕ → In6Addr → ℕ → In6Addr → ℕ → Membership → Membership
refreshed now mca ifindex src mode m k i j =
    if mode == mode_is_exclude && is_addr_unspecified src
    then m k i j
    else if mca == k && ifindex == i && src == j
    then some (record { ipv6 = src; mode = mode; refreshtime = now })
    else m k i j

-- The node of an interface is in the registry under its keys.
pub record IsAt (groups : LinkedList GroupNode) (mca : In6Addr) (ifindex : ℕ) (gi : GrpIntNode)
    : Type 0 where
  pub there : grpint_at groups mca ifindex ≡ some gi
  pub named : gi.ifindex ≡ ifindex

module _ (a : Alloc) (now : ℕ) (m : HasMemory a) where
  -- Refreshing a node that is in the registry, and writing it back.
  pub store_grpint-refreshed :
      (groups : LinkedList GroupNode) (mca : In6Addr) (ifindex : ℕ) (gi : GrpIntNode)
      (src : In6Addr) (mode : ℕ)
      → IsAt groups mca ifindex gi
      → subscribed (store_grpint groups mca (grpint_refresh a now gi src mode).1)
        ≡ refreshed now mca ifindex src mode (subscribed groups)
  store_grpint-refreshed groups mca ifindex gi src mode v =
      fun_ext λ k. fun_ext λ i. fun_ext λ j. at k i j
    where
      at :
          (k : In6Addr) (i : ℕ) (j : In6Addr)
          → subscribed (store_grpint groups mca (grpint_refresh a now gi src mode).1) k i j
            ≡ refreshed now mca ifindex src mode (subscribed groups) k i j
      at k i j =
          let gi' = (grpint_refresh a now gi src mode).1 in
          let named = grpint_refresh-ifindex a now gi src mode ∙ v.named in
          let written = store_grpint-at groups mca k gi' i in
          let result = subscr_find-grpint_refresh a now gi src j mode m.subscr m.subscr_link in
          elim (Bool-cases (mca == k)) [
            | inr other ↦ rw (written, other) (ground arith)
            | inl group ↦ elim (Bool-cases (ifindex == i)) [
              | inr other ↦ rw (written, named, group, other) (ground arith)
              | inl int ↦
                  let here : grpint_at groups k i ≡ some gi =
                    rw⁻¹ (eq_of_== mca k group, eq_of_== ifindex i int) v.there in
                  rw (written, named, group, int, here) result
            ]
          ]

  pub store_grpint-IsAt :
      (groups : LinkedList GroupNode) (mca : In6Addr) (ifindex : ℕ) (gi : GrpIntNode)
      (src : In6Addr) (mode : ℕ)
      → IsAt groups mca ifindex gi
      → IsAt
          (store_grpint groups mca (grpint_refresh a now gi src mode).1)
          mca
          ifindex
          (grpint_refresh a now gi src mode).1
  store_grpint-IsAt groups mca ifindex gi src mode v =
      let gi' = (grpint_refresh a now gi src mode).1 in
      let named = grpint_refresh-ifindex a now gi src mode ∙ v.named in
      record {
        there = ground (arith, store_grpint-at groups mca mca gi' ifindex, v.there);
        named = named;
      }

  -- The node that `groupint_get` hands out is in the registry, and nobody's subscription changes.
  pub groupint_get-IsAt :
      (groups : LinkedList GroupNode) (mca : In6Addr) (ifindex : ℕ)
      → IsAt
          (groupint_get a now groups mca ifindex).groups
          mca
          ifindex
          (or_new ifindex (grpint_at groups mca ifindex))
  groupint_get-IsAt groups mca ifindex = record {
    there = ground (arith, groupint_get-at a now ifindex m groups mca mca ifindex);
    named = or_new-ifindex ifindex (group_find groups.items mca);
  }

  pub groupint_get-subscribed :
      (groups : LinkedList GroupNode) (mca : In6Addr) (ifindex : ℕ)
      → subscribed (groupint_get a now groups mca ifindex).groups ≡ subscribed groups
  groupint_get-subscribed groups mca ifindex = fun_ext λ k. fun_ext λ i. fun_ext λ j. at k i j
    where
      at :
          (k : In6Addr) (i : ℕ) (j : In6Addr)
          → subscribed (groupint_get a now groups mca ifindex).groups k i j
            ≡ subscribed groups k i j
      at k i j =
          let got = groupint_get-at a now ifindex m groups mca k i in
          elim (Bool-cases (mca == k)) [
            | inr other ↦ rw (got, other) refl
            | inl group ↦ elim (Bool-cases (ifindex == i)) [
              | inr other ↦ rw (got, group, other) refl
              | inl int ↦
                  rw (got, group, int, eq_of_== mca k group, eq_of_== ifindex i int)
                    (or_new-subscr_in i j (grpint_at groups k i))
            ]
          ]
