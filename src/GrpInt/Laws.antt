-- ===== src/GrpInt/Laws.antt =====
-- What `grpint_refresh` and `subscr_unsub` do to the subscriptions of an interface.
use ecmh.Prelude.{
  ℕ, ◌≡◌, refl, ap, ◌∙◌, inl, inr, Bool, true, false, ◌&&◌, ◌==◌, Option, none, some, [], ◌∷◌,
  arith, sym, pos, Bool-cases, Option-cases, find_by, update_by, place_by, IsDistinct, find_by-none,
  find_by-key, find_by-append, find_by-update_by, update_by-IsDistinct, append-IsDistinct,
  length-update_by, if◌then◌else◌,
}
use ecmh.Addr.{In6Addr, is_addr_unspecified}
use ecmh.LinkList.{LinkedList, list_new, listnode_add}
use ecmh.LinkList.Laws.{
  IsCounted, listnode_add-IsCounted, remove_at-IsDistinct, list_delete_node-IsTallied,
}
use ecmh.Subscr.{SubscrNode, ipv6_of, mode_is_exclude, subscr_create, subscr_find, subscr_unsub}
use ecmh.GrpInt.{GrpIntNode, Alloc, refresh_node, subscribe, grpint_refresh}

-- The count fits the subscriptions, and no address is there twice.
pub record IsSound (l : LinkedList SubscrNode) : Type 0 where
  pub counted : IsCounted l
  pub distinct : IsDistinct ipv6_of l.items

pub list_new-IsSound : IsSound list_new
unfolding list_new
list_new-IsSound = record { counted = inl refl; distinct = tt }

listnode_add-IsDistinct :
    (ok : Bool) (l : LinkedList SubscrNode) (s : SubscrNode)
    → IsDistinct ipv6_of l.items
    → find_by ipv6_of l.items s.ipv6 ≡ none
    → IsDistinct ipv6_of (listnode_add ok l s).items
unfolding listnode_add
listnode_add-IsDistinct true l s d e =
    append-IsDistinct ipv6_of l.items s d (find_by-none ipv6_of l.items s.ipv6 e)
listnode_add-IsDistinct false l s d e = d

update_by-IsCounted :
    (l : LinkedList SubscrNode) (ipv6 : In6Addr) (mode now : ℕ)
    → IsCounted l
    → IsCounted (record l { items = update_by ipv6_of ipv6 (refresh_node mode now) l.items })
unfolding update_by
update_by-IsCounted l ipv6 mode now (inl h) =
    inl (h ∙ ap pos (sym (length-update_by ipv6_of ipv6 (refresh_node mode now) l.items)))
update_by-IsCounted l ipv6 mode now (inr (e, h)) = inr (rw e refl, h)

subscribe-IsSound :
    (a : Alloc) (now : ℕ) (l : LinkedList SubscrNode) (ipv6 : In6Addr) (mode : ℕ)
    (o : Option SubscrNode)
    → subscr_find l ipv6 ≡ o
    → IsSound l
    → IsSound (subscribe a now l ipv6 mode o).1
unfolding subscr_create
subscribe-IsSound a now l ipv6 mode (some s) e v = record {
  counted = update_by-IsCounted l ipv6 mode now v.counted;
  distinct =
      update_by-IsDistinct ipv6_of ipv6 (refresh_node mode now) l.items (λ x m. refl) v.distinct;
}
subscribe-IsSound a now l ipv6 mode none e v = elim (Bool-cases a.subscr) [
  | inl ok ↦ rw ok (record {
    counted = listnode_add-IsCounted a.subscr_link l _ v.counted;
    distinct = listnode_add-IsDistinct a.subscr_link l _ v.distinct e;
  })
  | inr no_memory ↦ rw no_memory v
]

-- A refresh keeps the subscriptions sound, whatever `calloc` returns.
pub grpint_refresh-IsSound :
    (a : Alloc) (now : ℕ) (g : GrpIntNode) (ipv6 : In6Addr) (mode : ℕ)
    → IsSound g.subscriptions
    → IsSound (grpint_refresh a now g ipv6 mode).1.subscriptions
unfolding grpint_refresh
grpint_refresh-IsSound a now g ipv6 mode v =
    elim (Bool-cases (mode == mode_is_exclude && is_addr_unspecified ipv6)) [
      | inl e ↦ rw e v
      | inr e ↦ rw e (
          subscribe-IsSound a now g.subscriptions ipv6 mode (subscr_find g.subscriptions ipv6) refl
            v)
    ]

pub grpint_refresh-ifindex :
    (a : Alloc) (now : ℕ) (g : GrpIntNode) (ipv6 : In6Addr) (mode : ℕ)
    → (grpint_refresh a now g ipv6 mode).1.ifindex ≡ g.ifindex
unfolding grpint_refresh
grpint_refresh-ifindex a now g ipv6 mode =
    elim (Bool-cases (mode == mode_is_exclude && is_addr_unspecified ipv6)) [
      | inl e ↦ rw e
      | inr e ↦ rw e
    ]

pub subscr_unsub-IsSound :
    (l : LinkedList SubscrNode) (ipv6 : In6Addr) → IsSound l → IsSound (subscr_unsub l ipv6).1
unfolding subscr_unsub
subscr_unsub-IsSound l ipv6 v = elim (Option-cases (place_by ipv6_of l.items ipv6)) [
  | inl e ↦ rw (e, subscr_unsub) v
  | inr (i, e) ↦
      rw (e, subscr_unsub)
        (record {
          counted = inl (list_delete_node-IsTallied ipv6_of l ipv6 i e v.counted);
          distinct = remove_at-IsDistinct ipv6_of l.items i v.distinct;
        })
]

subscribe_lem :
    (a : Alloc) (now : ℕ) (l : LinkedList SubscrNode) (ipv6 j : In6Addr) (mode : ℕ)
    (o : Option SubscrNode)
    → subscr_find l ipv6 ≡ o
    → a.subscr ≡ true
    → a.subscr_link ≡ true
    → subscr_find (subscribe a now l ipv6 mode o).1 j ≡ (
        if ipv6 == j
        then some (record { ipv6 = ipv6; mode = mode; refreshtime = now })
        else subscr_find l j)
unfolding subscr_create listnode_add find_by
subscribe_lem a now l ipv6 j mode (some s) e m₁ m₂ = ground (
  arith,
  find_by-update_by ipv6_of ipv6 j (refresh_node mode now) l.items (λ x m. refl),
  find_by-key ipv6_of l.items ipv6 s,
)
subscribe_lem a now l ipv6 j mode none e m₁ m₂ =
    let s : SubscrNode = record { ipv6 = ipv6; mode = mode; refreshtime = now } in
    rw (m₁, m₂, find_by-append ipv6_of l.items (s ∷ []) j) (ground arith)

-- With memory at hand, a refresh leaves exactly one trace: the address is subscribed in the given
-- mode from now on, and all other addresses are as they were. But a refresh that excludes all
-- sources changes nothing.
pub subscr_find-grpint_refresh :
    (a : Alloc) (now : ℕ) (g : GrpIntNode) (ipv6 j : In6Addr) (mode : ℕ)
    → a.subscr ≡ true
    → a.subscr_link ≡ true
    → subscr_find (grpint_refresh a now g ipv6 mode).1.subscriptions j ≡ (
        if mode == mode_is_exclude && is_addr_unspecified ipv6
        then subscr_find g.subscriptions j
        else if ipv6 == j
        then some (record { ipv6 = ipv6; mode = mode; refreshtime = now })
        else subscr_find g.subscriptions j)
unfolding grpint_refresh
subscr_find-grpint_refresh a now g ipv6 j mode m₁ m₂ =
    elim (Bool-cases (mode == mode_is_exclude && is_addr_unspecified ipv6)) [
      | inl e ↦ rw e
      | inr e ↦ rw e (
          subscribe_lem a now g.subscriptions ipv6 j mode (subscr_find g.subscriptions ipv6) refl m₁
            m₂)
    ]
