-- ===== src/Timeout/WellFormed.antt =====
-- The registry of groups under the loops of `timeout` of src/ecmh.c.
use ecmh.Prelude.{
  ℕ, suc, ◌≡◌, ◌≢◌, refl, sym, ap, ◌∙◌, List, [], ◌∷◌, pos, length, All, keep_if-All,
  keep_if-IsDistinct, IsDistinct,
}
use ecmh.LinkList.{LinkedList}
use ecmh.LinkList.Laws.{
  list_loop2_delete-items, list_loop2_delete-IsTallied, list_loop2_delete-IsCounted,
}
use ecmh.Subscr.{ipv6_of}
use ecmh.GrpInt.{GrpIntNode, ifindex_of}
use ecmh.GrpInt.Laws.{IsSound}
use ecmh.Groups.{GroupNode, mca_of}
use ecmh.Groups.WellFormed.{IsSoundGroup, IsRegistry}
use ecmh.Timeout.{
  expire_subscrs, each_grpint, expire_grpints, each_group, expire_groups, is_dead, is_reduced,
  is_deserted,
}

pub expire_subscrs-IsSound :
    (now : ℕ) (g : GrpIntNode)
    → IsSound g.subscriptions
    → IsSound (expire_subscrs now g).subscriptions
unfolding expire_subscrs
expire_subscrs-IsSound now g v = record {
  counted = list_loop2_delete-IsCounted (is_dead now) g.subscriptions v.counted;
  distinct =
      rw (list_loop2_delete-items (is_dead now) g.subscriptions)
        (keep_if-IsDistinct ipv6_of _ g.subscriptions.items v.distinct);
}

each_grpint-length : (now : ℕ) (gs : List GrpIntNode) → length (each_grpint now gs) ≡ length gs
each_grpint-length now [] = refl
each_grpint-length now (g ∷ gs) = ap suc (each_grpint-length now gs)

each_grpint-All_ne :
    (now n : ℕ) (gs : List GrpIntNode)
    → All (λ y. n ≢ ifindex_of y) gs
    → All (λ y. n ≢ ifindex_of y) (each_grpint now gs)
unfolding expire_subscrs
each_grpint-All_ne now n [] a = tt
each_grpint-All_ne now n (g ∷ gs) a = (a.0, each_grpint-All_ne now n gs a.1)

pub each_grpint-IsDistinct :
    (now : ℕ) (gs : List GrpIntNode)
    → IsDistinct ifindex_of gs
    → IsDistinct ifindex_of (each_grpint now gs)
unfolding expire_subscrs
each_grpint-IsDistinct now [] d = tt
each_grpint-IsDistinct now (g ∷ gs) d =
    (each_grpint-All_ne now g.ifindex gs d.0, each_grpint-IsDistinct now gs d.1)

abbrev HasSound : GrpIntNode → Type 0
HasSound g = IsSound g.subscriptions

each_grpint-All :
    (now : ℕ) (gs : List GrpIntNode) → All HasSound gs → All HasSound (each_grpint now gs)
each_grpint-All now [] a = tt
each_grpint-All now (g ∷ gs) a = (expire_subscrs-IsSound now g a.0, each_grpint-All now gs a.1)

pub expire_grpints-IsSoundGroup :
    (now : ℕ) (g : GroupNode) → IsSoundGroup g → IsSoundGroup (expire_grpints now g)
unfolding expire_grpints
expire_grpints-IsSoundGroup now g v =
    let aged : LinkedList GrpIntNode = record g.interfaces {
      items = each_grpint now g.interfaces.items;
    } in
    record {
      tallied =
          list_loop2_delete-IsTallied is_reduced aged
            (v.tallied ∙ ap pos (sym (each_grpint-length now g.interfaces.items)));
      distinct = rw (list_loop2_delete-items is_reduced aged) (
          keep_if-IsDistinct ifindex_of _ aged.items
            (each_grpint-IsDistinct now g.interfaces.items v.distinct));
      sound = rw (list_loop2_delete-items is_reduced aged) (
          keep_if-All ifindex_of HasSound _ aged.items
            (each_grpint-All now g.interfaces.items v.sound));
    }

each_group-length : (now : ℕ) (gs : List GroupNode) → length (each_group now gs) ≡ length gs
each_group-length now [] = refl
each_group-length now (g ∷ gs) = ap suc (each_group-length now gs)

each_group-All_ne :
    (now n : ℕ) (gs : List GroupNode)
    → All (λ y. n ≢ mca_of y) gs
    → All (λ y. n ≢ mca_of y) (each_group now gs)
unfolding expire_grpints
each_group-All_ne now n [] a = tt
each_group-All_ne now n (g ∷ gs) a = (a.0, each_group-All_ne now n gs a.1)

pub each_group-IsDistinct :
    (now : ℕ) (gs : List GroupNode) → IsDistinct mca_of gs → IsDistinct mca_of (each_group now gs)
unfolding expire_grpints
each_group-IsDistinct now [] d = tt
each_group-IsDistinct now (g ∷ gs) d =
    (each_group-All_ne now g.mca gs d.0, each_group-IsDistinct now gs d.1)

each_group-All :
    (now : ℕ) (gs : List GroupNode) → All IsSoundGroup gs → All IsSoundGroup (each_group now gs)
each_group-All now [] a = tt
each_group-All now (g ∷ gs) a = (expire_grpints-IsSoundGroup now g a.0, each_group-All now gs a.1)

-- The three nested loops delete nodes while they walk, and keep the registry of groups well formed.
pub expire_groups-IsRegistry :
    (now : ℕ) (l : LinkedList GroupNode) → IsRegistry l → IsRegistry (expire_groups now l)
unfolding expire_groups
expire_groups-IsRegistry now l v =
    let aged : LinkedList GroupNode = record l { items = each_group now l.items } in
    record {
      tallied =
          list_loop2_delete-IsTallied is_deserted aged
            (v.tallied ∙ ap pos (sym (each_group-length now l.items)));
      distinct =
          rw (list_loop2_delete-items is_deserted aged)
            (keep_if-IsDistinct mca_of _ aged.items (each_group-IsDistinct now l.items v.distinct));
      sound =
          rw (list_loop2_delete-items is_deserted aged)
            (keep_if-All mca_of IsSoundGroup _ aged.items (each_group-All now l.items v.sound));
    }
