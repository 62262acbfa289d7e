-- ===== src/Timeout/Members.antt =====
-- What `timeout` of src/ecmh.c does to the subscriptions, as a map from the group, the interface
-- and the source.
use ecmh.Prelude.{
  ◌+◌, ◌-◌, ◌%◌, ◌^◌, ℕ, ◌≡◌, refl, sym, ap, ◌∙◌, inl, inr, true, not, ltb, Option, none, some,
  List, [], ◌∷◌, pos, is_null, is_minus_two_or_less, length, find_by, find_by-All, arith,
  Bool-cases, if◌then◌else◌,
}
use mathlib.Core.Path.{subst}
use ecmh.Addr.{In6Addr}
use ecmh.LinkList.{LinkedList}
use ecmh.LinkList.Laws.{IsTallied, IsCounted, list_loop2_delete-items}
use ecmh.Subscr.{SubscrNode, ipv6_of}
use ecmh.GrpInt.{GrpIntNode, ifindex_of, grpint_find}
use ecmh.GrpInt.Laws.{IsSound}
use ecmh.Groups.{GroupNode, mca_of, group_find}
use ecmh.Groups.WellFormed.{IsSoundGroup, IsRegistry}
use ecmh.Groups.Lookup.{grpint_in}
use ecmh.Conf.{World, Env}
use ecmh.Interfaces.Update.{update_interfaces}
use ecmh.Interfaces.Quiet.{groups-update_interfaces}
use ecmh.Mld.Quiet.{groups_of, groups-send_mld_querys}
use ecmh.Mld.Listen.Members.{subscr_in, subscribed}
use ecmh.Timeout.{
  expire_subscrs, each_grpint, expire_grpints, each_group, expire_groups, is_reduced, is_deserted,
  timeout,
}
use ecmh.Timeout.Expiry.{find_by-keep_if, subscr_find-expire_subscrs}
use ecmh.Timeout.WellFormed.{
  expire_subscrs-IsSound, each_grpint-IsDistinct, each_group-IsDistinct,
  expire_grpints-IsSoundGroup,
}

-- The absolute value of the difference of two times, as a signed number of 64 bits.
abbrev pub seconds_apart : ℕ → ℕ → ℕ
seconds_apart now time =
    let later = (now + 2 ^ 64 - time) % 2 ^ 64 in
    if ltb later (2 ^ 63) then later else 2 ^ 64 - later

-- A subscription that is not older than 250 seconds.
abbrev pub if_live : ℕ → Option SubscrNode → Option SubscrNode
if_live now none = none
if_live now (some s) = if ltb 250 (seconds_apart now s.refreshtime) then none else some s

abbrev map_grpint : ℕ → Option GrpIntNode → Option GrpIntNode
map_grpint now none = none
map_grpint now (some g) = some (expire_subscrs now g)

abbrev map_group : ℕ → Option GroupNode → Option GroupNode
map_group now none = none
map_group now (some g) = some (expire_grpints now g)

find_by-each_grpint :
    (now : ℕ) (gs : List GrpIntNode) (i : ℕ)
    → find_by ifindex_of (each_grpint now gs) i ≡ map_grpint now (find_by ifindex_of gs i)
unfolding find_by expire_subscrs
find_by-each_grpint now [] i = refl
find_by-each_grpint now (g ∷ gs) i = ground (arith, find_by-each_grpint now gs i)

find_by-each_group :
    (now : ℕ) (gs : List GroupNode) (k : In6Addr)
    → find_by mca_of (each_group now gs) k ≡ map_group now (find_by mca_of gs k)
unfolding find_by expire_grpints
find_by-each_group now [] k = refl
find_by-each_group now (g ∷ gs) k = ground (arith, find_by-each_group now gs k)

-- A list with such a count has no entry.
reduced_nil :
    (l : LinkedList SubscrNode) → IsCounted l → is_minus_two_or_less l.count ≡ true → l.items ≡ []
reduced_nil l (inl h) e = absurd (ground arith)
reduced_nil l (inr (h, _)) e = h

deserted_nil : (l : LinkedList GrpIntNode) → IsTallied l → is_null l.count ≡ true → l.items ≡ []
deserted_nil l h e = no_entry l.items (ground arith)
  where
    no_entry : (xs : List GrpIntNode) → is_null (pos (length xs)) ≡ true → xs ≡ []
    no_entry [] m = refl
    no_entry (x ∷ xs) m = cc

-- The subscriptions of an interface after its turn, when the interface may be removed.
kept_grpint :
    (now : ℕ) (o : Option GrpIntNode) (j : In6Addr)
    → ((g : GrpIntNode) → o ≡ some g → IsSound g.subscriptions)
    → subscr_in j (elim (map_grpint now o) [
      | none ↦ none
      | some x ↦ if not (is_reduced x) then some x else none
    ])
      ≡ if_live now (subscr_in j o)
unfolding find_by
kept_grpint now none j s = refl
kept_grpint now (some g) j s =
    let sound = s g refl in
    let aged = subscr_find-expire_subscrs now g j sound in
    elim (Bool-cases (is_reduced (expire_subscrs now g))) [
      | inr stays ↦ rw stays aged
      | inl goes ↦
          let nothing =
            reduced_nil (expire_subscrs now g).subscriptions
              (expire_subscrs-IsSound now g sound).counted goes in
          rw goes (ap (λ xs. find_by ipv6_of xs j) (sym nothing) ∙ aged)
    ]

expire_grpints-subscr :
    (now : ℕ) (g : GroupNode) (i : ℕ) (j : In6Addr)
    → IsSoundGroup g
    → subscr_in j (grpint_in i (some (expire_grpints now g)))
      ≡ if_live now (subscr_in j (grpint_in i (some g)))
unfolding expire_grpints
expire_grpints-subscr now g i j v =
    let aged : LinkedList GrpIntNode = record g.interfaces {
      items = each_grpint now g.interfaces.items;
    } in
    let kept = list_loop2_delete-items is_reduced aged in
    let found =
      find_by-keep_if ifindex_of (λ x. not (is_reduced x)) aged.items i
        (each_grpint-IsDistinct now g.interfaces.items v.distinct) in
    let mapped = find_by-each_grpint now g.interfaces.items i in
    rw (kept, found, mapped)
      (kept_grpint now (grpint_find g.interfaces.items i) j (λ x e.
        find_by-All ifindex_of (λ (x : GrpIntNode). IsSound x.subscriptions) g.interfaces.items i x
          v.sound e))

-- The same for a group.
kept_group :
    (now : ℕ) (o : Option GroupNode) (i : ℕ) (j : In6Addr)
    → ((g : GroupNode) → o ≡ some g → IsSoundGroup g)
    → subscr_in j (
        grpint_in i (elim (map_group now o) [
          | none ↦ none
          | some x ↦ if not (is_deserted x) then some x else none
        ]))
      ≡ if_live now (subscr_in j (grpint_in i o))
unfolding find_by
kept_group now none i j s = refl
kept_group now (some g) i j s =
    let sound = s g refl in
    let aged = expire_grpints-subscr now g i j sound in
    elim (Bool-cases (is_deserted (expire_grpints now g))) [
      | inr stays ↦ rw stays aged
      | inl goes ↦
          let nothing =
            deserted_nil (expire_grpints now g).interfaces
              (expire_grpints-IsSoundGroup now g sound).tallied goes in
          rw goes (ap (λ xs. subscr_in j (find_by ifindex_of xs i)) (sym nothing) ∙ aged)
    ]

expire_groups-subscribed :
    (now : ℕ) (groups : LinkedList GroupNode) (k : In6Addr) (i : ℕ) (j : In6Addr)
    → IsRegistry groups
    → subscribed (expire_groups now groups) k i j ≡ if_live now (subscribed groups k i j)
unfolding expire_groups
expire_groups-subscribed now groups k i j v =
    let aged : LinkedList GroupNode = record groups { items = each_group now groups.items } in
    let kept = list_loop2_delete-items is_deserted aged in
    let found =
      find_by-keep_if mca_of (λ x. not (is_deserted x)) aged.items k
        (each_group-IsDistinct now groups.items v.distinct) in
    let mapped = find_by-each_group now groups.items k in
    rw (kept, found, mapped)
      (kept_group now (group_find groups.items k) i j
        (λ x e. find_by-All mca_of IsSoundGroup groups.items k x v.sound e))

module _ (e : Env) where
  -- In a well-formed registry, `timeout` ends exactly the subscriptions whose last refresh is more
  -- than 250 seconds away from now, by the difference of the two times as a signed number of 64
  -- bits: no other is lost when interfaces and groups are removed.
  pub timeout-subscribed :
      (w : World) (k : In6Addr) (i : ℕ) (j : In6Addr)
      → IsRegistry (groups_of w)
      → subscribed (groups_of (timeout e w)) k i j ≡ if_live e.now (subscribed (groups_of w) k i j)
  unfolding timeout
  timeout-subscribed w k i j v =
      let same = groups-update_interfaces e none w in
      rw (groups-send_mld_querys e _) (
        expire_groups-subscribed e.now (update_interfaces e none w).conf.groups k i j
          (subst IsRegistry (sym same) v)
        ∙ rw same refl)
