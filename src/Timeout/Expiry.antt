-- ===== src/Timeout/Expiry.antt =====
-- What `timeout` of src/ecmh.c removes, and what it leaves.
use ecmh.Prelude.{
  ℕ, ◌*◌, ◌≡◌, refl, ◌∙◌, inl, inr, Bool, not, ◌==◌, ltb, none, some, List, [], ◌∷◌,
  is_minus_two_or_less, All, keep_if, find_by, find_by-absent, IsDistinct, arith, Bool-cases,
  if◌then◌else◌,
}
use ecmh.Addr.{In6Addr}
use ecmh.LinkList.Laws.{list_loop2_delete-items, list_loop2_delete-IsTallied, list_loop2_delete-nil}
use ecmh.Subscr.{ipv6_of, subscr_find}
use ecmh.GrpInt.{GrpIntNode}
use ecmh.GrpInt.Laws.{IsSound}
use ecmh.Groups.{GroupNode, subscription_timeout, robustness_factor}
use ecmh.Groups.WellFormed.{IsSoundGroup}
use ecmh.Timeout.{age, is_dead, expire_subscrs, each_grpint, expire_grpints, is_reduced}

-- A search among the entries that are kept, when no key is there twice.
pub find_by-keep_if {ℓ} :
    {A : Type ℓ} (key : A → ℕ) (p : A → Bool) (xs : List A) (k : ℕ)
    → IsDistinct key xs
    → find_by key (keep_if p xs) k
      ≡ (elim (find_by key xs k) [ none ↦ none | some x ↦ if p x then some x else none ])
unfolding find_by
find_by-keep_if key p [] k d = refl
find_by-keep_if key p (x ∷ xs) k d = elim (Bool-cases (key x == k)) [
  | inr other ↦ ground (arith, find_by-keep_if key p xs k d.1)
  | inl same ↦ elim (Bool-cases (p x)) [
    | inl kept ↦ rw (same, kept, same) refl
    | inr gone ↦
        rw
          (
            same,
            gone,
            find_by-keep_if key p xs k d.1,
            find_by-absent key (key x) xs k (ground arith) d.0,
          )
          refl
  ]
]

-- In a sound list of subscriptions, after `timeout` a subscription is there exactly if it was there
-- before and was refreshed no longer ago than the subscription timeout times the robustness factor.
pub subscr_find-expire_subscrs :
    (now : ℕ) (g : GrpIntNode) (ipv6 : In6Addr)
    → IsSound g.subscriptions
    → subscr_find (expire_subscrs now g).subscriptions ipv6
      ≡ (elim (subscr_find g.subscriptions ipv6) [
        | none ↦ none
        | some s ↦
            if ltb (subscription_timeout * robustness_factor) (age now s.refreshtime)
            then none
            else some s
      ])
unfolding expire_subscrs is_dead
subscr_find-expire_subscrs now g ipv6 v = ground (
  arith,
  list_loop2_delete-items (is_dead now) g.subscriptions,
  find_by-keep_if ipv6_of (λ s. not (is_dead now s)) g.subscriptions.items ipv6 v.distinct,
)

-- An interface of a group whose count was set to -2 when its last listener left.
abbrev pub is_marked : GrpIntNode → Bool
is_marked g = is_minus_two_or_less g.subscriptions.count

is_reduced-expire_subscrs :
    (now : ℕ) (g : GrpIntNode)
    → IsSound g.subscriptions
    → is_reduced (expire_subscrs now g) ≡ is_marked g
unfolding expire_subscrs
is_reduced-expire_subscrs now g v = elim v.counted [
  | inl h ↦ ground (arith, list_loop2_delete-IsTallied (is_dead now) g.subscriptions h)
  | inr (e, h) ↦ ground (arith, list_loop2_delete-nil (is_dead now) g.subscriptions e)
]

keep_if-each_grpint :
    (now : ℕ) (gs : List GrpIntNode)
    → All (λ g. IsSound g.subscriptions) gs
    → keep_if (λ g. not (is_reduced g)) (each_grpint now gs)
      ≡ each_grpint now (keep_if (λ g. not (is_marked g)) gs)
keep_if-each_grpint now [] a = refl
keep_if-each_grpint now (g ∷ gs) a =
    ground (arith, is_reduced-expire_subscrs now g a.0, keep_if-each_grpint now gs a.1)

-- `timeout` removes from a sound group exactly the interfaces whose last listener has left by a
-- Done message, and expires the subscriptions of the others. An interface whose subscriptions have
-- all expired stays.
pub interfaces-expire_grpints :
    (now : ℕ) (g : GroupNode)
    → IsSoundGroup g
    → (expire_grpints now g).interfaces.items
      ≡ each_grpint now (keep_if (λ i. not (is_marked i)) g.interfaces.items)
unfolding expire_grpints
interfaces-expire_grpints now g v =
    list_loop2_delete-items is_reduced
      (record g.interfaces { items = each_grpint now g.interfaces.items })
    ∙ keep_if-each_grpint now g.interfaces.items v.sound
