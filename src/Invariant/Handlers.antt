-- ===== src/Invariant/Handlers.antt =====
-- The registry of groups under `l4_ipv6_multicast` and `l4_ipv6_icmpv6_mld_query` of src/ecmh.c.
use ecmh.Prelude.{
  ℕ, ◌≡◌, refl, sym, ap, ◌∙◌, inl, inr, ◌==◌, Option, none, some, List, [], ◌∷◌, pos, arith,
  Bool-cases, Option-cases, update_by, update_by-All, update_by-IsDistinct, length-update_by,
  if◌then◌else◌,
}
use mathlib.Core.Path.{subst}
use ecmh.Addr.{In6Addr, addr_at}
use ecmh.Memory.{Memory}
use ecmh.Subscr.{SubscrNode}
use ecmh.GrpInt.{GrpIntNode}
use ecmh.Groups.{GroupNode, mca_of, group_find}
use ecmh.Groups.WellFormed.{IsSoundGroup, IsRegistry}
use ecmh.Conf.{World, Env, int_at}
use ecmh.Interfaces.{int_find, int_set_mld_version}
use ecmh.Mld.Quiet.{groups_of, groups-sendpacket6, groups-mld2_send_report, groups-mld_send_report}
use ecmh.Mld.Listen.{mld_query, answer_groups, answer_grpints}
use ecmh.Mld.Listen.WellFormed.{HasRegistry, groups-int_set_mld_version}
use ecmh.Forward.{
  l4_ipv6_multicast, forward_grpints, forward_subscrs, forward_group, count_group, is_not_routed,
  is_wanted_by,
}

module _ (e : Env) where
  groups-forward_subscrs :
      (ifindex : ℕ) (src : In6Addr) (iph : Memory) (len : ℕ) (ss : List SubscrNode) (w : World)
      → groups_of (forward_subscrs e ifindex src iph len ss w) ≡ groups_of w
  unfolding forward_subscrs
  groups-forward_subscrs ifindex src iph len [] w = refl
  groups-forward_subscrs ifindex src iph len (s ∷ ss) w =
      let rest = groups-forward_subscrs ifindex src iph len ss w in
      elim (Bool-cases (is_wanted_by src s)) [
        | inl wanted ↦ elim (Option-cases (int_find w.conf ifindex)) [
          | inl off ↦ rw (wanted, off) rest
          | inr (p, on) ↦ rw (wanted, on) (groups-sendpacket6 e p iph len w)
        ]
        | inr other ↦ rw other rest
      ]

  groups-forward_grpints :
      (p : ℕ) (src : In6Addr) (iph : Memory) (len : ℕ) (gs : List GrpIntNode) (w : World)
      → groups_of (forward_grpints e p src iph len gs w) ≡ groups_of w
  unfolding forward_grpints
  groups-forward_grpints p src iph len [] w = refl
  groups-forward_grpints p src iph len (g ∷ gs) w =
      groups-forward_grpints p src iph len gs _
      ∙ elim (Bool-cases ((int_at w.conf.ints p).ifindex == g.ifindex)) [
        | inl own ↦ rw own
        | inr foreign ↦
            rw foreign (groups-forward_subscrs g.ifindex src iph len g.subscriptions.items w)
      ]

  -- Forwarding a packet changes no more of a group than its counters.
  pub multicast-HasRegistry :
      (p : ℕ) (iph : Memory) (len : ℕ) (w : World)
      → HasRegistry w
      → HasRegistry (l4_ipv6_multicast e p iph len w)
  unfolding l4_ipv6_multicast
  multicast-HasRegistry p iph len w v =
      let src = addr_at iph 8 in
      let dst = addr_at iph 24 in
      elim (Bool-cases (is_not_routed src dst)) [
        | inl stop ↦ rw stop v
        | inr go ↦ rw go (found (group_find w.conf.groups.items dst))
      ]
    where
      counted : IsRegistry (record w.conf.groups {
        items = update_by mca_of (addr_at iph 24) (count_group len) w.conf.groups.items;
      })
      counted = record {
        tallied = v.tallied ∙ ap pos (sym (length-update_by mca_of _ _ w.conf.groups.items));
        distinct =
            update_by-IsDistinct mca_of _ (count_group len) w.conf.groups.items (λ x m. refl)
              v.distinct;
        sound =
            update_by-All mca_of IsSoundGroup _ (count_group len) w.conf.groups.items
              (λ x m h. record { tallied = h.tallied; distinct = h.distinct; sound = h.sound })
              v.sound;
      }

      found :
          (o : Option GroupNode)
          → HasRegistry (forward_group e p (addr_at iph 8) (addr_at iph 24) iph len w o)
      found none = v
      found (some g) =
          subst IsRegistry
            (sym (groups-forward_grpints p (addr_at iph 8) iph len g.interfaces.items _)) counted

  groups-answer_grpints :
      (p : ℕ) (mca : In6Addr) (gs : List GrpIntNode) (w : World)
      → groups_of (answer_grpints e p mca gs w) ≡ groups_of w
  unfolding answer_grpints
  groups-answer_grpints p mca [] w = refl
  groups-answer_grpints p mca (g ∷ gs) w =
      groups-answer_grpints p mca gs _
      ∙ elim (Bool-cases (g.ifindex == (int_at w.conf.ints p).ifindex)) [
        | inl own ↦ rw own (groups-mld_send_report e p mca w)
        | inr foreign ↦ rw foreign
      ]

  groups-answer_groups :
      (p : ℕ) (gs : List GroupNode) (w : World) → groups_of (answer_groups e p gs w) ≡ groups_of w
  unfolding answer_groups
  groups-answer_groups p [] w = refl
  groups-answer_groups p (g ∷ gs) w =
      groups-answer_groups p gs _ ∙ groups-answer_grpints p g.mca g.interfaces.items w

  pub groups-mld_query : (p plen : ℕ) (w : World) → groups_of (mld_query e p plen w) ≡ groups_of w
  unfolding mld_query
  groups-mld_query p plen w =
      let seen = int_set_mld_version e p (if plen == 24 then 1 else 2) w in
      ground (
        arith,
        groups-int_set_mld_version e p (if plen == 24 then 1 else 2) w,
        groups-answer_groups p seen.conf.groups.items seen,
        groups-mld2_send_report e p none seen,
      )
