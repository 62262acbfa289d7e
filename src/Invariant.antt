-- ===== src/Invariant.antt =====
-- The registry of groups under `timeout` and `handleinterfaces`, which the main loop of src/ecmh.c
-- calls in some order.
mod Handlers
pub mod Reachable
pub mod Runs
pub mod Liveness
use ecmh.Prelude.{
  ℕ, suc, ◌+◌, ◌≡◌, refl, sym, ◌∙◌, inl, inr, Bool, true, false, not, ◌&&◌, ◌||◌, ◌==◌, Option,
  none, some, Bool-cases, Option-cases, arith, if◌then◌else◌,
}
use mathlib.Core.Path.{subst}
use ecmh.Addr.{is_addr_linklocal, is_addr_multicast, addr_at}
use ecmh.Memory.{Memory, ntohs_at}
use ecmh.Groups.WellFormed.{IsRegistry}
use ecmh.Conf.{World, Env, int_at, with_conf}
use ecmh.Interfaces.{int_find, int_create}
use ecmh.Interfaces.Update.{update_interfaces}
use ecmh.Send.{icmp6_send}
use ecmh.Mld.Query.{send_mld_querys}
use ecmh.Mld.Quiet.{groups_of, groups-icmp6_send, groups-send_mld_querys}
use ecmh.Mld.Listen.WellFormed.{HasRegistry, mld1_report-HasRegistry, mld1_reduction-HasRegistry}
use ecmh.Mld.Listen.Records.{mld2_report-HasRegistry}
use ecmh.Timeout.{expire_groups, timeout}
use ecmh.Timeout.WellFormed.{expire_groups-IsRegistry}
use ecmh.Input.{
  Received, Walk, payload, corrupt, out_of_fuel, count_icmp_received, count_hlim, with_checksum,
  is_handled_type, is_report2_type, mld_message, echo_request, l3_payload, created, find_or_create,
  handle_on, l4_ipv6_icmpv6, l3_ipv6, l2_ethtype, handleinterfaces, walk, lower_hlim, eth_p_ipv6,
}
use Handlers.{multicast-HasRegistry, groups-mld_query}
use ecmh.Interfaces.Quiet.{groups-int_create, groups-update_interfaces}

module _ (e : Env) where
  mld_message-HasRegistry :
      (p : ℕ) (mem : Memory) (off plen : ℕ) (w : World)
      → HasRegistry w
      → HasRegistry (mld_message e p mem off plen w)
  mld_message-HasRegistry p mem off plen w v = elim (Bool-cases (mem off == 131)) [
    | inl report ↦ rw report (mld1_report-HasRegistry e p _ w v)
    | inr m₁ ↦ elim (Bool-cases (mem off == 132)) [
      | inl reduction ↦ rw (m₁, reduction) (mld1_reduction-HasRegistry e p _ w v)
      | inr m₂ ↦ elim (Bool-cases (is_report2_type (mem off))) [
        | inl report2 ↦ rw (m₁, m₂, report2) (mld2_report-HasRegistry e p mem off plen w v)
        | inr m₃ ↦ elim (Bool-cases (mem off == 130)) [
          | inl query ↦
              rw (m₁, m₂, m₃, query) (subst IsRegistry (sym (groups-mld_query e p plen w)) v)
          | inr m₄ ↦ rw (m₁, m₂, m₃, m₄) v
        ]
      ]
    ]
  ]

  echo_request-HasRegistry :
      (p : ℕ) (mem : Memory) (len off plen : ℕ) (w : World)
      → HasRegistry w
      → HasRegistry (echo_request e p mem len off plen w)
  echo_request-HasRegistry p mem len off plen w v = elim (Bool-cases (lower_hlim mem 7 == 0)) [
    | inl over ↦ rw over (subst IsRegistry (sym (groups-icmp6_send e p _ _ _ _ _ _)) v)
    | inr left ↦ rw left (multicast-HasRegistry e p _ len w v)
  ]

  icmpv6-HasRegistry :
      (p : ℕ) (mem : Memory) (len off plen : ℕ) (w : World)
      → HasRegistry w
      → HasRegistry (l4_ipv6_icmpv6 e p mem len off plen w)
  unfolding l4_ipv6_icmpv6
  icmpv6-HasRegistry p mem len off plen w v =
      let summed = with_checksum mem off plen in
      let counted = count_icmp_received p w in
      elim (Bool-cases (not (is_handled_type (mem off)))) [
        | inl other ↦ rw other v
        | inr handled ↦ elim (Bool-cases (summed off == 128)) [
          | inl echo ↦ rw (handled, echo) (echo_request-HasRegistry p summed len off plen counted v)
          | inr mld ↦ elim (Bool-cases (not (is_addr_linklocal (addr_at summed 8)))) [
            | inl far ↦ rw (handled, mld, far) v
            | inr near ↦
                rw (handled, mld, near) (mld_message-HasRegistry p summed off plen counted v)
          ]
        ]
      ]

  l3_payload-HasRegistry :
      (p : ℕ) (mem : Memory) (len : ℕ) (w : World) (r : Walk)
      → HasRegistry w
      → HasRegistry (l3_payload e p mem len w r)
  l3_payload-HasRegistry p mem len w out_of_fuel v = v
  l3_payload-HasRegistry p mem len w corrupt v = v
  l3_payload-HasRegistry p mem len w (payload type off plen) v = elim (Bool-cases (type == 58)) [
    | inl icmp ↦ rw icmp (icmpv6-HasRegistry p mem len off plen w v)
    | inr other ↦ elim (Bool-cases (lower_hlim mem 7 == 0)) [
      | inl over ↦ rw (other, over) v
      | inr left ↦ rw (other, left) (multicast-HasRegistry e p _ len w v)
    ]
  ]

  l3_ipv6-HasRegistry :
      (p : ℕ) (mem : Memory) (len : ℕ) (w : World)
      → HasRegistry w
      → HasRegistry (l3_ipv6 e p mem len w)
  unfolding l3_ipv6
  l3_ipv6-HasRegistry p mem len w v =
      let i = int_at w.conf.ints p in
      let src = addr_at mem 8 in
      elim (Bool-cases
        (not (is_addr_multicast (addr_at mem 24)) || src == i.linklocal || src == i.global)) [
          | inl stop ↦ rw stop v
          | inr go ↦ rw go (
              l3_payload-HasRegistry p mem len w
                (walk (suc len) mem len (mem 6) 40 (ntohs_at mem 4)) v)
        ]

  l2_ethtype-HasRegistry :
      (p : ℕ) (mem : Memory) (len ether_type : ℕ) (w : World)
      → HasRegistry w
      → HasRegistry (l2_ethtype e p mem len ether_type w)
  unfolding l2_ethtype
  l2_ethtype-HasRegistry p mem len ether_type w v = elim (Bool-cases (ether_type == eth_p_ipv6)) [
    | inl ip6 ↦ rw ip6 (l3_ipv6-HasRegistry p mem _ w v)
    | inr other ↦ rw other v
  ]

  handle_on-HasRegistry :
      (r : Received) (o : Option ℕ × World) → HasRegistry o.1 → HasRegistry (handle_on e r o)
  handle_on-HasRegistry r (none, w) v = v
  handle_on-HasRegistry r (some p, w) v = l2_ethtype-HasRegistry p r.mem r.len r.protocol _ v

  created-HasRegistry : (o : Option ℕ × World) → HasRegistry o.1 → HasRegistry (created e o).1
  created-HasRegistry (none, w) v = v
  created-HasRegistry (some p, w) v =
      subst IsRegistry (sym (groups-update_interfaces e (some p) w)) v

  find_or_create-HasRegistry :
      (ifindex : ℕ) (w : World) (o : Option ℕ)
      → HasRegistry w
      → HasRegistry (find_or_create e ifindex w o).1
  find_or_create-HasRegistry ifindex w (some p) v = v
  find_or_create-HasRegistry ifindex w none v =
      created-HasRegistry (int_create e ifindex w)
        (subst IsRegistry (sym (groups-int_create e ifindex w)) v)

  -- Whatever comes in from the network, the registry of groups stays well formed.
  pub handleinterfaces-HasRegistry :
      (o : Option Received) (w : World) → HasRegistry w → HasRegistry (handleinterfaces e o w).1
  unfolding handleinterfaces
  handleinterfaces-HasRegistry none w v = v
  handleinterfaces-HasRegistry (some r) w v = elim (Bool-cases (r.hatype == 772 || r.outgoing)) [
    | inl own ↦ rw own v
    | inr foreign ↦ rw foreign (
        handle_on-HasRegistry r _
          (find_or_create-HasRegistry r.ifindex _ (int_find w.conf r.ifindex) v))
  ]

  -- The periodic clean-up keeps the registry of groups well formed.
  pub timeout-HasRegistry : (w : World) → HasRegistry w → HasRegistry (timeout e w)
  unfolding timeout
  timeout-HasRegistry w v =
      let updated = subst IsRegistry (sym (groups-update_interfaces e none w)) v in
      subst IsRegistry (sym (groups-send_mld_querys e _))
        (expire_groups-IsRegistry e.now (update_interfaces e none w).conf.groups updated)
