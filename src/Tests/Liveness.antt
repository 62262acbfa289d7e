-- ===== src/Tests/Liveness.antt =====
-- The end of a subscription in a run of the daemon of src/ecmh.c.
use ecmh.Prelude.{◌≡◌, refl, true, some, none, [], ◌∷◌, arith}
use ecmh.Addr.{
  is_addr_multicast, is_addr_linklocal, is_addr_mc_nodelocal, is_addr_mc_linklocal, addr_from,
  addr_any,
}
use ecmh.Memory.{write_bytes, addr_bytes}
use ecmh.LinkList.{list_loop2_delete}
use ecmh.GrpInt.{grpint_refresh}
use ecmh.Groups.{groupint_get}
use ecmh.Interfaces.{int_find, grow, int_create, seen_version, int_set_mld_version}
use ecmh.Interfaces.Update.{update_interfaces}
use ecmh.Mld.Query.{query_from, send_mld_querys}
use ecmh.Mld.Reports.{report_from, mld_send_report_all}
use ecmh.Mld.Listen.{records, mld2_report}
use ecmh.Timeout.{expire_groups, timeout}
use ecmh.Input.{l4_ipv6_icmpv6, walk, l3_ipv6, l2_ethtype, handleinterfaces, Received}
use ecmh.Main.{init, startup, main_round, timeout_signal, Daemon, verbose}
use ecmh.Conf.{Env}
use ecmh.Mld.Quiet.{groups_of}
use ecmh.Mld.Listen.Members.{subscribed}
use ecmh.Invariant.Reachable.{Reach, start, next, round, alarm}
use ecmh.Invariant.Liveness.{alarmed_round, alarmed_rounds, unrefreshed-ends}
use ecmh.Tests.{site_group, calm}
use ecmh.Tests.Registry.{message, woken, woken-is_running, accepted}

-- The daemon that has received the report.
abbrev told : Daemon
told = main_round calm (some message) woken

told-subscribed :
    subscribed (groups_of told.world) site_group 1 addr_any
    ≡ some (record { ipv6 = addr_any; mode = 1; refreshtime = 1000 })
unfolding is_addr_multicast is_addr_linklocal is_addr_mc_nodelocal is_addr_mc_linklocal addr_from
    write_bytes addr_bytes list_loop2_delete grpint_refresh groupint_get int_find grow int_create
    seen_version int_set_mld_version update_interfaces query_from send_mld_querys report_from
    mld_send_report_all records mld2_report expire_groups timeout l4_ipv6_icmpv6 walk l3_ipv6
    l2_ethtype handleinterfaces init startup main_round timeout_signal
told-subscribed = refl

told-Reach : Reach told
told-Reach =
    next
      (next (start calm 100 (verbose ∷ []) (record (init 100) { verbose = true }) accepted)
        (alarm _))
      (round calm (some message) woken woken-is_running)

-- The system 1251 seconds after its start, and a packet that the host sends itself.
abbrev late : Env
late = record calm { now = 1251 }

abbrev own : Received
own = record message { outgoing = true }

unrefreshed-ends_example :
    subscribed
      (groups_of (alarmed_round (late, own) (alarmed_rounds ((calm, own) ∷ []) told)).world)
      site_group
      1
      addr_any
    ≡ none
unrefreshed-ends_example =
    unrefreshed-ends site_group 1 addr_any told
      (record { ipv6 = addr_any; mode = 1; refreshtime = 1000 }) ((calm, own) ∷ []) late own
      told-Reach told-subscribed (refl, tt) refl (omega arith) (omega arith)
