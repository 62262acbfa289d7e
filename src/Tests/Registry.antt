-- ===== src/Tests/Registry.antt =====
-- The theorems on the registry of groups at concrete inputs.
use ecmh.Prelude.{◌≡◌, refl, inl, true, false, some, [], ◌∷◌, ◌++◌, place_by}
use ecmh.Addr.{addr_any, is_addr_multicast, is_addr_mc_nodelocal, is_addr_mc_linklocal}
use ecmh.Subscr.{subscr_find, ipv6_of, mode_is_exclude}
use ecmh.GrpInt.{grpint_refresh}
use ecmh.GrpInt.Laws.{IsSound, subscr_find-grpint_refresh}
use ecmh.Groups.WellFormed.{IsSoundGroup, IsRegistry}
use ecmh.Groups.Lookup.{HasMemory}
use ecmh.Conf.{Env, int_at}
use ecmh.Interfaces.{int_set_mld_version}
use ecmh.Memory.{Memory, memory_of, addr_bytes}
use ecmh.Send.{ip6_header}
use ecmh.Mld.Query.{router_alert}
use ecmh.Mld.Quiet.{groups_of}
use ecmh.Mld.Listen.{mld1_report, mld1_reduction}
use ecmh.Mld.Listen.WellFormed.{HasRegistry}
use ecmh.Mld.Listen.Members.{subscribed, joined, mld1_report-subscribed}
use ecmh.Mld.Listen.FailingReport.{JoinedEntry, mld1_report-Joined}
use ecmh.Mld.Listen.Leaving.{left, mld1_reduction-subscribed}
use ecmh.Timeout.{expire_grpints, each_grpint, timeout}
use ecmh.Timeout.Members.{if_live, timeout-subscribed}
use ecmh.Timeout.Expiry.{interfaces-expire_grpints}
use ecmh.Interfaces.Update.{update_interfaces}
use ecmh.Mld.Query.{query_from, send_mld_querys}
use ecmh.Main.{
  verbose, go_on, Daemon, take_option, take_options, init, is_running, startup, timeout_signal,
  main_round,
}
use ecmh.Invariant.Reachable.{start, next, round, alarm, Reach-HasRegistry}
use ecmh.Input.{Received}
use ecmh.Tests.{site_group, speaker, neighbour, full, calm, on_two, site, registry, network}

pub full-HasMemory : HasMemory full
full-HasMemory = record {
  group = refl;
  group_link = refl;
  grpint = refl;
  grpint_link = refl;
  subscr = refl;
  subscr_link = refl;
}

on_two-IsSound : IsSound (on_two 900).subscriptions
on_two-IsSound = record { counted = inl refl; distinct = (tt, tt) }

site-IsSoundGroup : IsSoundGroup (site 900)
site-IsSoundGroup = record { tallied = refl; distinct = (tt, tt); sound = (on_two-IsSound, tt) }

pub registry-IsRegistry : IsRegistry (registry 900)
registry-IsRegistry = record {
  tallied = refl;
  distinct = (tt, tt);
  sound = (site-IsSoundGroup, tt);
}

mld1_report-subscribed_example :
    subscribed
      (groups_of (mld1_report calm 1 site_group (network (registry 900))))
      site_group
      1
      addr_any
    ≡ joined site_group
        (int_at (int_set_mld_version calm 1 1 (network (registry 900))).conf.ints 1).ifindex
        1000
        (registry 900)
        site_group
        1
        addr_any
unfolding is_addr_multicast is_addr_mc_nodelocal is_addr_mc_linklocal
mld1_report-subscribed_example =
    mld1_report-subscribed calm 1 site_group full-HasMemory (network (registry 900)) site_group 1
      addr_any refl

mld1_reduction-subscribed_example :
    subscribed
      (groups_of (mld1_reduction calm 2 site_group (network (registry 900))))
      site_group
      2
      addr_any
    ≡ left site_group
        (int_at (int_set_mld_version calm 2 1 (network (registry 900))).conf.ints 2).ifindex
        (registry 900)
        site_group
        2
        addr_any
unfolding is_addr_multicast is_addr_mc_nodelocal is_addr_mc_linklocal
mld1_reduction-subscribed_example =
    mld1_reduction-subscribed calm 2 site_group (network (registry 900)) site_group 2 addr_any refl
      registry-IsRegistry

interfaces-expire_grpints_example :
    (expire_grpints 5000 (site 900)).interfaces.items ≡ each_grpint 5000 (on_two 900 ∷ [])
interfaces-expire_grpints_example = interfaces-expire_grpints 5000 (site 900) site-IsSoundGroup

subscr_find-grpint_refresh_example :
    subscr_find
      (grpint_refresh full 1000 (on_two 900) speaker mode_is_exclude).1.subscriptions
      speaker
    ≡ some (record { ipv6 = speaker; mode = mode_is_exclude; refreshtime = 1000 })
subscr_find-grpint_refresh_example =
    subscr_find-grpint_refresh full 1000 (on_two 900) speaker speaker mode_is_exclude refl refl

placed : place_by ipv6_of (on_two 900).subscriptions.items 0 ≡ some 0
unfolding place_by
placed = refl

-- A packet with a version 2 report, from `neighbour` to ff02::16: its record excludes no source of
-- `site_group`.
abbrev pub report2 : Memory
report2 = memory_of (
    ip6_header 36 0 1 neighbour 0xff020000000000000000000000000016
    ++ (router_alert
        ++ (143 ∷ 0 ∷ 0 ∷ 0 ∷ 0 ∷ 0 ∷ 0 ∷ 1 ∷ (4 ∷ 0 ∷ 0 ∷ 0 ∷ addr_bytes 16 site_group))))

abbrev pub message : Received
message = record {
  ifindex = 1;
  hatype = 1;
  outgoing = false;
  protocol = 0x86dd;
  len = 76;
  mem = report2;
}

-- A daemon that was started with one option, was sent SIGALRM, and has received a report.
pub accepted : take_options (verbose ∷ []) (init 100) ≡ go_on (record (init 100) { verbose = true })
unfolding take_options take_option init
accepted = refl

abbrev pub woken : Daemon
woken = timeout_signal (startup calm (record (init 100) { verbose = true }))

pub woken-is_running : is_running woken ≡ true
unfolding timeout_signal startup init update_interfaces send_mld_querys query_from
woken-is_running = refl

Reach-HasRegistry_example : HasRegistry (main_round calm (some message) woken).world
Reach-HasRegistry_example = Reach-HasRegistry (
    next
      (next (start calm 100 (verbose ∷ []) (record (init 100) { verbose = true }) accepted)
        (alarm _))
      (round calm (some message) woken woken-is_running))

timeout-subscribed_example :
    subscribed (groups_of (timeout calm (network (registry 900)))) site_group 2 addr_any
    ≡ if_live 1000 (subscribed (registry 900) site_group 2 addr_any)
timeout-subscribed_example =
    timeout-subscribed calm (network (registry 900)) site_group 2 addr_any registry-IsRegistry

-- There is memory for an interface of a group, but not for its link.
abbrev pub scarce : Env
scarce = record calm { alloc = λ k n. record full { grpint_link = false } }

mld1_report-Joined_example :
    JoinedEntry 1000 site_group 1 site_group 1 addr_any
      (subscribed (registry 900) site_group 1 addr_any)
      (subscribed
        (groups_of (mld1_report scarce 1 site_group (network (registry 900))))
        site_group
        1
        addr_any)
unfolding int_set_mld_version ecmh.Interfaces.seen_version
mld1_report-Joined_example =
    mld1_report-Joined scarce 1 site_group (network (registry 900)) site_group 1 addr_any
