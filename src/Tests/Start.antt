-- ===== src/Tests/Start.antt =====
-- The theorems on the start and the end of `main` of src/ecmh.c at a concrete run.
use ecmh.Prelude.{
  ◌+◌, ◌≡◌, refl, Bool, true, false, none, some, List, [], ◌∷◌, ◌==◌, arith, if◌then◌else◌,
}
use ecmh.Conf.{Conf}
use ecmh.Main.{Opt, foreground, user, go_on, init, take_options, take_option, startup}
use ecmh.Main.Begin.{Sys, child, Drop, Cred, Kernel, returns_error, begin_main, credentials}
use ecmh.Main.Begin.Laws.{outcome_of, begin_main_lem, Posix, drop_privileges-gid}
use ecmh.Main.Shutdown.{Block, linked_list, tick, sigterm, run_loop, shutdown, main, Event}
use ecmh.Main.Shutdown.Laws.{conf_blocks, name_block, lists_of_all, freed, count_if, shutdown_lem}
use ecmh.Invariant.Reachable.{Reach}
use ecmh.Invariant.Runs.{has_pid, IsLeft, main-Reach, main-pidfile}
use ecmh.Tests.{calm, registry, network}

-- Every call succeeds.
abbrev fit : Sys
fit = record {
  fork = child;
  pidfile = true;
  dumpfile = true;
  rawsocket = true;
  buffer = true;
  priority = true;
  scheduler = true;
}

-- The raw socket cannot be opened.
abbrev unfit : Sys
unfit = record fit { rawsocket = false }

abbrev nobody : Drop
nobody = record { uid = 65534; gid = 65534 }

abbrev root : Cred
root = record { uid = 0; gid = 0 }

-- POSIX, for processes with one user and one group.
abbrev posix : Kernel
posix = record {
  setuid = λ c u. if c.uid == 0 then record { uid = u; gid = c.gid } else c;
  setgid = λ c g. if c.uid == 0 then record { uid = c.uid; gid = g } else c;
}

posix-Posix : Posix posix
posix-Posix = record { setuid_root = λ c u h. ground arith; setgid_user = λ c g h n. ground arith }

-- In the foreground, as another user.
abbrev options : List Opt
options = foreground ∷ (user (some nobody) ∷ [])

abbrev in_front : Conf
in_front = record (init 900) { daemonize = false }

taken : take_options options (init 900) ≡ go_on in_front
unfolding take_options take_option
taken = refl

drop_privileges-gid_example :
    credentials posix (begin_main fit in_front nobody).1 root ≡ record { uid = 65534; gid = 0 }
unfolding init
drop_privileges-gid_example =
    drop_privileges-gid posix fit in_front nobody root posix-Posix refl refl (omega arith)
      (omega arith)

begin_main_lem_example :
    ((begin_main unfit in_front nobody).0 ≡ outcome_of unfit in_front)
    × (credentials posix (begin_main unfit in_front nobody).1 root ≡ root)
unfolding init
begin_main_lem_example = begin_main_lem posix unfit in_front nobody root

-- A failing `recvfrom` ends the loop.
abbrev events : List Event
events = sigterm ∷ (tick calm none ∷ [])

main-Reach_example :
    Reach (run_loop events (startup calm in_front))
    × IsLeft events (run_loop events (startup calm in_front)) (main calm 900 fit options events)
unfolding init
main-Reach_example = main-Reach calm 900 fit options events in_front taken refl

main-pidfile_example :
    (has_pid (main calm 900 unfit options events).calls ≡ true)
    × ((main calm 900 unfit options events).outcome ≡ returns_error)
    × ((main calm 900 unfit options events).releases ≡ [])
unfolding init
main-pidfile_example = main-pidfile calm 900 unfit options events in_front taken refl refl refl

abbrev is_list : Block → Bool
is_list linked_list = true
is_list _ = false

-- The lists of a network with one group on one interface.
shutdown_lem_example :
    let c = (network (registry 900)).conf in
    count_if is_list (conf_blocks c)
    ≡ count_if is_list (freed (shutdown c))
      + (count_if is_list (name_block c.upstream) + count_if is_list (lists_of_all c.groups.items))
shutdown_lem_example = shutdown_lem is_list (network (registry 900)).conf
