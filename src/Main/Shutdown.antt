-- ===== src/Main/Shutdown.antt =====
-- The loop and the end of `main` of src/ecmh.c, as compiled on Linux, with `cleanpid` of
-- src/common.c, and the destructors of src/groups.c, src/grpint.c and src/subscr.c. What is freed
-- is a list of blocks of memory, in the order of the calls.
pub mod Laws
use ecmh.Prelude.{ℕ, suc, Bool, not, Option, none, some, List, [], ◌∷◌, ◌++◌, ◌==◌, if◌then◌else◌}
use ecmh.Subscr.{SubscrNode}
use ecmh.GrpInt.{GrpIntNode}
use ecmh.Groups.{GroupNode}
use ecmh.Conf.{IntNode, Conf, World, Env}
use ecmh.Input.{Received}
use ecmh.Main.{
  Opt, Parsed, go_on, returns_0, returns_error, init, take_options, take_users, Daemon, startup,
  main_round, is_running, timeout_signal, cleanpid, sigusr2,
}
use ecmh.Main.Begin.{Sys, Drop, Outcome, Call, Begun, begin_main}

-- A block of memory that `calloc` or `strdup` gave: the records with what they hold, a node of a
-- list, a `struct list`, and the blocks of the configuration.
pub data Block : Type 0 where
  subscr : SubscrNode → Block
  grpint : GrpIntNode → Block
  group : GroupNode → Block
  listnode linked_list conf ints buffer upstream_name : Block

module _ {A : Type 0} where
  -- The loop of `list_delete_all_node` with what `del` frees.
  unfoldable pub del_all : (A → List Block) → List A → List Block
  del_all del [] = []
  del_all del (x ∷ xs) = del x ++ listnode ∷ del_all del xs

unfoldable pub subscr_destroy : SubscrNode → List Block
subscr_destroy s = subscr s ∷ []

unfoldable pub grpint_destroy : GrpIntNode → List Block
grpint_destroy g = del_all subscr_destroy g.subscriptions.items ++ grpint g ∷ []

unfoldable pub group_destroy : GroupNode → List Block
group_destroy gn = del_all grpint_destroy gn.interfaces.items ++ group gn ∷ []

-- What the end of `main` does: `sigusr1`, a line of the log, a block that is freed, `int_destroy`
-- of the interface at a place, the files and the socket closed, and the PID file removed.
pub data Release : Type 0 where
  dump note fclose close unlink : Release
  free : Block → Release
  int_destroy : ℕ → Release

abbrev pub free_all : List Block → List Release
free_all [] = []
free_all (b ∷ bs) = free b ∷ free_all bs

-- The loop over the interfaces, from the place `j` on.
unfoldable pub destroy_ints : List IntNode → ℕ → List Release
destroy_ints [] j = []
destroy_ints (i ∷ is') j =
    let rest = destroy_ints is' (suc j) in if i.mtu == 0 then rest else int_destroy j ∷ rest

-- From the end of the loop on.
unfoldable pub shutdown : Conf → List Release
shutdown c =
    dump
    ∷ (note
        ∷ (free_all (del_all group_destroy c.groups.items)
            ++ (destroy_ints c.ints 0
                ++ (free ints
                    ∷ (free linked_list
                        ∷ (fclose
                            ∷ (close ∷ (free buffer ∷ (free conf ∷ (note ∷ (unlink ∷ [])))))))))))

-- What happens to the loop: a round, with the answers of the system and of `recvfrom`, or a signal.
pub data Event : Type 0 where
  tick : Env → Option Received → Event
  sigalrm sigterm : Event
  usr2 : Env → Event

abbrev pub happens : Daemon → Event → Daemon
happens d (tick e r) = main_round e r d
happens d sigalrm = timeout_signal d
happens d sigterm = cleanpid d
happens d (usr2 e) = sigusr2 e d

-- The loop over the events that come, up to the first one that finds it not running. Behind the
-- last event the loop may run on.
unfoldable pub run_loop : List Event → Daemon → Daemon
run_loop [] d = d
run_loop (v ∷ vs) d = let rest = run_loop vs (happens d v) in if is_running d then rest else d

-- The run of the program up to the events that have come: what it returns, or that it still serves,
-- its calls before the loop, and what it does behind the loop.
pub record Run : Type 0 where
  pub outcome : Outcome
  pub calls : List Call
  pub releases : List Release

-- From the loop on, by its state behind the events: it goes on, or `main` returns.
abbrev pub leave_loop : List Call → Daemon → Run
leave_loop calls d =
    if is_running d
    then record { outcome = Outcome.serves; calls = calls; releases = [] }
    else record { outcome = Outcome.returns_0; calls = calls; releases = shutdown d.world.conf }

abbrev pub serve : Env → Conf → List Event → Begun → Run
serve e c vs (Outcome.serves, calls) = leave_loop calls (run_loop vs (startup e c))
serve e c vs (Outcome.returns_0, calls) = record {
  outcome = Outcome.returns_0;
  calls = calls;
  releases = [];
}
serve e c vs (Outcome.returns_error, calls) = record {
  outcome = Outcome.returns_error;
  calls = calls;
  releases = [];
}

abbrev pub main_with : Env → Sys → Drop → List Event → Parsed → Run
main_with e s d vs (go_on c) = serve e c vs (begin_main s c d)
main_with e s d vs returns_0 = record { outcome = Outcome.returns_0; calls = []; releases = [] }
main_with e s d vs returns_error = record {
  outcome = Outcome.returns_error;
  calls = [];
  releases = [];
}

-- `main`, started at `now` with the options `os`.
unfoldable pub main : Env → ℕ → Sys → List Opt → List Event → Run
main e now s os vs =
    main_with e s (take_users os (record { uid = 0; gid = 0 })) vs (take_options os (init now))
