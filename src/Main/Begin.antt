-- ===== src/Main/Begin.antt =====
-- `main` of src/ecmh.c between the options and `update_interfaces`, as compiled on Linux, and
-- `dolog` and `savepid` of src/common.c: the calls of the system, in order. What they answer, and
-- what they do to the credentials of the process, are parameters.
pub mod Laws
use ecmh.Prelude.{
  ℕ, Bool, true, false, not, ◌&&◌, ◌==◌, Option, none, some, List, [], ◌∷◌, ◌++◌, if◌then◌else◌,
}
use ecmh.Conf.{Conf}

-- LOG_ERR, LOG_WARNING, LOG_INFO and LOG_DEBUG.
pub data Level : Type 0 where
  err warning info debug : Level

-- Where `dolog` writes to: nowhere, with `vsyslog`, or with `vprintf`, behind the name of the level
-- or not.
pub data Log : Type 0 where
  nowhere syslog : Log
  printed : Option Level → Log

abbrev pub is_debug : Level → Bool
is_debug debug = true
is_debug err = false
is_debug warning = false
is_debug info = false

-- `g_conf` is `none` for NULL.
unfoldable pub dolog : Option Conf → Level → Log
dolog none l = printed none
dolog (some c) l =
    if not c.verbose && is_debug l
    then nowhere
    else if c.daemonize
    then syslog
    else printed (if c.verbose then some l else none)

-- The file PIDFILE with the number in it, if there is one; without one `pid` keeps what stands on
-- the stack. `kill` tells whether a signal can be sent to a process.
abbrev pub pid_of : ℕ → Option ℕ → ℕ
pid_of stack none = stack
pid_of stack (some pid) = pid

unfoldable pub huprunning : Option (Option ℕ) → ℕ → (ℕ → Bool) → ℕ
huprunning none stack kill = 0
huprunning (some f) stack kill = if kill (pid_of stack f) then 1 else 0

-- What `fork` returns: an error, or 0 in the child.
pub data Fork : Type 0 where
  no_fork mother child : Fork

-- Whether the calls succeed.
pub record Sys : Type 0 where
  pub fork : Fork
  pub pidfile : Bool
  pub dumpfile : Bool
  pub rawsocket : Bool
  pub buffer : Bool
  pub priority : Bool
  pub scheduler : Bool

-- The calls, but for those that only print. `write_pid` is the file PIDFILE with its contents.
pub data Call : Type 0 where
  setsid freopen : Call
  signal alarm : ℕ → Call
  note : Level → Call
  write_pid open_dumpfile open_rawsocket alloc_buffer setpriority sched_setscheduler : Call
  setuid setgid : ℕ → Call

-- `main` returns 0 in the mother, or -1, or goes on to `update_interfaces`.
pub data Outcome : Type 0 where
  returns_0 returns_error serves : Outcome

abbrev pub Begun : Type 0
Begun = Outcome × List Call

abbrev pub after : List Call → Begun → Begun
after cs b = (b.0, cs ++ b.1)

-- The locals `drop_uid` and `drop_gid`.
pub record Drop : Type 0 where
  pub uid : ℕ
  pub gid : ℕ

abbrev pub drop_privileges : Drop → List Call
drop_privileges d =
    (if d.uid == 0 then [] else setuid d.uid ∷ []) ++ (if d.gid == 0 then [] else setgid d.gid ∷ [])

-- A call that fails is only noted.
abbrev pub or_warn : Bool → Call → List Call
or_warn ok k = k ∷ (if ok then [] else note warning ∷ [])

-- From `calloc` on.
abbrev pub with_buffer : Sys → Drop → Begun
with_buffer s d =
    if s.buffer
    then after (alloc_buffer ∷ []) (
      serves,
      or_warn s.priority setpriority
          ++ (or_warn s.scheduler sched_setscheduler ++ drop_privileges d),
    )
    else (returns_error, alloc_buffer ∷ (note info ∷ []))

abbrev pub with_rawsocket : Sys → Drop → Begun
with_rawsocket s d =
    if s.rawsocket
    then after (open_rawsocket ∷ []) (with_buffer s d)
    else (returns_error, open_rawsocket ∷ (note err ∷ []))

abbrev pub with_dumpfile : Sys → Drop → Begun
with_dumpfile s d =
    if s.dumpfile
    then after (open_dumpfile ∷ []) (with_rawsocket s d)
    else (returns_error, open_dumpfile ∷ (note err ∷ []))

abbrev pub savepid : Sys → List Call
savepid s = if s.pidfile then write_pid ∷ (note info ∷ []) else []

abbrev pub show_upstream : Option (List ℕ) → List Call
show_upstream none = []
show_upstream (some name) = note info ∷ []

-- SIGHUP, SIGTERM, SIGINT, SIGKILL and SIGALRM, the alarm after ECMH_SUBSCRIPTION_TIMEOUT, SIGUSR1
-- and SIGUSR2, and the lines of the log.
abbrev pub set_up : Conf → List Call
set_up c =
    signal 1
    ∷ (signal 15
        ∷ (signal 2
            ∷ (signal 9
                ∷ (signal 14
                    ∷ (alarm 125
                        ∷ (signal 10
                            ∷ (signal 12
                                ∷ (note info
                                    ∷ (note info
                                        ∷ (show_upstream c.upstream
                                            ++ (if c.mld1only
                                                then note info ∷ []
                                                else if c.mld2only
                                                then note info ∷ []
                                                else [])))))))))))

abbrev pub in_child : Sys → Conf → Drop → Begun
in_child s c d = after (set_up c ++ savepid s) (with_dumpfile s d)

abbrev pub daemonized : Sys → Conf → Drop → Fork → Begun
daemonized s c d no_fork = (returns_error, [])
daemonized s c d mother = (returns_0, [])
daemonized s c d child = after (setsid ∷ (freopen ∷ (freopen ∷ (freopen ∷ [])))) (in_child s c d)

unfoldable pub begin_main : Sys → Conf → Drop → Begun
begin_main s c d = if c.daemonize then daemonized s c d s.fork else in_child s c d

-- The user and the group of the process, and what `setuid` and `setgid` make of them.
pub record Cred : Type 0 where
  pub uid : ℕ
  pub gid : ℕ

pub record Kernel : Type 0 where
  pub setuid : Cred → ℕ → Cred
  pub setgid : Cred → ℕ → Cred

abbrev pub make_call : Kernel → Call → Cred → Cred
make_call k (setuid u) c = k.setuid c u
make_call k (setgid g) c = k.setgid c g
make_call k setsid c = c
make_call k freopen c = c
make_call k (signal n) c = c
make_call k (alarm n) c = c
make_call k (note l) c = c
make_call k write_pid c = c
make_call k open_dumpfile c = c
make_call k open_rawsocket c = c
make_call k alloc_buffer c = c
make_call k setpriority c = c
make_call k sched_setscheduler c = c

-- What a sequence of calls makes of the credentials.
unfoldable pub credentials : Kernel → List Call → Cred → Cred
credentials k [] c = c
credentials k (x ∷ xs) c = credentials k xs (make_call k x c)
