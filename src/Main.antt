-- ===== src/Main.antt =====
-- `init`, the options, the signal handlers and the main loop of src/ecmh.c, and `cleanpid` of
-- src/common.c. A signal comes between two rounds of the loop.
pub mod Begin
pub mod Shutdown
use ecmh.Prelude.{
  ℕ, Bool, true, false, not, ◌&&◌, ◌==◌, Option, none, some, List, [], ◌∷◌, if◌then◌else◌,
}
use Prim.Native.String.{String}
use ecmh.LinkList.{list_new}
use ecmh.Conf.{Conf, World, Env, with_conf}
use ecmh.Interfaces.{int_find}
use ecmh.Interfaces.Update.{update_interfaces}
use ecmh.Mld.Query.{send_mld_querys}
use ecmh.Mld.Report2.{mld2_send_report}
use ecmh.Timeout.{timeout}
use ecmh.Input.{Received, handleinterfaces}
use ecmh.Main.Begin.{Drop}

unfoldable pub init : ℕ → Conf
init now = record {
  ints = [];
  groups = list_new;
  upstream = none;
  upstream_id = 0;
  daemonize = true;
  verbose = false;
  quit = false;
  mld1only = false;
  mld2only = false;
  promisc = false;
  last_update = 0;
  stat_starttime = now;
  stat_packets_received = 0;
  stat_packets_sent = 0;
  stat_bytes_received = 0;
  stat_bytes_sent = 0;
  stat_icmp_received = 0;
  stat_icmp_sent = 0;
  stat_hlim_exceeded = 0;
}

-- What `getopt_long` returns. `user` has the numbers that `getpwnam` found for the user and its
-- group; `other` is any letter that the switch does not name.
pub data Opt : Type 0 where
  foreground : Opt
  upstream : List ℕ → Opt
  use_promisc : Opt
  no_promisc : Opt
  user : Option Drop → Opt
  verbose : Opt
  version : Opt
  mld1only : Opt
  mld2only : Opt
  other : Opt

-- The letters of the switch, with `optarg`; `getpwnam` finds the numbers of a user by its name.
unfoldable pub opt_of : (List ℕ → Option Drop) → ℕ → List ℕ → Opt
opt_of getpwnam letter optarg =
    if letter == 102
    then foreground
    else if letter == 105
    then upstream optarg
    else if letter == 112
    then use_promisc
    else if letter == 80
    then no_promisc
    else if letter == 117
    then user (getpwnam optarg)
    else if letter == 118
    then verbose
    else if letter == 86
    then version
    else if letter == 49
    then mld1only
    else if letter == 50
    then mld2only
    else other

-- `struct option`: a name that stands for a letter.
pub record LongOption : Type 0 where
  pub name : String
  pub has_arg : Bool
  pub letter : ℕ

abbrev pub long_option : String → Bool → ℕ → LongOption
long_option name has_arg letter = record { name = name; has_arg = has_arg; letter = letter }

abbrev pub long_options : List LongOption
long_options =
    long_option "foreground" false 102
    ∷ long_option "upstream" true 105
    ∷ long_option "promisc" false 112
    ∷ long_option "nopromisc" false 80
    ∷ long_option "user" true 117
    ∷ long_option "tunnelmode" false 116
    ∷ long_option "notunnelmode" false 84
    ∷ long_option "verbose" false 118
    ∷ long_option "version" false 86
    ∷ long_option "mld1only" false 49
    ∷ long_option "mld2only" false 50
    ∷ []

-- The program goes on with a configuration, or `main` returns: 0 after the version, or else -1.
pub data Parsed : Type 0 where
  go_on : Conf → Parsed
  returns_0 : Parsed
  returns_error : Parsed

abbrev pub set_upstream_name : Conf → List ℕ → Option (List ℕ) → Parsed
set_upstream_name c name none = go_on (record c { upstream = some name })
set_upstream_name c name (some was) = returns_error

-- The switch.
unfoldable pub take_option : Conf → Opt → Parsed
take_option c foreground = go_on (record c { daemonize = false })
take_option c (upstream name) = set_upstream_name c name c.upstream
take_option c use_promisc = go_on (record c { promisc = true })
take_option c no_promisc = go_on (record c { promisc = false })
take_option c (user (some d)) = go_on c
take_option c (user none) = returns_error
take_option c verbose = go_on (record c { verbose = true })
take_option c version = returns_0
take_option c mld1only = go_on (record c { mld1only = true; mld2only = false })
take_option c mld2only = go_on (record c { mld1only = false; mld2only = true })
take_option c other = returns_error

abbrev pub after_option : (Conf → Parsed) → Parsed → Parsed
after_option k returns_0 = returns_0
after_option k returns_error = returns_error
after_option k (go_on c) = k c

-- The loop over the options.
unfoldable pub take_options : List Opt → Conf → Parsed
take_options [] c = go_on c
take_options (o ∷ os) c = after_option (take_options os) (take_option c o)

-- What the switch writes to `drop_uid` and `drop_gid`, and the loop.
abbrev pub take_user : Drop → Opt → Drop
take_user d (user (some found)) = found
take_user d (user none) = d
take_user d foreground = d
take_user d (upstream name) = d
take_user d use_promisc = d
take_user d no_promisc = d
take_user d verbose = d
take_user d version = d
take_user d mld1only = d
take_user d mld2only = d
take_user d other = d

unfoldable pub take_users : List Opt → Drop → Drop
take_users [] d = d
take_users (o ∷ os) d = take_users os (take_user d o)

-- The state of the loop, with `g_needs_timeout` and the local `quit`.
pub record Daemon : Type 0 where
  pub world : World
  pub needs_timeout : Bool
  pub quit : Bool

-- From `update_interfaces` to the loop.
unfoldable pub startup : Env → Conf → Daemon
startup e c =
    let w : World = record { conf = c; wire = []; overrun = false } in
    record {
      world = send_mld_querys e (update_interfaces e none w);
      needs_timeout = false;
      quit = false;
    }

-- One round of the loop.
unfoldable pub main_round : Env → Option Received → Daemon → Daemon
main_round e r d =
    let w = if d.needs_timeout then timeout e d.world else d.world in
    let (ok, w') = handleinterfaces e r w in
    record { world = w'; needs_timeout = false; quit = not ok }

-- `while (!g_conf->quit && !quit)`.
abbrev pub is_running : Daemon → Bool
is_running d = not d.world.conf.quit && not d.quit

unfoldable pub timeout_signal : Daemon → Daemon
timeout_signal d = record d { needs_timeout = true }

-- SIGTERM and SIGINT.
unfoldable pub cleanpid : Daemon → Daemon
cleanpid d = record d { world = with_conf d.world (record d.world.conf { quit = true }) }

abbrev pub report_upstream : Env → World → Option (List ℕ) → Option ℕ → World
report_upstream e w none o = w
report_upstream e w (some name) none = w
report_upstream e w (some name) (some p) = mld2_send_report e p none w

-- SIGUSR2: a report to the upstream interface.
unfoldable pub sigusr2 : Env → Daemon → Daemon
sigusr2 e d =
    let c = d.world.conf in
    record d { world = report_upstream e d.world c.upstream (int_find c c.upstream_id) }
