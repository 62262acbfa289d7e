-- ===== src/Invariant/Reachable.antt =====
-- The states of the daemon, from its start on: rounds of the main loop of src/ecmh.c, and signals
-- between them.
use ecmh.Prelude.{
  ℕ, ◌≡◌, refl, sym, ◌∙◌, inl, inr, true, false, Option, none, some, List, [], ◌∷◌, Bool-cases,
}
use mathlib.Core.Path.{subst}
use ecmh.LinkList.{list_new}
use ecmh.Groups.WellFormed.{IsRegistry}
use ecmh.Conf.{Conf, World, Env}
use ecmh.Mld.Quiet.{groups_of, groups-send_mld_querys, groups-mld2_send_report}
use ecmh.Mld.Listen.WellFormed.{HasRegistry}
use ecmh.Interfaces.Update.{update_interfaces}
use ecmh.Input.{Received}
use ecmh.Main.{
  Opt, Parsed, go_on, returns_0, returns_error, init, take_option, take_options, after_option,
  set_upstream_name, foreground, upstream, use_promisc, no_promisc, user, verbose, version,
  mld1only, mld2only, other, Daemon, startup, main_round, is_running, timeout_signal, cleanpid,
  sigusr2, report_upstream,
}
use ecmh.Invariant.{handleinterfaces-HasRegistry, timeout-HasRegistry}
use ecmh.Interfaces.Quiet.{groups-update_interfaces}

pub data Step : Daemon → Daemon → Type 0 where
  round :
      (e : Env) (r : Option Received) (d : Daemon) → is_running d ≡ true → Step d (main_round e r d)
  alarm : (d : Daemon) → Step d (timeout_signal d)
  term : (d : Daemon) → Step d (cleanpid d)
  usr2 : (e : Env) (d : Daemon) → Step d (sigusr2 e d)

-- The daemon was started at some time with options that it accepts.
pub data Reach : Daemon → Type 0 where
  start :
      (e : Env) (now : ℕ) (os : List Opt) (c : Conf)
      → take_options os (init now) ≡ go_on c
      → Reach (startup e c)
  next : {d d' : Daemon} → Reach d → Step d d' → Reach d'

-- What is so of the groups before an option is so after it.
abbrev Carries : Conf → Parsed → Type 0
Carries c (go_on c') = c'.groups ≡ c.groups
Carries c _ = Unit

take_option-Carries : (c : Conf) (o : Opt) → Carries c (take_option c o)
unfolding take_option
take_option-Carries c foreground = refl
take_option-Carries c (upstream name) = named c.upstream
  where
    named : (o : Option (List ℕ)) → Carries c (set_upstream_name c name o)
    named none = refl
    named (some was) = tt
take_option-Carries c use_promisc = refl
take_option-Carries c no_promisc = refl
take_option-Carries c (user (some d)) = refl
take_option-Carries c (user none) = tt
take_option-Carries c verbose = refl
take_option-Carries c version = tt
take_option-Carries c mld1only = refl
take_option-Carries c mld2only = refl
take_option-Carries c other = tt

after_option-Carries :
    (c : Conf) (k : Conf → Parsed) (r : Parsed)
    → Carries c r
    → ((c' : Conf) → Carries c' (k c'))
    → Carries c (after_option k r)
after_option-Carries c k returns_0 h kh = tt
after_option-Carries c k returns_error h kh = tt
after_option-Carries c k (go_on c') h kh = Carries-trans c c' (k c') h (kh c')
  where
    Carries-trans : (c c' : Conf) (r : Parsed) → c'.groups ≡ c.groups → Carries c' r → Carries c r
    Carries-trans c c' (go_on c'') h h' = h' ∙ h
    Carries-trans c c' returns_0 h h' = tt
    Carries-trans c c' returns_error h h' = tt

take_options-Carries : (os : List Opt) (c : Conf) → Carries c (take_options os c)
unfolding take_options
take_options-Carries [] c = refl
take_options-Carries (o ∷ os) c =
    after_option-Carries c (take_options os) (take_option c o) (take_option-Carries c o)
      (take_options-Carries os)

init-IsRegistry : (now : ℕ) → IsRegistry (init now).groups
unfolding init list_new
init-IsRegistry now = record { tallied = refl; distinct = tt; sound = tt }

startup-HasRegistry : (e : Env) (c : Conf) → IsRegistry c.groups → HasRegistry (startup e c).world
unfolding startup
startup-HasRegistry e c v =
    let w : World = record { conf = c; wire = []; overrun = false } in
    subst IsRegistry
      (sym
        (groups-send_mld_querys e (update_interfaces e none w) ∙ groups-update_interfaces e none w))
      v

report_upstream-groups :
    (e : Env) (w : World) (o : Option (List ℕ)) (p : Option ℕ)
    → groups_of (report_upstream e w o p) ≡ groups_of w
report_upstream-groups e w none p = refl
report_upstream-groups e w (some name) none = refl
report_upstream-groups e w (some name) (some p) = groups-mld2_send_report e p none w

pub main_round-HasRegistry :
    (e : Env) (r : Option Received) (d : Daemon)
    → HasRegistry d.world
    → HasRegistry (main_round e r d).world
unfolding main_round
main_round-HasRegistry e r d v = elim (Bool-cases d.needs_timeout) [
  | inl due ↦ simp due (handleinterfaces-HasRegistry e r _ (timeout-HasRegistry e d.world v))
  | inr early ↦ simp early (handleinterfaces-HasRegistry e r d.world v)
]

Step-HasRegistry : {d d' : Daemon} → Step d d' → HasRegistry d.world → HasRegistry d'.world
unfolding timeout_signal cleanpid sigusr2
Step-HasRegistry (round e r d m) v = main_round-HasRegistry e r d v
Step-HasRegistry (alarm d) v = v
Step-HasRegistry (term d) v = v
Step-HasRegistry (usr2 e d) v =
    subst IsRegistry (sym (report_upstream-groups e d.world d.world.conf.upstream _)) v

-- In every state that the daemon reaches, by any sequence of rounds of its loop, of received
-- packets and of signals, the registry of groups is well formed: no group, no interface of a group
-- and no subscription is there twice, and the counts of the lists fit.
pub Reach-HasRegistry : {d : Daemon} → Reach d → HasRegistry d.world
Reach-HasRegistry (start e now os c m) =
    startup-HasRegistry e c (subst IsRegistry (sym (taken m)) (init-IsRegistry now))
  where
    taken : take_options os (init now) ≡ go_on c → c.groups ≡ (init now).groups
    taken m = subst (Carries (init now)) m (take_options-Carries os (init now))
Reach-HasRegistry (next r s) = Step-HasRegistry s (Reach-HasRegistry r)
