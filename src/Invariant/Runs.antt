-- ===== src/Invariant/Runs.antt =====
-- Whole runs of `main` of src/ecmh.c, from its options to its end, as runs of the states that the
-- daemon reaches.
use ecmh.Prelude.{
  ℕ, ◌≡◌, refl, sym, ap, ◌∙◌, ◌⊎◌, none, some, inl, inr, Bool, true, false, List, [], ◌∷◌, ◌++◌,
  ◌&&◌, ◌||◌, Bool-cases, arith, if◌then◌else◌,
}
use mathlib.Core.Path.{subst}
use ecmh.Conf.{Conf, Env}
use ecmh.Input.{handleinterfaces}
use ecmh.Main.{
  Opt, go_on, init, take_options, take_users, Daemon, startup, is_running, main_round, cleanpid,
}
use ecmh.Main.Begin.{
  Sys, Drop, Outcome, Call, Begun, returns_0, returns_error, serves, begin_main, write_pid, savepid,
  in_child, daemonized, with_dumpfile, set_up, Fork, child, mother, no_fork,
}
use ecmh.Main.Begin.Laws.{is_able, is_child, is_mother, outcome_of, outcome-begin_main}
use ecmh.Main.Shutdown.{
  Event, tick, sigalrm, sigterm, happens, run_loop, shutdown, leave_loop, serve, Run, main,
}
use ecmh.Invariant.Reachable.{Step, round, alarm, term, Reach, start, next}

run_loop-Reach : (vs : List Event) (d : Daemon) → Reach d → Reach (run_loop vs d)
unfolding run_loop
run_loop-Reach [] d r = r
run_loop-Reach (v ∷ vs) d r = elim (Bool-cases (is_running d)) [
  | inl e ↦ rw e (run_loop-Reach vs (happens d v) (next r (step v e)))
  | inr e ↦ rw e r
]
  where
    step : (v : Event) → is_running d ≡ true → Step d (happens d v)
    step (tick e x) m = round e x d m
    step sigalrm m = alarm d
    step sigterm m = term d
    step (Event.usr2 e) m = Step.usr2 e d

serve-eq :
    (e : Env) (c : Conf) (vs : List Event) (b : Begun) (o : Outcome)
    → b.0 ≡ o
    → serve e c vs b ≡ serve e c vs (o, b.1)
serve-eq e c vs b o m = λ i. serve e c vs (m i, b.1)

main-with :
    (e : Env) (now : ℕ) (s : Sys) (os : List Opt) (vs : List Event) (c : Conf) (o : Outcome)
    → take_options os (init now) ≡ go_on c
    → outcome_of s c ≡ o
    → main e now s os vs
      ≡ serve e c vs (o, (begin_main s c (take_users os (record { uid = 0; gid = 0 }))).1)
unfolding main
main-with e now s os vs c o m h =
    let d = take_users os (record { uid = 0; gid = 0 }) in
    let b = begin_main s c d in rw m (serve-eq e c vs b o (outcome-begin_main s c d ∙ h))

-- SIGTERM or SIGINT, or a round whose read fails.
abbrev pub is_end : Event → Bool
is_end sigterm = true
is_end (tick e none) = true
is_end (tick e (some r)) = false
is_end sigalrm = false
is_end (Event.usr2 e) = false

abbrev pub has_end : List Event → Bool
has_end [] = false
has_end (v ∷ vs) = is_end v || has_end vs

run_loop-stopped : (vs : List Event) (d : Daemon) → is_running d ≡ false → run_loop vs d ≡ d
unfolding run_loop
run_loop-stopped [] d h = refl
run_loop-stopped (v ∷ vs) d h = rw h refl

-- After an event that ends it, the loop is not running.
happens-end : (v : Event) (d : Daemon) → is_end v ≡ true → is_running (happens d v) ≡ false
unfolding cleanpid main_round handleinterfaces
happens-end sigterm d h = refl
happens-end (tick e none) d h = ground arith
happens-end (tick e (some r)) d h = cc
happens-end sigalrm d h = cc
happens-end (Event.usr2 e) d h = cc

-- A loop that still runs behind the events met none that ends it.
run_loop-end :
    (vs : List Event) (d : Daemon) → is_running (run_loop vs d) ≡ true → has_end vs ≡ false
unfolding run_loop
run_loop-end [] d h = refl
run_loop-end (v ∷ vs) d h = elim (Bool-cases (is_running d)) [
  | inr stopped ↦
      let clash : true ≡ false =
        sym h ∙ ap is_running (run_loop-stopped (v ∷ vs) d stopped) ∙ stopped in
      cc clash
  | inl runs ↦
      let rest : run_loop (v ∷ vs) d ≡ run_loop vs (happens d v) = rw runs refl in
      let runs' = sym (ap is_running rest) ∙ h in
      elim (Bool-cases (is_end v)) [
        | inr more ↦ simp more (run_loop-end vs (happens d v) runs')
        | inl end ↦
            let stopped = happens-end v d end in
            let clash : true ≡ false =
              sym runs' ∙ ap is_running (run_loop-stopped vs (happens d v) stopped) ∙ stopped in
            cc clash
      ]
]

-- `main` has returned 0 behind its end, in the state `d` of its loop, or it still serves, and no
-- event has ended it.
abbrev pub IsLeft : List Event → Daemon → Run → Type 0
IsLeft vs d r =
    ((is_running d ≡ false) × (r.outcome ≡ returns_0) × (r.releases ≡ shutdown d.world.conf))
    ⊎ ((is_running d ≡ true) × (has_end vs ≡ false) × (r.outcome ≡ serves) × (r.releases ≡ []))

leave_loop-IsLeft :
    (vs : List Event) (calls : List Call) (d : Daemon)
    → IsLeft vs (run_loop vs d) (leave_loop calls (run_loop vs d))
leave_loop-IsLeft vs calls d = elim (Bool-cases (is_running (run_loop vs d))) [
  | inl runs ↦ inr (runs, run_loop-end vs d runs, rw runs refl, rw runs refl)
  | inr stopped ↦ inl (stopped, rw stopped refl, rw stopped refl)
]

-- With options that `main` accepts and a start that succeeds, whatever events have come: the loop
-- is in a state that the daemon reaches. If that state is not running, `main` has returned 0, and
-- what it did behind its loop is the end of that state; else it still serves, has freed nothing,
-- and there was no SIGTERM, no SIGINT and no read that failed.
pub main-Reach :
    (e : Env) (now : ℕ) (s : Sys) (os : List Opt) (vs : List Event) (c : Conf)
    → take_options os (init now) ≡ go_on c
    → is_able s c ≡ true
    → Reach (run_loop vs (startup e c)) × IsLeft vs (run_loop vs (startup e c)) (main e now s os vs)
main-Reach e now s os vs c m able =
    let served : outcome_of s c ≡ serves = ground arith in
    let run = main-with e now s os vs c serves m served in
    let calls = (begin_main s c (take_users os (record { uid = 0; gid = 0 }))).1 in
    (
      run_loop-Reach vs (startup e c) (start e now os c m),
      subst (IsLeft vs (run_loop vs (startup e c))) (sym run)
          (leave_loop-IsLeft vs calls (startup e c)),
    )

-- Whether the PID file is written.
abbrev pub is_write_pid : Call → Bool
is_write_pid write_pid = true
is_write_pid _ = false

abbrev pub has_pid : List Call → Bool
has_pid [] = false
has_pid (k ∷ ks) = is_write_pid k || has_pid ks

has_pid-append : (ks ls : List Call) → has_pid ls ≡ true → has_pid (ks ++ ls) ≡ true
has_pid-append [] ls h = h
has_pid-append (k ∷ ks) ls h = ground (arith, has_pid-append ks ls h)

has_pid-left : (ks ls : List Call) → has_pid ks ≡ true → has_pid (ks ++ ls) ≡ true
has_pid-left [] ls h = cc
has_pid-left (k ∷ ks) ls h = ground (arith, has_pid-left ks ls)

-- The process that the program runs in, the child if it is to fork.
abbrev pub is_started : Sys → Conf → Bool
is_started s c = if c.daemonize then is_child s.fork else true

has_pid-begin_main :
    (s : Sys) (c : Conf) (d : Drop)
    → is_started s c ≡ true
    → s.pidfile ≡ true
    → has_pid (begin_main s c d).1 ≡ true
unfolding begin_main
has_pid-begin_main s c d started pid = elim (Bool-cases c.daemonize) [
  | inl e ↦ let forked : is_child s.fork ≡ true = ground arith in simp e (by_fork s.fork forked)
  | inr e ↦ simp e in_child_lem
]
  where
    in_child_lem : has_pid (in_child s c d).1 ≡ true
    in_child_lem =
        has_pid-left (set_up c ++ savepid s) (with_dumpfile s d).1
          (has_pid-append (set_up c) (savepid s) (simp pid refl))

    by_fork : (f : Fork) → is_child f ≡ true → has_pid (daemonized s c d f).1 ≡ true
    by_fork child h = in_child_lem
    by_fork mother h = cc
    by_fork no_fork h = cc

-- With options that `main` accepts, in the process that the program runs in, with a PID file that
-- can be written: if the file of statistics, the raw socket or the buffer fails, `main` has written
-- the PID file, and returns an error without removing it.
pub main-pidfile :
    (e : Env) (now : ℕ) (s : Sys) (os : List Opt) (vs : List Event) (c : Conf)
    → take_options os (init now) ≡ go_on c
    → is_started s c ≡ true
    → s.pidfile ≡ true
    → is_able s c ≡ false
    → (has_pid (main e now s os vs).calls ≡ true)
      × ((main e now s os vs).outcome ≡ returns_error)
      × ((main e now s os vs).releases ≡ [])
main-pidfile e now s os vs c m started pid unable =
    let fails : outcome_of s c ≡ returns_error = not_mother c.daemonize s.fork started in
    let run = main-with e now s os vs c returns_error m fails in
    let d = take_users os (record { uid = 0; gid = 0 }) in
    (
      ap (λ r. has_pid r.calls) run ∙ has_pid-begin_main s c d started pid,
      ap (λ r. r.outcome) run,
      ap (λ r. r.releases) run,
    )
  where
    not_mother :
        (b : Bool) (f : Fork)
        → (if b then is_child f else true) ≡ true
        → (if b && is_mother f then returns_0 else if is_able s c then serves else returns_error)
          ≡ returns_error
    not_mother false f h = simp unable refl
    not_mother true child h = simp unable refl
    not_mother true mother h = cc
    not_mother true no_fork h = cc
