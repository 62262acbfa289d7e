-- ===== src/Main/Begin/Laws.antt =====
-- When the start of src/ecmh.c succeeds, and with what credentials the program goes on.
use ecmh.Prelude.{
  ℕ, ◌≡◌, ◌≢◌, refl, ap, ◌∙◌, inl, inr, Bool, true, false, ◌&&◌, Option, none, some, List, [], ◌∷◌,
  ◌++◌, Bool-cases, arith, if◌then◌else◌,
}
use ecmh.Conf.{Conf}
use ecmh.Main.Begin.{
  Fork, no_fork, mother, child, Sys, Call, Outcome, returns_0, returns_error, serves, Drop, Cred,
  Kernel, begin_main, credentials, drop_privileges, daemonized, in_child, with_dumpfile,
  with_buffer, set_up, savepid, show_upstream,
}

abbrev pub is_child : Fork → Bool
is_child child = true
is_child mother = false
is_child no_fork = false

abbrev pub is_mother : Fork → Bool
is_mother mother = true
is_mother child = false
is_mother no_fork = false

-- The calls that must succeed.
abbrev pub is_able : Sys → Conf → Bool
is_able s c =
    (if c.daemonize then is_child s.fork else true) && (s.dumpfile && (s.rawsocket && s.buffer))

-- What `main` does, by what succeeds.
abbrev pub outcome_of : Sys → Conf → Outcome
outcome_of s c =
    if c.daemonize && is_mother s.fork
    then returns_0
    else if is_able s c
    then serves
    else returns_error

module _ (k : Kernel) (d : Drop) where
  credentials-append :
      (xs ys : List Call) (c : Cred)
      → credentials k (xs ++ ys) c ≡ credentials k ys (credentials k xs c)
  unfolding credentials
  credentials-append [] ys c = refl
  credentials-append (x ∷ xs) ys c = credentials-append xs ys _

  dropped : Cred → Bool → Cred
  dropped c ok = if ok then credentials k (drop_privileges d) c else c

  credentials-with_buffer :
      (s : Sys) (c : Cred) → credentials k (with_buffer s d).1 c ≡ dropped c s.buffer
  unfolding credentials dropped
  credentials-with_buffer s c = ground arith

  credentials-with_dumpfile :
      (s : Sys) (c : Cred)
      → credentials k (with_dumpfile s d).1 c ≡ dropped c (s.dumpfile && (s.rawsocket && s.buffer))
  unfolding credentials dropped
  credentials-with_dumpfile s c = elim (Bool-cases s.dumpfile) [
    | inl e ↦ elim (Bool-cases s.rawsocket) [
      | inl e' ↦ rw (e, e') (credentials-with_buffer s c)
      | inr e' ↦ rw (e, e') refl
    ]
    | inr e ↦ rw e refl
  ]

  credentials-set_up :
      (s : Sys) (cf : Conf) (c : Cred) → credentials k (set_up cf ++ savepid s) c ≡ c
  unfolding credentials
  credentials-set_up s cf c =
      ground (arith, credentials-append (set_up cf) (savepid s) c, upstream_lem cf.upstream)
    where
      upstream_lem : (o : Option (List ℕ)) → credentials k (show_upstream o) c ≡ c
      upstream_lem none = refl
      upstream_lem (some n) = refl

  credentials-in_child :
      (s : Sys) (cf : Conf) (c : Cred)
      → credentials k (in_child s cf d).1 c ≡ dropped c (s.dumpfile && (s.rawsocket && s.buffer))
  credentials-in_child s cf c =
      credentials-append (set_up cf ++ savepid s) (with_dumpfile s d).1 c
      ∙ ap (credentials k (with_dumpfile s d).1) (credentials-set_up s cf c)
      ∙ credentials-with_dumpfile s c

  credentials-daemonized :
      (s : Sys) (cf : Conf) (c : Cred) (f : Fork)
      → credentials k (daemonized s cf d f).1 c
        ≡ dropped c (is_child f && (s.dumpfile && (s.rawsocket && s.buffer)))
  unfolding credentials dropped
  credentials-daemonized s cf c child = credentials-in_child s cf c
  credentials-daemonized s cf c mother = refl
  credentials-daemonized s cf c no_fork = refl

  credentials-begin_main :
      (s : Sys) (cf : Conf) (c : Cred)
      → credentials k (begin_main s cf d).1 c ≡ dropped c (is_able s cf)
  unfolding begin_main
  credentials-begin_main s cf c = elim (Bool-cases cf.daemonize) [
    | inl e ↦ simp e (credentials-daemonized s cf c s.fork)
    | inr e ↦ simp e (credentials-in_child s cf c)
  ]

outcome-in_child :
    (s : Sys) (c : Conf) (d : Drop)
    → (in_child s c d).0
      ≡ (if s.dumpfile && (s.rawsocket && s.buffer) then serves else returns_error)
outcome-in_child s c d = ground arith

outcome-daemonized :
    (s : Sys) (c : Conf) (d : Drop) (f : Fork)
    → (daemonized s c d f).0 ≡ (
        if is_mother f
        then returns_0
        else if is_child f && (s.dumpfile && (s.rawsocket && s.buffer))
        then serves
        else returns_error)
outcome-daemonized s c d child = outcome-in_child s c d
outcome-daemonized s c d mother = refl
outcome-daemonized s c d no_fork = refl

pub outcome-begin_main : (s : Sys) (c : Conf) (d : Drop) → (begin_main s c d).0 ≡ outcome_of s c
unfolding begin_main
outcome-begin_main s c d = elim (Bool-cases c.daemonize) [
  | inl e ↦ simp e (outcome-daemonized s c d s.fork)
  | inr e ↦ simp e (outcome-in_child s c d)
]

-- Whatever the calls of the system answer: with a fork to be made, the mother returns 0; else the
-- program goes on to serve if the fork, the file of statistics, the raw socket and the buffer all
-- succeed, and returns an error if one of them fails. The process has other credentials afterwards
-- only if it serves, and then by what `setuid` and `setgid` make of them at the end.
pub begin_main_lem :
    (k : Kernel) (s : Sys) (c : Conf) (d : Drop) (cred : Cred)
    → ((begin_main s c d).0 ≡ outcome_of s c)
      × (credentials k (begin_main s c d).1 cred
          ≡ (if is_able s c then credentials k (drop_privileges d) cred else cred))
unfolding dropped
begin_main_lem k s c d cred = (outcome-begin_main s c d, credentials-begin_main k d s c cred)

-- POSIX: `setuid` of a process with user 0 sets the user, and `setgid` of a process with another
-- user to another group than its own is refused.
pub record Posix (k : Kernel) : Type 0 where
  pub setuid_root : (c : Cred) (u : ℕ) → c.uid ≡ 0 → k.setuid c u ≡ record c { uid = u }
  pub setgid_user : (c : Cred) (g : ℕ) → c.uid ≢ 0 → c.gid ≢ g → k.setgid c g ≡ c

given_up :
    (k : Kernel) (d : Drop) (cred : Cred)
    → Posix k
    → cred.uid ≡ 0
    → d.uid ≢ 0
    → cred.gid ≢ d.gid
    → credentials k (drop_privileges d) cred ≡ record { uid = d.uid; gid = cred.gid }
unfolding credentials
given_up k d cred posix root user group =
    let set : k.setuid cred d.uid ≡ record { uid = d.uid; gid = cred.gid } =
      posix.setuid_root cred d.uid root in
    let kept = posix.setgid_user (record { uid = d.uid; gid = cred.gid }) d.gid user group in
    ground (arith, set, kept)

-- On a system with the rules of POSIX for `setuid` and `setgid`, a process of user 0 that starts
-- with success and gives up its user for another one, with another group, has that user afterwards,
-- but is still in the group that it had before: the user is given up first.
pub drop_privileges-gid :
    (k : Kernel) (s : Sys) (c : Conf) (d : Drop) (cred : Cred)
    → Posix k
    → is_able s c ≡ true
    → cred.uid ≡ 0
    → d.uid ≢ 0
    → cred.gid ≢ d.gid
    → credentials k (begin_main s c d).1 cred ≡ record { uid = d.uid; gid = cred.gid }
drop_privileges-gid k s c d cred posix able root user group =
    (begin_main_lem k s c d cred).1
    ∙ ap (λ b. if b then credentials k (drop_privileges d) cred else cred) able
    ∙ given_up k d cred posix root user group
