-- ===== src/Interfaces/Laws.antt =====
-- What `int_create` and `int_set_mld_version` of src/interfaces.c promise.
use ecmh.Prelude.{
  ℕ, ◌+◌, ◌-◌, ◌%◌, ◌^◌, ◌<◌, ◌≡◌, ◌≢◌, ◌∙◌, inl, inr, Bool, true, false, not, ◌&&◌, ◌==◌, ltb,
  add64, Option, none, some, List, [], ◌∷◌, length, replicate, get_or-set, arith, Bool-cases,
  length-set, length-append, length-replicate, if◌then◌else◌,
}
use ecmh.Groups.{subscription_timeout}
use ecmh.Conf.{IntNode, Conf, World, Env, IfInfo, int_zero, int_at, with_conf, put_int}
use ecmh.Interfaces.{
  int_destroy, int_find, grow, set_upstream, create_hwaddr, create_mtu, create_name, int_create,
  loopback_type, min_mtu, seen_version,
}

int_find-put_int :
    (w : World) (p : ℕ) (i : IntNode)
    → p < length w.conf.ints
    → int_find (put_int w p i).conf p ≡ (if i.mtu == 0 then none else some p)
unfolding int_find
int_find-put_int w p i h =
    ground (arith, get_or-set w.conf.ints p i int_zero, length-set w.conf.ints p i)

int_find-int_destroy : (p : ℕ) (w : World) → int_find (int_destroy p w).conf p ≡ none
unfolding int_find int_destroy
int_find-int_destroy p w =
    let gone : IntNode = record (int_at w.conf.ints p) { mtu = 0 } in
    ground (arith, get_or-set w.conf.ints p gone int_zero, length-set w.conf.ints p gone)

int_find-set_upstream :
    (p : ℕ) (w : World)
    → p < length w.conf.ints
    → int_find (set_upstream p w).conf p
      ≡ (if (int_at w.conf.ints p).mtu == 0 then none else some p)
unfolding int_find
int_find-set_upstream p w h =
    let own : IntNode = record (int_at w.conf.ints p) { upstream = true } in
    let foreign : IntNode = record (int_at w.conf.ints p) { upstream = false } in
    ground (
      arith,
      get_or-set w.conf.ints p own int_zero,
      length-set w.conf.ints p own,
      get_or-set w.conf.ints p foreign int_zero,
      length-set w.conf.ints p foreign,
    )

length-grow :
    (ints : List IntNode) (ifindex : ℕ)
    → ifindex + 1 < 2 ^ 32
    → ifindex < length (grow ints ifindex)
unfolding grow
length-grow ints ifindex h = ground (
  arith,
  length-append ints (replicate ((ifindex + 1) % 2 ^ 32 - length ints) int_zero),
  length-replicate ((ifindex + 1) % 2 ^ 32 - length ints) int_zero,
)

-- The result says what a search finds.
abbrev IsFound : ℕ → Option ℕ × World → Type 0
IsFound p r = int_find r.1.conf p ≡ r.0

int_at-put_int :
    (w : World) (p : ℕ) (i : IntNode)
    → p < length w.conf.ints
    → int_at (put_int w p i).conf.ints p ≡ i
int_at-put_int w p i h = ground (arith, get_or-set w.conf.ints p i int_zero)

create_hwaddr-IsFound :
    (p : ℕ) (w : World) (o : Option ℕ)
    → p < length w.conf.ints
    → (int_at w.conf.ints p).mtu ≢ 0
    → IsFound p (create_hwaddr p w o)
create_hwaddr-IsFound p w none h m = int_find-int_destroy p w
create_hwaddr-IsFound p w (some family) h m =
    let i : IntNode = record (int_at w.conf.ints p) { hwaddr = family } in
    elim (Bool-cases (family == loopback_type)) [
      | inl loopback ↦ rw loopback (int_find-int_destroy p (put_int w p i))
      | inr real ↦ rw real (
          int_find-set_upstream p (put_int w p i) (omega (arith, length-set w.conf.ints p i))
          ∙ ground (arith, int_at-put_int w p i h))
    ]

create_mtu-IsFound :
    (p : ℕ) (w : World) (info : IfInfo) (o : Option ℕ)
    → p < length w.conf.ints
    → IsFound p (create_mtu p w info o)
create_mtu-IsFound p w info none h = int_find-int_destroy p w
create_mtu-IsFound p w info (some mtu) h =
    let i : IntNode = record (int_at w.conf.ints p) { mtu = mtu } in
    elim (Bool-cases (ltb mtu min_mtu)) [
      | inl small ↦ rw small (int_find-int_destroy p w)
      | inr fits ↦ rw fits (
          create_hwaddr-IsFound p (put_int w p i) info.hwaddr
            (omega (arith, length-set w.conf.ints p i)) (ground (arith, int_at-put_int w p i h)))
    ]

create_name-IsFound :
    (p : ℕ) (w : World) (info : IfInfo) (o : Option (List ℕ))
    → p < length w.conf.ints
    → IsFound p (create_name p w info o)
create_name-IsFound p w info none h = int_find-int_destroy p w
create_name-IsFound p w info (some name) h =
    let i : IntNode = record (int_at w.conf.ints p) { name = name } in
    create_mtu-IsFound p (put_int w p i) info info.mtu (omega (arith, length-set w.conf.ints p i))

-- For an interface whose index plus one does not wrap around and for which a socket can be opened,
-- `int_create` returns an interface exactly if `int_find` finds one under that index afterwards.
pub int_find-int_create :
    (e : Env) (ifindex : ℕ) (w : World)
    → ifindex + 1 < 2 ^ 32
    → (e.ifinfo ifindex).socket ≡ true
    → int_find (int_create e ifindex w).1.conf ifindex ≡ (int_create e ifindex w).0
unfolding int_create
int_find-int_create e ifindex w h ok =
    let grown = with_conf w (record w.conf { ints = grow w.conf.ints ifindex }) in
    let i : IntNode = record int_zero { ifindex = ifindex } in
    rw ok (
      create_name-IsFound ifindex (put_int grown ifindex i) (e.ifinfo ifindex)
        (e.ifinfo ifindex).name
        (omega (
          arith,
          length-grow w.conf.ints ifindex h,
          length-set (grow w.conf.ints ifindex) ifindex i,
        )))

-- The version that `int_set_mld_version` settles on, by the one that the interface has, the one
-- that is seen now, and whether the last version 1 message is too long ago.
abbrev pub next_version : Conf → Bool → ℕ → ℕ → ℕ
next_version c lapsed version newversion =
    if newversion == 1
    then (if version == 0 && not c.mld2only then 1 else version)
    else let kept : ℕ = if lapsed then 0 else version in
      if kept == 0 && not c.mld1only then newversion else kept

abbrev pub is_lapsed : ℕ → IntNode → Bool
is_lapsed now i = not (i.mld_last_v1 == 0) && ltb (add64 i.mld_last_v1 subscription_timeout) now

-- A version, once settled, stays: a version 1 message changes only version 0, and a version 2
-- message changes version 0 or, when the last switch to version 1 is longer ago than the
-- subscription timeout, any version.
pub mld_version-seen_version :
    (c : Conf) (now : ℕ) (i : IntNode) (newversion : ℕ)
    → (seen_version c now i newversion).mld_version
      ≡ next_version c (is_lapsed now i) i.mld_version newversion
unfolding seen_version
mld_version-seen_version c now i newversion = ground arith

-- The interface after a series of messages, each with its time and version.
abbrev pub hear_all : Conf → List (ℕ × ℕ) → IntNode → IntNode
hear_all c [] i = i
hear_all c ((now, version) ∷ ms) i = hear_all c ms (seen_version c now i version)

stays_at_2 :
    (c : Conf) (now : ℕ) (i : IntNode) (version : ℕ)
    → i.mld_version ≡ 2
    → i.mld_last_v1 ≡ 0
    → ((seen_version c now i version).mld_version ≡ 2)
      × ((seen_version c now i version).mld_last_v1 ≡ 0)
unfolding seen_version
stays_at_2 c now i version v l = ground arith

-- An interface that has settled on version 2 without a version 1 message before stays there,
-- whatever messages it receives at whatever times: a version 1 message never takes it back.
pub hear_all-mld_version :
    (c : Conf) (ms : List (ℕ × ℕ)) (i : IntNode)
    → i.mld_version ≡ 2
    → i.mld_last_v1 ≡ 0
    → (hear_all c ms i).mld_version ≡ 2
hear_all-mld_version c [] i v l = v
hear_all-mld_version c ((now, version) ∷ ms) i v l =
    let (v', l') = stays_at_2 c now i version v l in
    hear_all-mld_version c ms (seen_version c now i version) v' l'
