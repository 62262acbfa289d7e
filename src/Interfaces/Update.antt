-- ===== src/Interfaces/Update.antt =====
-- `update_interfaces` of src/ecmh.c, with ECMH_GETIFADDR.
use ecmh.Prelude.{
  ℕ, Bool, true, false, not, ◌&&◌, ◌||◌, ◌==◌, ltb, add64, Option, none, some, List, [], ◌∷◌,
  if◌then◌else◌,
}
use ecmh.Addr.{is_addr_unspecified, is_addr_loopback, is_addr_multicast, is_addr_linklocal}
use ecmh.Conf.{World, Env, SockAddr, no_addr, inet6, packet, IfAddr, int_at, with_conf, put_int}
use ecmh.Interfaces.{int_destroy, int_find, int_create}

-- Loopbacks, devices that are down or do not run, and AF_PACKET entries are passed over.
abbrev pub is_ignored : IfAddr → Bool
is_ignored a = a.loopback || not a.up || not a.running || is_packet a.addr
  where
    is_packet : SockAddr → Bool
    is_packet no_addr = true
    is_packet packet = true
    is_packet _ = false

-- Addresses that are no use here.
abbrev pub is_skipped : SockAddr → Bool
is_skipped (inet6 a) =
    not (is_addr_linklocal a)
    && (is_addr_unspecified a || is_addr_loopback a || is_addr_multicast a)
is_skipped _ = false

-- The world with `gotlinkl` and `gotglobal`.
pub record Scan : Type 0 where
  pub world : World
  pub gotlinkl : Bool
  pub gotglobal : Bool

-- The address is written to the interface.
unfoldable pub take_addr : ℕ → SockAddr → Scan → Scan
take_addr p (inet6 a) s =
    let i = int_at s.world.conf.ints p in
    if is_addr_linklocal a
    then record s { world = put_int s.world p (record i { linklocal = a }); gotlinkl = true }
    else record s { world = put_int s.world p (record i { global = a }); gotglobal = true }
take_addr p _ s = s

-- One entry, for one interface. The test that passes an entry over holds for the entries of that
-- very interface.
unfoldable pub scan_specific : List IfAddr → ℕ → Scan → Scan
scan_specific [] p s = s
scan_specific (a ∷ as') p s =
    let next =
      if is_ignored a || is_skipped a.addr || (int_at s.world.conf.ints p).ifindex == a.index
      then s
      else take_addr p a.addr s in
    let stop =
      not (is_ignored a || is_skipped a.addr || (int_at s.world.conf.ints p).ifindex == a.index)
      && next.gotlinkl
      && next.gotglobal in
    let rest = scan_specific as' p next in if stop then next else rest

-- An interface that is new and got no address goes again.
abbrev pub settle : ℕ → Bool → Scan → World
settle p newintn s =
    if newintn && not (s.gotlinkl || s.gotglobal) then int_destroy p s.world else s.world

abbrev pub no_scan : World → Scan
no_scan w = record { world = w; gotlinkl = false; gotglobal = false }

-- The address of an entry whose interface was not known, after `int_create`.
abbrev pub visit_new : SockAddr → Option ℕ × World → World
visit_new a (none, w) = w
visit_new a (some p, w) = settle p true (take_addr p a (no_scan w))

abbrev pub visit_int : Env → IfAddr → World → Option ℕ → World
visit_int e a w (some p) = settle p false (take_addr p a.addr (no_scan w))
visit_int e a w none = visit_new a.addr (int_create e a.index w)

-- One entry, for all interfaces.
unfoldable pub visit : Env → IfAddr → World → World
visit e a w =
    if is_ignored a || is_skipped a.addr then w else visit_int e a w (int_find w.conf a.index)

unfoldable pub scan_all : Env → List IfAddr → World → World
scan_all e [] w = w
scan_all e (a ∷ as') w = scan_all e as' (visit e a w)

-- `none` stands for NULL, `some p` for the interface at `p`.
unfoldable pub update_interfaces : Env → Option ℕ → World → World
update_interfaces e specific w =
    if ltb e.now (add64 w.conf.last_update 300)
    then w
    else let stamped = with_conf w (record w.conf { last_update = e.now }) in
      elim e.getifaddrs [
        | none ↦ stamped
        | some as' ↦ elim specific [
          | none ↦ scan_all e as' stamped
          | some p ↦
              (scan_specific as' p
                (record { world = stamped; gotlinkl = false; gotglobal = false })).world
        ]
      ]
