-- ===== src/Interfaces/Quiet.antt =====
-- The groups while `int_create` of src/interfaces.c and `update_interfaces` of src/ecmh.c run.
use ecmh.Prelude.{
  ℕ, ◌≡◌, refl, ◌∙◌, inl, inr, Bool, true, false, ◌||◌, ◌==◌, ltb, add64, Option, none, some, List,
  [], ◌∷◌, arith, Bool-cases, Option-cases,
}
use ecmh.Conf.{World, Env, IfInfo, SockAddr, inet6, IfAddr}
use ecmh.Interfaces.{
  int_destroy, int_find, int_create, create_name, create_mtu, create_hwaddr, set_upstream,
  loopback_type,
}
use ecmh.Interfaces.Update.{
  Scan, is_ignored, is_skipped, take_addr, scan_specific, settle, no_scan, visit_new, visit_int,
  visit, scan_all, update_interfaces,
}
use ecmh.Mld.Quiet.{groups_of}

pub groups-int_destroy : (p : ℕ) (w : World) → groups_of (int_destroy p w) ≡ groups_of w
unfolding int_destroy
groups-int_destroy p w = refl

groups-set_upstream : (p : ℕ) (w : World) → groups_of (set_upstream p w) ≡ groups_of w
groups-set_upstream p w = ground arith

groups-create_hwaddr :
    (p : ℕ) (w : World) (o : Option ℕ) → groups_of (create_hwaddr p w o).1 ≡ groups_of w
groups-create_hwaddr p w none = groups-int_destroy p w
groups-create_hwaddr p w (some family) = elim (Bool-cases (family == loopback_type)) [
  | inl loopback ↦ rw loopback (groups-int_destroy p _)
  | inr real ↦ rw real (groups-set_upstream p _)
]

groups-create_mtu :
    (p : ℕ) (w : World) (info : IfInfo) (o : Option ℕ)
    → groups_of (create_mtu p w info o).1 ≡ groups_of w
groups-create_mtu p w info none = groups-int_destroy p w
groups-create_mtu p w info (some mtu) = elim (Bool-cases (ltb mtu 1280)) [
  | inl small ↦ rw small (groups-int_destroy p w)
  | inr fits ↦ rw fits (groups-create_hwaddr p _ info.hwaddr)
]

groups-create_name :
    (p : ℕ) (w : World) (info : IfInfo) (o : Option (List ℕ))
    → groups_of (create_name p w info o).1 ≡ groups_of w
groups-create_name p w info none = groups-int_destroy p w
groups-create_name p w info (some name) = groups-create_mtu p _ info info.mtu

pub groups-int_create :
    (e : Env) (ifindex : ℕ) (w : World) → groups_of (int_create e ifindex w).1 ≡ groups_of w
unfolding int_create
groups-int_create e ifindex w = elim (Bool-cases (e.ifinfo ifindex).socket) [
  | inl ok ↦ rw ok (groups-create_name ifindex _ (e.ifinfo ifindex) (e.ifinfo ifindex).name)
  | inr failed ↦ rw failed
]

groups-take_addr :
    (p : ℕ) (a : SockAddr) (s : Scan) → groups_of (take_addr p a s).world ≡ groups_of s.world
unfolding take_addr
groups-take_addr p (inet6 a) s = ground arith
groups-take_addr p _ s = refl

groups-scan_specific :
    (as' : List IfAddr) (p : ℕ) (s : Scan)
    → groups_of (scan_specific as' p s).world ≡ groups_of s.world
unfolding scan_specific
groups-scan_specific [] p s = refl
groups-scan_specific (a ∷ as') p s = ground (
  arith,
  groups-take_addr p a.addr s,
  groups-scan_specific as' p s,
  groups-scan_specific as' p (take_addr p a.addr s),
)

groups-settle :
    (p : ℕ) (newintn : Bool) (s : Scan) → groups_of (settle p newintn s) ≡ groups_of s.world
groups-settle p newintn s = ground (arith, groups-int_destroy p s.world)

groups-visit_new : (a : SockAddr) (r : Option ℕ × World) → groups_of (visit_new a r) ≡ groups_of r.1
groups-visit_new a (none, w) = refl
groups-visit_new a (some p, w) =
    groups-settle p true (take_addr p a (no_scan w)) ∙ groups-take_addr p a (no_scan w)

groups-visit : (e : Env) (a : IfAddr) (w : World) → groups_of (visit e a w) ≡ groups_of w
unfolding visit
groups-visit e a w = elim (Bool-cases (is_ignored a || is_skipped a.addr)) [
  | inl pass ↦ rw pass
  | inr take ↦ rw take (known (int_find w.conf a.index))
]
  where
    known : (o : Option ℕ) → groups_of (visit_int e a w o) ≡ groups_of w
    known none = groups-visit_new a.addr (int_create e a.index w) ∙ groups-int_create e a.index w
    known (some p) =
        groups-settle p false (take_addr p a.addr (no_scan w))
        ∙ groups-take_addr p a.addr (no_scan w)

groups-scan_all :
    (e : Env) (as' : List IfAddr) (w : World) → groups_of (scan_all e as' w) ≡ groups_of w
unfolding scan_all
groups-scan_all e [] w = refl
groups-scan_all e (a ∷ as') w = groups-scan_all e as' (visit e a w) ∙ groups-visit e a w

pub groups-update_interfaces :
    (e : Env) (specific : Option ℕ) (w : World)
    → groups_of (update_interfaces e specific w) ≡ groups_of w
unfolding update_interfaces
groups-update_interfaces e specific w =
    elim (Bool-cases (ltb e.now (add64 w.conf.last_update 300))) [
      | inl early ↦ rw early
      | inr due ↦ elim (Option-cases e.getifaddrs) [
        | inl failed ↦ rw (due, failed)
        | inr (as', ok) ↦ elim (Option-cases specific) [
          | inl all ↦ rw (due, ok, all) (groups-scan_all e as' _)
          | inr (p, one) ↦ rw (due, ok, one) (groups-scan_specific as' p _)
        ]
      ]
    ]
