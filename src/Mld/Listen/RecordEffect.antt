-- ===== src/Mld/Listen/RecordEffect.antt =====
-- What a version 2 report does, in `l4_ipv6_icmpv6_mld2_report` of src/ecmh.c, to the
-- subscriptions: record by record, read off the message.
use ecmh.Prelude.{
  ℕ, zero, suc, ◌+◌, ◌*◌, ◌≡◌, refl, ap, ◌∙◌, inl, inr, Bool, true, false, not, ◌&&◌, ◌||◌, ◌==◌,
  ltb, Option, none, some, Bool-cases, if◌then◌else◌,
}
use ecmh.Addr.{
  In6Addr, addr_any, is_addr_unspecified, is_addr_mc_nodelocal, is_addr_mc_linklocal, addr_at,
}
use ecmh.Memory.{Memory, ntohs_at}
use ecmh.LinkList.{LinkedList}
use ecmh.Subscr.{SubscrNode, mode_is_exclude, subscr_create, subscr_find}
use ecmh.GrpInt.{GrpIntNode, Alloc, subscribe, grpint_refresh}
use ecmh.Groups.Lookup.{HasMemory}
use ecmh.Conf.{World, Env}
use ecmh.Mld.Quiet.{groups_of, groups-mld_send_report_all}
use ecmh.Mld.Places.{index_at, index-mld_send_report_all}
use ecmh.Mld.Listen.{refresh_sources, announce, mode_of_all, mode_of_source, is_known_type}
use ecmh.Mld.Listen.Members.{subscribed}
use ecmh.Mld.Listen.Membership.{
  Membership, refreshed, IsAt, store_grpint-refreshed, store_grpint-IsAt,
}

abbrev pub members : World → Membership
members w = subscribed (groups_of w)

-- The sources that stand from `src` on.
unfoldable pub sources_refreshed : ℕ → ℕ → Memory → ℕ → ℕ → ℕ → In6Addr → Membership → Membership
sources_refreshed now i mem src zero mode mca m = m
sources_refreshed now i mem src (suc n) mode mca m =
    sources_refreshed now i mem (src + 16) n mode mca (refreshed now mca i (addr_at mem src) mode m)

-- The record at `grec`, in a report that came in on the interface `i`.
abbrev pub record_effect : ℕ → ℕ → Memory → ℕ → Membership → Membership
record_effect now i mem grec m =
    let mca = addr_at mem (grec + 4) in
    let n = ntohs_at mem (grec + 2) in
    if is_addr_mc_nodelocal mca || is_addr_mc_linklocal mca
    then m
    else if n == 0
    then refreshed now mca i addr_any (mode_of_all (mem grec)) m
    else sources_refreshed now i mem (grec + 20) n (mode_of_source (mem grec)) mca m

-- The report stops at a record past the end, of an unknown type, or with sources past the end.
abbrev pub is_readable : Memory → ℕ → ℕ → Bool
is_readable mem stop grec =
    let n = ntohs_at mem (grec + 2) in
    not (ltb stop grec || not (is_known_type (mem grec)))
    && (n == 0 || not (ltb stop (grec + 20 + n * 16)))

unfoldable pub records_effect : ℕ → ℕ → ℕ → Memory → ℕ → ℕ → Membership → Membership
records_effect now i zero mem stop grec m = m
records_effect now i (suc k) mem stop grec m =
    let rest =
      records_effect now i k mem stop (grec + 20 + ntohs_at mem (grec + 2) * 16 + mem (grec + 1))
        (record_effect now i mem grec m) in
    if is_readable mem stop grec then rest else m

subscribe-done :
    (a : Alloc) (now : ℕ) (l : LinkedList SubscrNode) (ipv6 : In6Addr) (mode : ℕ)
    (o : Option SubscrNode)
    → a.subscr ≡ true
    → (subscribe a now l ipv6 mode o).0 ≡ true
unfolding subscr_create
subscribe-done a now l ipv6 mode (some s) m = refl
subscribe-done a now l ipv6 mode none m = rw m refl

pub grpint_refresh-done :
    (a : Alloc) (now : ℕ) (g : GrpIntNode) (ipv6 : In6Addr) (mode : ℕ)
    → HasMemory a
    → (grpint_refresh a now g ipv6 mode).0 ≡ true
unfolding grpint_refresh
grpint_refresh-done a now g ipv6 mode m =
    elim (Bool-cases (mode == mode_is_exclude && is_addr_unspecified ipv6)) [
      | inl e ↦ rw e refl
      | inr e ↦ rw e (
          subscribe-done a now g.subscriptions ipv6 mode (subscr_find g.subscriptions ipv6)
            m.subscr)
    ]

module _ (e : Env) (m : (k n : ℕ) → HasMemory (e.alloc k n)) where
  pub refresh_sources-members :
      (k : ℕ) (mem : Memory) (src n mode : ℕ) (mca : In6Addr) (gi : GrpIntNode) (w : World) (i : ℕ)
      → IsAt (groups_of w) mca i gi
      → members (refresh_sources e k mem src n mode mca (some gi) w)
        ≡ sources_refreshed e.now i mem src n mode mca (members w)
  unfolding refresh_sources sources_refreshed
  refresh_sources-members k mem src zero mode mca gi w i v = refl
  refresh_sources-members k mem src (suc n) mode mca gi w i v =
      let a = e.alloc k (suc n) in
      let ipv6 = addr_at mem src in
      refresh_sources-members k mem (src + 16) n mode mca (grpint_refresh a e.now gi ipv6 mode).1 _
        i (store_grpint-IsAt a e.now (m k (suc n)) w.conf.groups mca i gi ipv6 mode v)
      ∙ ap (sources_refreshed e.now i mem (src + 16) n mode mca)
          (store_grpint-refreshed a e.now (m k (suc n)) w.conf.groups mca i gi ipv6 mode v)

module _ (e : Env) where
  pub refresh_sources-none :
      (k : ℕ) (mem : Memory) (src n mode : ℕ) (mca : In6Addr) (w : World)
      → refresh_sources e k mem src n mode mca none w ≡ w
  unfolding refresh_sources
  refresh_sources-none k mem src zero mode mca w = refl
  refresh_sources-none k mem src (suc n) mode mca w = refl

  pub refresh_sources-index :
      (p k : ℕ) (mem : Memory) (src n mode : ℕ) (mca : In6Addr) (o : Option GrpIntNode) (w : World)
      → index_at p (refresh_sources e k mem src n mode mca o w) ≡ index_at p w
  unfolding refresh_sources
  refresh_sources-index p k mem src zero mode mca o w = refl
  refresh_sources-index p k mem src (suc n) mode mca none w = refl
  refresh_sources-index p k mem src (suc n) mode mca (some gi) w =
      refresh_sources-index p k mem (src + 16) n mode mca _ _

  pub announce-members :
      (p : ℕ) (mca : In6Addr) (isnew : Bool) (w : World)
      → members (announce e p mca isnew w) ≡ members w
  announce-members p mca true w = ap subscribed (groups-mld_send_report_all e p mca w)
  announce-members p mca false w = refl

  pub announce-index :
      (p k : ℕ) (mca : In6Addr) (isnew : Bool) (w : World)
      → index_at k (announce e p mca isnew w) ≡ index_at k w
  announce-index p k mca true w = index-mld_send_report_all k e p mca w
  announce-index p k mca false w = refl
