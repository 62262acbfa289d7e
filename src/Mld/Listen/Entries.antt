-- ===== src/Mld/Listen/Entries.antt =====
-- How the subscriptions change in the loops of `l4_ipv6_icmpv6_mld2_report` of src/ecmh.c, whatever
-- memory `calloc` finds.
use ecmh.Prelude.{
  ℕ, zero, suc, ◌+◌, ◌≡◌, refl, sym, ap, ◌∙◌, inl, inr, Bool, true, false, Option, some,
}
use ecmh.Addr.{In6Addr, addr_at}
use ecmh.Memory.{Memory}
use ecmh.Subscr.{SubscrNode}
use ecmh.GrpInt.{GrpIntNode, Alloc, grpint_refresh}
use ecmh.Conf.{World, Env}
use ecmh.Mld.Quiet.{groups_of, groups-mld_send_report_all}
use ecmh.Mld.Listen.{store_grpint, refresh_sources, announce, with_groups}
use ecmh.Mld.Listen.Members.{subscribed}
use ecmh.Mld.Listen.Handed.{IsHanded}
use ecmh.Mld.Listen.Stored.{Written, refreshed, store_grpint-Written, store_grpint-IsHanded}
use ecmh.Mld.Listen.ReportEffect.{is_local}

-- An entry after a report at `now` that came in on the interface `at`: as it was, or refreshed by
-- the report.
pub data Entry (now at : ℕ) (k : In6Addr) (i : ℕ) (j : In6Addr) (old new : Option SubscrNode)
    : Type 0 where
  kept : new ≡ old → Entry now at k i j old new
  fresh :
      (mode : ℕ)
      → at ≡ i
      → is_local k ≡ false
      → new ≡ some (record { ipv6 = j; mode = mode; refreshtime = now })
      → Entry now at k i j old new

Entry-trans :
    {now at : ℕ} {k : In6Addr} {i : ℕ} {j : In6Addr} {a b c : Option SubscrNode}
    → Entry now at k i j a b
    → Entry now at k i j b c
    → Entry now at k i j a c
Entry-trans (kept p) (kept q) = kept (q ∙ p)
Entry-trans (fresh mode p l e) (kept q) = fresh mode p l (q ∙ e)
Entry-trans x (fresh mode p l e) = fresh mode p l e

-- By what a refresh writes.
entry_of :
    {now at mode : ℕ} {mca src : In6Addr} {k : In6Addr} {i : ℕ} {j : In6Addr}
    {old new : Option SubscrNode}
    → is_local mca ≡ false
    → Written now mca at src mode k i j old new
    → Entry now at k i j old new
entry_of far (inl e) = kept e
entry_of {now = now} {mode = mode} far (inr (group, int, source, e)) =
    fresh mode int (ap is_local (sym group) ∙ far)
      (e ∙ ap (λ x. some (record { ipv6 = x; mode = mode; refreshtime = now })) source)

module _ (e : Env) (at : ℕ) where
  pub record Changes (w w' : World) : Type 0 where
    pub entry :
        (k : In6Addr) (i : ℕ) (j : In6Addr)
        → Entry e.now at k i j (subscribed (groups_of w) k i j) (subscribed (groups_of w') k i j)

  pub Changes-trans : {u v w : World} → Changes u v → Changes v w → Changes u w
  Changes-trans f g = record { entry = λ k i j. Entry-trans (f.entry k i j) (g.entry k i j) }

  pub same-Changes : (w w' : World) → groups_of w' ≡ groups_of w → Changes w w'
  same-Changes w w' h = record { entry = λ k i j. kept (ap (λ l. subscribed l k i j) h) }

  pub refresh-Changes :
      (a : Alloc) (mca src : In6Addr) (mode : ℕ) (gi : GrpIntNode) (w : World)
      → is_local mca ≡ false
      → IsHanded (groups_of w) mca at gi
      → Changes w
          (with_groups w (store_grpint w.conf.groups mca (grpint_refresh a e.now gi src mode).1))
  refresh-Changes a mca src mode gi w far h = record {
    entry = λ k i j.
        entry_of far (store_grpint-Written a e.now mca at src mode w.conf.groups gi k i j h);
  }

  pub refresh_sources-Changes :
      (k : ℕ) (mem : Memory) (src n mode : ℕ) (mca : In6Addr) (gi : GrpIntNode) (w : World)
      → is_local mca ≡ false
      → IsHanded (groups_of w) mca at gi
      → Changes w (refresh_sources e k mem src n mode mca (some gi) w)
  unfolding refresh_sources
  refresh_sources-Changes k mem src zero mode mca gi w far h = same-Changes w w refl
  refresh_sources-Changes k mem src (suc n) mode mca gi w far h =
      let a = e.alloc k (suc n) in
      let source = addr_at mem src in
      let gi' = refreshed a e.now mca at source mode gi in
      Changes-trans (refresh-Changes a mca source mode gi w far h) (
        refresh_sources-Changes k mem (src + 16) n mode mca gi'
          (with_groups w (store_grpint w.conf.groups mca gi')) far
          (store_grpint-IsHanded a e.now mca at source mode w.conf.groups gi h))

  pub announce-Changes :
      (p : ℕ) (mca : In6Addr) (isnew : Bool) (w : World) → Changes w (announce e p mca isnew w)
  announce-Changes p mca isnew w = same-Changes w (announce e p mca isnew w) (by_flag isnew)
    where
      by_flag : (isnew : Bool) → groups_of (announce e p mca isnew w) ≡ groups_of w
      by_flag true = groups-mld_send_report_all e p mca w
      by_flag false = refl
