-- ===== src/Mld/Listen/Records.antt =====
-- The registry of groups under `l4_ipv6_icmpv6_mld2_report` of src/ecmh.c.
use ecmh.Prelude.{
  ℕ, zero, suc, ◌+◌, ◌*◌, refl, inl, inr, Bool, true, false, not, ◌||◌, ◌==◌, ltb, Option, none,
  some, Bool-cases,
}
use ecmh.Addr.{In6Addr, addr_any, is_addr_mc_nodelocal, is_addr_mc_linklocal, addr_at}
use ecmh.Memory.{Memory, ntohs_at}
use ecmh.GrpInt.{GrpIntNode, grpint_refresh}
use ecmh.GrpInt.Laws.{grpint_refresh-IsSound}
use ecmh.Groups.{Got}
use ecmh.Groups.WellFormed.{IsSoundNode, groupint_get-IsRegistry}
use ecmh.Conf.{World, Env, int_at}
use ecmh.Mld.Listen.{
  refresh_sources, refresh_all, get_record, announce, one_record, records, mld2_report, mode_of_all,
  mode_of_source, is_known_type,
}
use ecmh.Mld.Listen.WellFormed.{
  HasRegistry, store_grpint-IsRegistry, seen-HasRegistry, report_all-HasRegistry,
}

module _ (e : Env) where
  refresh_sources-HasRegistry :
      (k : ℕ) (mem : Memory) (src n mode : ℕ) (mca : In6Addr) (o : Option GrpIntNode) (w : World)
      (i : ℕ)
      → HasRegistry w
      → IsSoundNode i o
      → HasRegistry (refresh_sources e k mem src n mode mca o w)
  unfolding refresh_sources
  refresh_sources-HasRegistry k mem src zero mode mca o w i v s = v
  refresh_sources-HasRegistry k mem src (suc n) mode mca none w i v s = v
  refresh_sources-HasRegistry k mem src (suc n) mode mca (some gi) w i v s =
      let a = e.alloc k (suc n) in
      let ipv6 = addr_at mem src in
      let s' = grpint_refresh-IsSound a e.now gi ipv6 mode s.1 in
      refresh_sources-HasRegistry k mem (src + 16) n mode mca _ _
        (grpint_refresh a e.now gi ipv6 mode).1.ifindex
        (store_grpint-IsRegistry w.conf.groups mca (grpint_refresh a e.now gi ipv6 mode).1 v s')
        (refl, s')

  refresh_all-HasRegistry :
      (k mode : ℕ) (mca : In6Addr) (o : Option GrpIntNode) (w : World) (i : ℕ)
      → HasRegistry w
      → IsSoundNode i o
      → HasRegistry (refresh_all e k mode mca o w).1
  refresh_all-HasRegistry k mode mca none w i v s = v
  refresh_all-HasRegistry k mode mca (some gi) w i v s =
      store_grpint-IsRegistry w.conf.groups mca
        (grpint_refresh (e.alloc k 0) e.now gi addr_any mode).1 v
        (grpint_refresh-IsSound (e.alloc k 0) e.now gi addr_any mode s.1)

  get_record-HasRegistry :
      (p k : ℕ) (mca : In6Addr) (isnew : Bool) (w : World)
      → HasRegistry w
      → HasRegistry (get_record e p k mca isnew w).1
        × IsSoundNode (int_at w.conf.ints p).ifindex (get_record e p k mca isnew w).0.node
  get_record-HasRegistry p k mca isnew w v =
      elim (Bool-cases (is_addr_mc_nodelocal mca || is_addr_mc_linklocal mca)) [
        | inl local ↦ rw local (v, tt)
        | inr wide ↦ rw wide (
            groupint_get-IsRegistry (e.alloc k 0) e.now (int_at w.conf.ints p).ifindex w.conf.groups
              mca v)
      ]

  announce-HasRegistry :
      (p : ℕ) (mca : In6Addr) (isnew : Bool) (w : World)
      → HasRegistry w
      → HasRegistry (announce e p mca isnew w)
  announce-HasRegistry p mca true w v = report_all-HasRegistry e p mca w v
  announce-HasRegistry p mca false w v = v

  -- The body of the loop over the records.
  one_record-HasRegistry :
      (p k : ℕ) (mem : Memory) (stop grec : ℕ) (mca : In6Addr) (got : Got) (w : World) (i : ℕ)
      → HasRegistry w
      → IsSoundNode i got.node
      → HasRegistry (one_record e p k mem stop grec mca (got, w)).2
  one_record-HasRegistry p k mem stop grec mca got w i v s =
      let n = ntohs_at mem (grec + 2) in
      let all = refresh_all e k (mode_of_all (mem grec)) mca got.node w in
      let w1 = all.1 in
      let w2 = refresh_sources e k mem (grec + 20) n (mode_of_source (mem grec)) mca got.node w in
      let v1 = refresh_all-HasRegistry k (mode_of_all (mem grec)) mca got.node w i v s in
      let v2 =
        refresh_sources-HasRegistry k mem (grec + 20) n (mode_of_source (mem grec)) mca got.node w i
          v s in
      elim (Bool-cases (n == 0)) [
        | inl no_source ↦ elim (Bool-cases all.0) [
          | inl done ↦ rw (no_source, done) (announce-HasRegistry p mca got.isnew w1 v1)
          | inr failed ↦ rw (no_source, failed) v1
        ]
        | inr sources ↦ elim (Bool-cases (ltb stop (grec + 20 + n * 16))) [
          | inl too_long ↦ rw (sources, too_long) v
          | inr fits ↦ rw (sources, fits) (announce-HasRegistry p mca got.isnew w2 v2)
        ]
      ]

  records-HasRegistry :
      (p k : ℕ) (mem : Memory) (stop grec : ℕ) (isnew : Bool) (w : World)
      → HasRegistry w
      → HasRegistry (records e p k mem stop grec isnew w)
  unfolding records
  records-HasRegistry p zero mem stop grec isnew w v = v
  records-HasRegistry p (suc k) mem stop grec isnew w v =
      let mca = addr_at mem (grec + 4) in
      let got = get_record e p (suc k) mca isnew w in
      let (r, n) = get_record-HasRegistry p (suc k) mca isnew w v in
      let one = one_record e p (suc k) mem stop grec mca got in
      let kept = one_record-HasRegistry p (suc k) mem stop grec mca got.0 got.1 _ r n in
      elim (Bool-cases (ltb stop grec || not (is_known_type (mem grec)))) [
        | inl bad ↦ rw bad v
        | inr good ↦ elim (Bool-cases one.0) [
          | inl next ↦
              rw (good, next)
                (records-HasRegistry p k mem stop
                  (grec + 20 + ntohs_at mem (grec + 2) * 16 + mem (grec + 1)) one.1 one.2 kept)
          | inr return ↦ rw (good, return) kept
        ]
      ]

  -- A version 2 report, well formed or not, keeps the registry of groups well formed.
  pub mld2_report-HasRegistry :
      (p : ℕ) (mem : Memory) (off plen : ℕ) (w : World)
      → HasRegistry w
      → HasRegistry (mld2_report e p mem off plen w)
  unfolding mld2_report
  mld2_report-HasRegistry p mem off plen w v =
      elim (Bool-cases (ltb plen (8 + ntohs_at mem (off + 6) * 20))) [
        | inl short ↦ rw short (seen-HasRegistry e p 2 w v)
        | inr fits ↦ rw fits (
            records-HasRegistry p (ntohs_at mem (off + 6)) mem (off + plen) (off + 8) false _
              (seen-HasRegistry e p 2 w v))
      ]
