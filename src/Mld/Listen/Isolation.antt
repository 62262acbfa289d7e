-- ===== src/Mld/Listen/Isolation.antt =====
-- What a version 2 report cannot do, in `l4_ipv6_icmpv6_mld2_report` of src/ecmh.c, whatever memory
-- `calloc` finds.
use ecmh.Prelude.{
  ℕ, zero, suc, ◌+◌, ◌*◌, ◌≡◌, refl, ◌∙◌, inl, inr, Bool, false, not, ◌||◌, ◌==◌, ltb, none, some,
  Bool-cases, Option-cases,
}
use mathlib.Core.Path.{subst}
use ecmh.Addr.{In6Addr, addr_any, addr_at}
use ecmh.Memory.{Memory, ntohs_at}
use ecmh.GrpInt.{GrpIntNode}
use ecmh.Groups.{Got, groupint_get}
use ecmh.Conf.{World, Env, int_at}
use ecmh.Interfaces.{int_set_mld_version}
use ecmh.Mld.Quiet.{groups_of}
use ecmh.Mld.Places.{index_at, index-int_set_mld_version}
use ecmh.Mld.Listen.{
  refresh_sources, refresh_all, announce, get_record, one_record, records, mld2_report, mode_of_all,
  mode_of_source, is_known_type, with_groups,
}
use ecmh.Mld.Listen.WellFormed.{groups-int_set_mld_version}
use ecmh.Mld.Listen.Members.{subscribed}
use ecmh.Mld.Listen.Failures.{groupint_get-subscribed}
use ecmh.Mld.Listen.Handed.{IsHanded, groupint_get-IsHanded}
use ecmh.Mld.Listen.RecordEffect.{refresh_sources-none, refresh_sources-index, announce-index}
use ecmh.Mld.Listen.ReportEffect.{is_local}
use ecmh.Mld.Listen.Entries.{
  Entry, kept, Changes, Changes-trans, same-Changes, refresh-Changes, refresh_sources-Changes,
  announce-Changes,
}

module _ (e : Env) (at : ℕ) where
  -- One round of the loop.
  record Round (p : ℕ) (w w' : World) : Type 0 where
    pub changes : Changes e at w w'
    pub placed : index_at p w' ≡ index_at p w

  module _ (p k : ℕ) (mem : Memory) (stop grec : ℕ) where
    abbrev group : In6Addr
    group = addr_at mem (grec + 4)

    announced-Round :
        (isnew : Bool) (w w' : World) → Round p w w' → Round p w (announce e p group isnew w')
    announced-Round isnew w w' r = record {
      changes = Changes-trans e at r.changes (announce-Changes e at p group isnew w');
      placed = announce-index e p p group isnew w' ∙ r.placed;
    }

    one_record-Round :
        (got : Got) (w : World)
        → Round p w (refresh_all e k (mode_of_all (mem grec)) group got.node w).1
        → Round p w (
            refresh_sources e k mem
              (grec + 20)
              (ntohs_at mem (grec + 2))
              (mode_of_source (mem grec))
              group
              got.node
              w)
        → Round p w (one_record e p k mem stop grec group (got, w)).2
    one_record-Round got w all sources =
        let n = ntohs_at mem (grec + 2) in
        let r = refresh_all e k (mode_of_all (mem grec)) group got.node w in
        let unchanged : Round p w w = record {
          changes = same-Changes e at w w refl;
          placed = refl;
        } in
        elim (Bool-cases (n == 0)) [
          | inl no_source ↦ elim (Bool-cases r.0) [
            | inl done ↦ rw (no_source, done) (announced-Round got.isnew w r.1 all)
            | inr fails ↦ rw (no_source, fails) all
          ]
          | inr some_source ↦ elim (Bool-cases (ltb stop (grec + 20 + n * 16))) [
            | inl too_long ↦ rw (some_source, too_long) unchanged
            | inr fits ↦ rw (some_source, fits) (announced-Round got.isnew w _ sources)
          ]
        ]

    Round-trans : {u v w : World} → Round p u v → Round p v w → Round p u w
    Round-trans f g = record {
      changes = Changes-trans e at f.changes g.changes;
      placed = g.placed ∙ f.placed;
    }

    one_record-none :
        (got : Got) (w : World)
        → got.node ≡ none
        → Round p w (one_record e p k mem stop grec group (got, w)).2
    one_record-none got w h =
        let same =
          refresh_sources-none e k mem (grec + 20) (ntohs_at mem (grec + 2))
            (mode_of_source (mem grec)) group w in
        let unchanged : Round p w w = record {
          changes = same-Changes e at w w refl;
          placed = refl;
        } in
        one_record-Round got w (rw h unchanged) (rw (h, same) unchanged)

    one_record-some :
        (got : Got) (w : World) (gi : GrpIntNode)
        → got.node ≡ some gi
        → is_local group ≡ false
        → IsHanded (groups_of w) group at gi
        → Round p w (one_record e p k mem stop grec group (got, w)).2
    one_record-some got w gi h far handed =
        let n = ntohs_at mem (grec + 2) in
        let mode = mode_of_source (mem grec) in
        one_record-Round got w
          (rw h (record {
            changes =
                refresh-Changes e at (e.alloc k 0) group addr_any (mode_of_all (mem grec)) gi w far
                  handed;
            placed = refl;
          }))
          (rw h (record {
            changes = refresh_sources-Changes e at k mem (grec + 20) n mode group gi w far handed;
            placed = refresh_sources-index e p k mem (grec + 20) n mode group (some gi) w;
          }))

    get_one-Round :
        (isnew : Bool) (w : World)
        → index_at p w ≡ at
        → Round p w (one_record e p k mem stop grec group (get_record e p k group isnew w)).2
    get_one-Round isnew w here =
        let i = index_at p w in
        let got = groupint_get (e.alloc k 0) e.now (groups_of w) group i in
        elim (Bool-cases (is_local group)) [
          | inl local ↦
              let nothing : Got = record { node = none; isnew = isnew; groups = groups_of w } in
              rw local (one_record-none nothing w refl)
          | inr far ↦
              let v = with_groups w got.groups in
              let entered : Round p w v = record {
                changes = record {
                  entry = λ k' i' j.
                      kept
                        (groupint_get-subscribed (e.alloc k 0) e.now i (groups_of w) group k' i' j);
                };
                placed = refl;
              } in
              rw far (
                Round-trans entered (elim (Option-cases got.node) [
                  | inl lost ↦ one_record-none got v lost
                  | inr (gi, found) ↦ one_record-some got v gi found far (
                      subst (λ x. IsHanded got.groups group x gi) here
                        (groupint_get-IsHanded (e.alloc k 0) e.now i (groups_of w) group gi found))
                ]))
        ]

  records-Changes :
      (p : ℕ) (mem : Memory) (k stop grec : ℕ) (isnew : Bool) (w : World)
      → index_at p w ≡ at
      → Changes e at w (records e p k mem stop grec isnew w)
  unfolding records
  records-Changes p mem zero stop grec isnew w here = same-Changes e at w w refl
  records-Changes p mem (suc k) stop grec isnew w here =
      let mca = addr_at mem (grec + 4) in
      let one = one_record e p (suc k) mem stop grec mca (get_record e p (suc k) mca isnew w) in
      let round = get_one-Round p (suc k) mem stop grec isnew w here in
      let next = grec + 20 + ntohs_at mem (grec + 2) * 16 + mem (grec + 1) in
      elim (Bool-cases (ltb stop grec || not (is_known_type (mem grec)))) [
        | inl bad ↦ rw bad (same-Changes e at w w refl)
        | inr good ↦ elim (Bool-cases one.0) [
          | inr stopped ↦ rw (good, stopped) round.changes
          | inl goes_on ↦
              rw (good, goes_on)
                (Changes-trans e at round.changes
                  (records-Changes p mem k stop next one.1 one.2 (round.placed ∙ here)))
        ]
      ]

mld2_report-Changes :
    (e : Env) (p : ℕ) (mem : Memory) (off plen : ℕ) (w : World)
    → Changes e (int_at w.conf.ints p).ifindex w (mld2_report e p mem off plen w)
unfolding mld2_report
mld2_report-Changes e p mem off plen w =
    let at = (int_at w.conf.ints p).ifindex in
    let seen = int_set_mld_version e p 2 w in
    let n = ntohs_at mem (off + 6) in
    let first = same-Changes e at w seen (groups-int_set_mld_version e p 2 w) in
    elim (Bool-cases (ltb plen (8 + n * 20))) [
      | inl short ↦ rw short first
      | inr fits ↦ rw fits (
          Changes-trans e at first (
            records-Changes e at p mem n (off + plen) (off + 8) false seen
              (index-int_set_mld_version p e p 2 w)))
    ]

-- Whatever memory `calloc` finds for the nodes and their links, and whatever a version 2 report
-- says, each subscription after it is as it was, or it is one of the interface that the report came
-- in on, for a group that is neither node-local nor link-local, and refreshed now: no report
-- removes a subscription, or changes one of another interface.
pub mld2_report-Entry :
    (e : Env) (p : ℕ) (mem : Memory) (off plen : ℕ) (w : World) (k : In6Addr) (i : ℕ) (j : In6Addr)
    → Entry e.now
        (int_at w.conf.ints p).ifindex
        k
        i
        j
        (subscribed (groups_of w) k i j)
        (subscribed (groups_of (mld2_report e p mem off plen w)) k i j)
mld2_report-Entry e p mem off plen w k i j = (mld2_report-Changes e p mem off plen w).entry k i j
