-- ===== src/Mld/Listen/ReportEffect.antt =====
-- What a whole version 2 report does to the subscriptions, in `l4_ipv6_icmpv6_mld2_report` of
-- src/ecmh.c.
use ecmh.Prelude.{
  ℕ, zero, suc, ◌+◌, ◌*◌, ◌≡◌, refl, ap, sym, ◌∙◌, inl, inr, Bool, false, not, ◌||◌, ◌==◌, ltb,
  none, some, Bool-cases, if◌then◌else◌,
}
use mathlib.Core.Path.{subst}
use ecmh.Addr.{In6Addr, addr_any, is_addr_mc_nodelocal, is_addr_mc_linklocal, addr_at}
use ecmh.Memory.{Memory, ntohs_at}
use ecmh.GrpInt.{GrpIntNode}
use ecmh.Groups.{Got, groupint_get}
use ecmh.Groups.Lookup.{HasMemory, grpint_at, or_new, groupint_get-node}
use ecmh.Conf.{World, Env, int_at}
use ecmh.Interfaces.{int_set_mld_version}
use ecmh.Mld.Quiet.{groups_of}
use ecmh.Mld.Places.{index_at, index-int_set_mld_version}
use ecmh.Mld.Listen.{
  get_record, one_record, records, mld2_report, mode_of_all, mode_of_source, is_known_type,
  with_groups,
}
use ecmh.Mld.Listen.WellFormed.{groups-int_set_mld_version}
use ecmh.Mld.Listen.Members.{subscribed}
use ecmh.Mld.Listen.Membership.{
  Membership, IsAt, store_grpint-refreshed, groupint_get-IsAt, groupint_get-subscribed,
}
use ecmh.Mld.Listen.RecordEffect.{
  members, record_effect, records_effect, grpint_refresh-done, refresh_sources-members,
  refresh_sources-index, refresh_sources-none, announce-members, announce-index,
}

abbrev pub is_local : In6Addr → Bool
is_local mca = is_addr_mc_nodelocal mca || is_addr_mc_linklocal mca

-- The sources of the record at `grec` end before the message does.
abbrev is_whole : Memory → ℕ → ℕ → Bool
is_whole mem stop grec =
    let n = ntohs_at mem (grec + 2) in n == 0 || not (ltb stop (grec + 20 + n * 16))

-- One round of the loop: whether it goes on, the subscriptions, and the index of the interface.
record Effect (p : ℕ) (r : Bool × Bool × World) (go : Bool) (m : Membership) (i : ℕ) : Type 0 where
  pub goes_on : r.0 ≡ go
  pub written : members r.2 ≡ m
  pub placed : index_at p r.2 ≡ i

module _ (e : Env) (p k : ℕ) (mem : Memory) (stop grec : ℕ)
    (m : (k n : ℕ) → HasMemory (e.alloc k n)) where
  abbrev Spec : Bool × Bool × World → ℕ → Membership → Type 0
  Spec r i x =
      Effect p r (is_whole mem stop grec)
        (if is_whole mem stop grec then record_effect e.now i mem grec x else x) i

  one_record-local :
      (got : Got) (w : World)
      → got.node ≡ none
      → Effect p
          (one_record e p k mem stop grec (addr_at mem (grec + 4)) (got, w))
          (is_whole mem stop grec)
          (members w)
          (index_at p w)
  one_record-local got w h =
      let mca = addr_at mem (grec + 4) in
      let n = ntohs_at mem (grec + 2) in
      let same = refresh_sources-none e k mem (grec + 20) n (mode_of_source (mem grec)) mca w in
      elim (Bool-cases (n == 0)) [
        | inl no_source ↦
            rw (h, no_source)
              (record {
                goes_on = refl;
                written = announce-members e p mca got.isnew w;
                placed = announce-index e p p mca got.isnew w;
              })
        | inr sources ↦ elim (Bool-cases (ltb stop (grec + 20 + n * 16))) [
          | inl too_long ↦
              rw (h, sources, too_long) (record { goes_on = refl; written = refl; placed = refl })
          | inr fits ↦
              rw (h, sources, fits)
                (record {
                  goes_on = refl;
                  written = announce-members e p mca got.isnew _ ∙ ap members same;
                  placed = announce-index e p p mca got.isnew _ ∙ ap (index_at p) same;
                })
        ]
      ]

  one_record-stored :
      (got : Got) (w : World) (i : ℕ) (gi : GrpIntNode)
      → got.node ≡ some gi
      → IsAt (groups_of w) (addr_at mem (grec + 4)) i gi
      → is_local (addr_at mem (grec + 4)) ≡ false
      → Effect p
          (one_record e p k mem stop grec (addr_at mem (grec + 4)) (got, w))
          (is_whole mem stop grec)
          (if is_whole mem stop grec then record_effect e.now i mem grec (members w) else members w)
          (index_at p w)
  one_record-stored got w i gi h v far =
      let mca = addr_at mem (grec + 4) in
      let n = ntohs_at mem (grec + 2) in
      let mode = mode_of_source (mem grec) in
      let a = e.alloc k 0 in
      let all = mode_of_all (mem grec) in
      let done = grpint_refresh-done a e.now gi addr_any all (m k 0) in
      elim (Bool-cases (n == 0)) [
        | inl no_source ↦
            rw (h, no_source, done, far)
              (record {
                goes_on = refl;
                written =
                    announce-members e p mca got.isnew _
                    ∙ store_grpint-refreshed a e.now (m k 0) w.conf.groups mca i gi addr_any all v;
                placed = announce-index e p p mca got.isnew _;
              })
        | inr sources ↦ elim (Bool-cases (ltb stop (grec + 20 + n * 16))) [
          | inl too_long ↦
              rw (h, sources, too_long) (record { goes_on = refl; written = refl; placed = refl })
          | inr fits ↦
              rw (h, sources, fits, far)
                (record {
                  goes_on = refl;
                  written =
                      announce-members e p mca got.isnew _
                      ∙ refresh_sources-members e m k mem (grec + 20) n mode mca gi w i v;
                  placed =
                      announce-index e p p mca got.isnew _
                      ∙ refresh_sources-index e p k mem (grec + 20) n mode mca (some gi) w;
                })
        ]
      ]

  -- With the call of `groupint_get` before it.
  one_record-effect :
      (isnew : Bool) (w : World)
      → Spec
          (one_record e p k mem stop grec
            (addr_at mem (grec + 4))
            (get_record e p k (addr_at mem (grec + 4)) isnew w))
          (index_at p w)
          (members w)
  one_record-effect isnew w =
      let mca = addr_at mem (grec + 4) in
      let i = index_at p w in
      elim (Bool-cases (is_local mca)) [
        | inl local ↦
            let nothing : Got = record { node = none; isnew = isnew; groups = groups_of w } in
            elim (Bool-cases (is_whole mem stop grec)) [
              | inl whole ↦ rw (local, whole) (rw whole at (one_record-local nothing w refl))
              | inr cut ↦ rw (local, cut) (rw cut at (one_record-local nothing w refl))
            ]
        | inr wide ↦
            let a = e.alloc k 0 in
            let got = groupint_get a e.now (groups_of w) mca i in
            let same = groupint_get-subscribed a e.now (m k 0) (groups_of w) mca i in
            let found =
              one_record-stored got (with_groups w got.groups) i
                (or_new i (grpint_at (groups_of w) mca i))
                (groupint_get-node a e.now i (m k 0) (groups_of w) mca)
                (groupint_get-IsAt a e.now (m k 0) (groups_of w) mca i) wide in
            let chosen : get_record e p k mca isnew w ≡ (got, with_groups w got.groups) =
              rw wide refl in
            subst (λ (g : Got × World). Spec (one_record e p k mem stop grec mca g) i (members w))
              (sym chosen)
              (subst
                (λ (x : Membership).
                  Spec (one_record e p k mem stop grec mca (got, with_groups w got.groups)) i x)
                same found)
      ]

module _ (e : Env) (p : ℕ) (mem : Memory) (m : (k n : ℕ) → HasMemory (e.alloc k n)) where
  records-members :
      (k stop grec : ℕ) (isnew : Bool) (w : World)
      → members (records e p k mem stop grec isnew w)
        ≡ records_effect e.now (index_at p w) k mem stop grec (members w)
  unfolding records records_effect
  records-members zero stop grec isnew w = refl
  records-members (suc k) stop grec isnew w =
      let one =
        one_record e p (suc k) mem stop grec (addr_at mem (grec + 4))
          (get_record e p (suc k) (addr_at mem (grec + 4)) isnew w) in
      let f = one_record-effect e p (suc k) mem stop grec m isnew w in
      let rest =
        records-members k stop (grec + 20 + ntohs_at mem (grec + 2) * 16 + mem (grec + 1)) one.1
          one.2 in
      elim (Bool-cases (ltb stop grec || not (is_known_type (mem grec)))) [
        | inl bad ↦ rw bad refl
        | inr good ↦ elim (Bool-cases (is_whole mem stop grec)) [
          | inl whole ↦ rw (good, f.goes_on, whole) (rest ∙ rw (f.placed, f.written, whole) refl)
          | inr cut ↦ rw (good, f.goes_on, cut) (f.written ∙ rw cut refl)
        ]
      ]

  -- With memory at hand, a version 2 report has on the subscriptions exactly the effect that its
  -- records have one after the other, each on the interface that the report came in on, up to
  -- the first record that cannot be read; a report that is too short for its records has none.
  pub mld2_report-subscribed :
      (off plen : ℕ) (w : World)
      → subscribed (groups_of (mld2_report e p mem off plen w)) ≡ (
          if ltb plen (8 + ntohs_at mem (off + 6) * 20)
          then subscribed (groups_of w)
          else records_effect e.now
              (int_at w.conf.ints p).ifindex
              (ntohs_at mem (off + 6))
              mem
              (off + plen)
              (off + 8)
              (subscribed (groups_of w)))
  unfolding mld2_report
  mld2_report-subscribed off plen w =
      let same = groups-int_set_mld_version e p 2 w in
      let index = index-int_set_mld_version p e p 2 w in
      elim (Bool-cases (ltb plen (8 + ntohs_at mem (off + 6) * 20))) [
        | inl short ↦ rw short (ap subscribed same)
        | inr fits ↦ rw fits (
            records-members (ntohs_at mem (off + 6)) (off + plen) (off + 8) false
              (int_set_mld_version e p 2 w)
            ∙ rw (same, index) refl)
      ]
