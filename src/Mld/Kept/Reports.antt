-- ===== src/Mld/Kept/Reports.antt =====
-- What `mld2_send_report` and the functions of src/ecmh.c that call it leave alone.
use ecmh.Prelude.{
  ℕ, zero, suc, ◌+◌, ◌-◌, ◌≡◌, refl, ◌∙◌, inl, inr, ◌||◌, ◌%◌, ◌^◌, ◌==◌, Option, none, some, List,
  [], ◌∷◌, ltb, arith, Bool-cases, Option-cases, length,
}
use ecmh.Addr.{In6Addr, is_addr_unspecified}
use ecmh.Memory.{le16, addr_bytes}
use ecmh.Subscr.{SubscrNode, mode_is_include, mode_is_exclude}
use ecmh.GrpInt.{GrpIntNode}
use ecmh.Groups.{GroupNode}
use ecmh.Conf.{World, Env, int_at}
use ecmh.Mld.Report1.{mld1_send_report}
use ecmh.Mld.Report2.{
  Rep, store, flush, revisit, new_grec, add_source, make_room, append_subscr, unless_dropped, again,
  at_subscr, report_subscr, report_subscrs, report_grpints, report_groups, flush_last, start,
  mld2_send_report, is_asked, slot, nsrcs,
}
use ecmh.Mld.Reports.{mld_send_report, report_from, mld_send_report_all}
use ecmh.Mld.Kept.{Keeps, kept-send_counted, kept-mld1_send_report}

module _ {A : Type 0} (v : World → A) (kept : Keeps v) (e : Env) (p : ℕ) where
  kept-store : (r : Rep) (off : ℕ) (bs : List ℕ) → v (store r off bs).world ≡ v r.world
  unfolding store
  kept-store r off bs = kept.noted r.world _

  kept-flush : (r : Rep) (g len : ℕ) → v (flush e p r g len).world ≡ v r.world
  unfolding flush
  kept-flush r g len = kept-send_counted v kept e p _ _ _ ∙ simp kept-store

  kept-new_grec : (gn : GroupNode) (r : Rep) → v (new_grec gn r).world ≡ v r.world
  unfolding new_grec
  kept-new_grec gn r = elim (Option-cases r.grec) [
    | inl e ↦ simp (e, kept-store)
    | inr (g, e) ↦ simp (e, kept-store)
  ]

  kept-add_source : (s : SubscrNode) (r : Rep) → v (add_source s r).world ≡ v r.world
  unfolding add_source
  kept-add_source s r = elim (Option-cases r.grec) [
    | inl e' ↦ ground arith
    | inr (g, e') ↦
        let a = store r (g + 2) (le16 ((nsrcs r g + 1) % 2 ^ 16)) in
        let b = store a g (mode_is_include ∷ []) in
        ground (
          arith,
          kept-store r (g + 2) (le16 ((nsrcs r g + 1) % 2 ^ 16)),
          kept-store a g (mode_is_include ∷ []),
          kept-store b (slot r g) (addr_bytes 16 s.ipv6),
        )
  ]

  kept-make_room : (s : SubscrNode) (r : Rep) → v (make_room e p s r).world ≡ v r.world
  unfolding make_room
  kept-make_room s r = elim (Option-cases r.grec) [
    | inl none' ↦ ground arith
    | inr (g, e') ↦ ground (
      arith,
      kept-flush r g (slot r g - 40),
      kept-store (flush e p r g (slot r g - 40)) 54 (le16 0),
    )
  ]

  kept-append_subscr :
      (gn : GroupNode) (s : SubscrNode) (r : Rep) → v (append_subscr e p gn s r).world ≡ v r.world
  kept-append_subscr gn s r =
      let roomy = make_room e p s r in
      ground (
        arith,
        kept-make_room s r,
        kept-new_grec gn roomy,
        kept-add_source s roomy,
        kept-add_source s (new_grec gn roomy),
      )

  kept-revisit : (s : SubscrNode) (r : Rep) (g : ℕ) → v (revisit s r g).world ≡ v r.world
  kept-revisit s r g = elim (Bool-cases (is_addr_unspecified s.ipv6)) [
    | inl all ↦ rw all (simp kept-store)
    | inr one ↦ rw one (ground arith)
  ]

  kept-report_subscr :
      (gn : GroupNode) (s : SubscrNode) (r : Rep) → v (report_subscr e p gn s r).world ≡ v r.world
  unfolding report_subscr
  kept-report_subscr gn s r = elim (Bool-cases (r.done || s.mode == mode_is_exclude)) [
    | inl skip ↦ rw skip
    | inr go ↦ rw go (on_src r.src)
  ]
    where
      after : (r' : Rep) (o : Option ℕ) → v (unless_dropped e p gn s r' o).world ≡ v r'.world
      after r' none = refl
      after r' (some q) = kept-append_subscr gn s r'

      on_grec : (o : Option ℕ) → v (again e p gn s r o).world ≡ v r.world
      on_grec none = refl
      on_grec (some g) = after (revisit s r g) (revisit s r g).src ∙ kept-revisit s r g

      on_src : (o : Option ℕ) → v (at_subscr e p gn s r o).world ≡ v r.world
      on_src none = kept-append_subscr gn s r
      on_src (some q) = on_grec r.grec

  kept-report_subscrs :
      (gn : GroupNode) (ss : List SubscrNode) (r : Rep)
      → v (report_subscrs e p gn ss r).world ≡ v r.world
  unfolding report_subscrs
  kept-report_subscrs gn [] r = refl
  kept-report_subscrs gn (s ∷ ss) r =
      kept-report_subscrs gn ss (report_subscr e p gn s r) ∙ kept-report_subscr gn s r

  kept-report_grpints :
      (gn : GroupNode) (gs : List GrpIntNode) (r : Rep)
      → v (report_grpints e p gn gs r).world ≡ v r.world
  unfolding report_grpints
  kept-report_grpints gn [] r = refl
  kept-report_grpints gn (g ∷ gs) r =
      kept-report_grpints gn gs _
      ∙ elim (Bool-cases (g.ifindex == (int_at r.world.conf.ints p).ifindex)) [
        | inl own ↦ rw own
        | inr foreign ↦ rw foreign (kept-report_subscrs gn g.subscriptions.items r)
      ]

  kept-report_groups :
      (mca : Option In6Addr) (gns : List GroupNode) (r : Rep)
      → v (report_groups e p mca gns r).world ≡ v r.world
  unfolding report_groups
  kept-report_groups mca [] r = refl
  kept-report_groups mca (gn ∷ gns) r =
      kept-report_groups mca gns _ ∙ elim (Bool-cases (is_asked mca gn)) [
        | inl asked ↦ rw asked (kept-report_grpints gn gn.interfaces.items _)
        | inr not_asked ↦ rw not_asked
      ]

  kept-flush_last : (r : Rep) → v (flush_last e p r) ≡ v r.world
  kept-flush_last r = elim (Option-cases r.grec) [
    | inl e' ↦ ground arith
    | inr (g, e') ↦ ground (arith, kept-flush r g (slot r g - 40))
  ]

  -- Sending a version 2 report, for one group or for all.
  pub kept-mld2_send_report :
      (mca : Option In6Addr) (w : World) → v (mld2_send_report e p mca w) ≡ v w
  unfolding mld2_send_report
  kept-mld2_send_report mca w = elim (Bool-cases (ltb (int_at w.conf.ints p).mtu 56)) [
    | inl small ↦ rw small
    | inr fits ↦ rw fits (
        kept-flush_last (report_groups e p mca w.conf.groups.items (start p w))
        ∙ (kept-report_groups mca w.conf.groups.items (start p w) ∙ kept-store _ _ _))
  ]

  pub kept-mld_send_report : (mca : In6Addr) (w : World) → v (mld_send_report e p mca w) ≡ v w
  unfolding mld_send_report
  kept-mld_send_report mca w = ground (
    arith,
    kept-mld1_send_report v kept e p mca w,
    kept-mld2_send_report (some mca) w,
    kept-mld2_send_report (some mca) (mld1_send_report e p mca w),
  )

module _ {A : Type 0} (v : World → A) (kept : Keeps v) where
  kept-report_from :
      (e : Env) (n k p : ℕ) (mca : In6Addr) (w : World) → v (report_from e n k p mca w) ≡ v w
  unfolding report_from
  kept-report_from e zero k p mca w = refl
  kept-report_from e (suc n) k p mca w =
      kept-report_from e n (k + 1) p mca _
      ∙ elim (Bool-cases (
          (int_at w.conf.ints k).mtu == 0
          || (int_at w.conf.ints p).ifindex == (int_at w.conf.ints k).ifindex)) [
            | inl skip ↦ rw skip
            | inr go ↦ rw go (kept-mld_send_report v kept e k mca w)
          ]

  pub kept-mld_send_report_all :
      (e : Env) (p : ℕ) (mca : In6Addr) (w : World) → v (mld_send_report_all e p mca w) ≡ v w
  unfolding mld_send_report_all
  kept-mld_send_report_all e p mca w = kept-report_from e (length w.conf.ints) 0 p mca w
