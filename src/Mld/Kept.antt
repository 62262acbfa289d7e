-- ===== src/Mld/Kept.antt =====
-- What the functions of src/ecmh.c that send packets leave alone: any view of the program that the
-- sending itself does not touch.
pub mod Reports
use ecmh.Prelude.{
  ℕ, Bool, zero, suc, ◌+◌, ◌-◌, ◌≡◌, refl, ◌∙◌, inl, inr, ◌||◌, ◌==◌, Option, none, some, List, [],
  ◌∷◌, ltb, arith, Bool-cases, Option-cases, length,
}
use ecmh.Addr.{In6Addr}
use ecmh.Memory.{Memory, le16}
use ecmh.LinkList.{LinkedList}
use ecmh.Subscr.{SubscrNode, mode_is_exclude}
use ecmh.GrpInt.{GrpIntNode}
use ecmh.Groups.{GroupNode}
use ecmh.Conf.{World, Env, int_at}
use ecmh.Interfaces.{int_destroy}
use ecmh.Send.{sendpacket6, count_icmp_sent, icmp6_send}
use ecmh.Mld.Query.{mld_send_query, query_from, send_mld_querys}
use ecmh.Mld.Report1.{mld1_send_report}
use ecmh.Mld.Report2.{
  Rep, store, flush, revisit, new_grec, add_source, make_room, append_subscr, unless_dropped, again,
  at_subscr, report_subscr, report_subscrs, report_grpints, report_groups, flush_last, start,
  mld2_send_report, is_asked, slot,
}
use ecmh.Mld.Reports.{mld_send_report, report_from, mld_send_report_all}

-- A packet that is sent and counted.
abbrev pub send_counted : Env → ℕ → Memory → ℕ → World → World
send_counted e p iph len w = count_icmp_sent p (sendpacket6 e p iph len w)

pub record Keeps {A : Type 0} (v : World → A) : Type 0 where
  pub packet :
      (e : Env) (p : ℕ) (iph : Memory) (len : ℕ) (w : World) → v (sendpacket6 e p iph len w) ≡ v w
  pub icmp : (p : ℕ) (w : World) → v (count_icmp_sent p w) ≡ v w
  pub noted : (w : World) (b : Bool) → v (record w { overrun = b }) ≡ v w

module _ {A : Type 0} (v : World → A) (kept : Keeps v) where
  pub kept-send_counted :
      (e : Env) (p : ℕ) (iph : Memory) (len : ℕ) (w : World) → v (send_counted e p iph len w) ≡ v w
  kept-send_counted e p iph len w =
      kept.icmp p (sendpacket6 e p iph len w) ∙ kept.packet e p iph len w

  pub kept-icmp6_send :
      (e : Env) (p : ℕ) (src : In6Addr) (type code : ℕ) (payload : Memory) (dlen : ℕ) (w : World)
      → v (icmp6_send e p src type code payload dlen w) ≡ v w
  unfolding icmp6_send
  kept-icmp6_send e p src type code payload dlen w = kept-send_counted e p _ _ w

  pub kept-mld_send_query :
      (e : Env) (p : ℕ) (mca : In6Addr) (w : World) → v (mld_send_query e p mca w) ≡ v w
  unfolding mld_send_query
  kept-mld_send_query e p mca w = elim (Bool-cases (int_at w.conf.ints p).upstream) [
    | inl up ↦ rw up
    | inr down ↦ rw down (kept-send_counted e p _ _ w)
  ]

  kept-query_from : (e : Env) (n p : ℕ) (w : World) → v (query_from e n p w) ≡ v w
  unfolding query_from
  kept-query_from e zero p w = refl
  kept-query_from e (suc n) p w =
      kept-query_from e n (p + 1) _ ∙ elim (Bool-cases ((int_at w.conf.ints p).mtu == 0)) [
        | inl off ↦ rw off
        | inr on ↦ rw on (kept-mld_send_query e p _ w)
      ]

  pub kept-send_mld_querys : (e : Env) (w : World) → v (send_mld_querys e w) ≡ v w
  unfolding send_mld_querys
  kept-send_mld_querys e w = kept-query_from e (length w.conf.ints) 0 w

  pub kept-mld1_send_report :
      (e : Env) (p : ℕ) (mca : In6Addr) (w : World) → v (mld1_send_report e p mca w) ≡ v w
  unfolding mld1_send_report
  kept-mld1_send_report e p mca w = kept-send_counted e p _ _ w
