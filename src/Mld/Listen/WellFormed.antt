-- ===== src/Mld/Listen/WellFormed.antt =====
-- The registry of groups under the version 1 handlers of src/ecmh.c.
use ecmh.Prelude.{
  ℕ, ◌≡◌, refl, sym, ap, ◌∙◌, inl, inr, Bool, true, false, ◌&&◌, Option, none, some, List, [], ◌∷◌,
  pos, negsuc, is_nonpos, length, arith, Bool-cases, find_by-All, update_by-All,
  update_by-IsDistinct, length-update_by,
}
use mathlib.Core.Path.{subst}
use ecmh.Addr.{In6Addr, addr_any}
use ecmh.LinkList.{LinkedList}
use ecmh.LinkList.Laws.{IsCounted}
use ecmh.Subscr.{SubscrNode, mode_is_include}
use ecmh.GrpInt.{GrpIntNode, ifindex_of, grpint_find, grpint_refresh}
use ecmh.GrpInt.Laws.{IsSound, grpint_refresh-IsSound, subscr_unsub-IsSound}
use ecmh.Groups.{GroupNode, mca_of, group_find, Got, groupint_get}
use ecmh.Groups.WellFormed.{IsSoundGroup, IsRegistry, IsSoundNode, groupint_get-IsRegistry}
use ecmh.Conf.{World, Env, int_at}
use ecmh.Interfaces.{int_set_mld_version}
use ecmh.Mld.Reports.{mld_send_report_all}
use ecmh.Mld.Quiet.{groups_of, groups-mld_send_query, groups-mld_send_report_all}
use ecmh.Mld.Listen.{
  put_grpint, store_grpint, is_local_group, join, mld1_report, leave, reduce, reduce_group,
  mld1_reduction,
}

abbrev pub HasRegistry : World → Type 0
HasRegistry w = IsRegistry (groups_of w)

put_grpint-IsSoundGroup :
    (gi : GrpIntNode) (g : GroupNode)
    → IsSound gi.subscriptions
    → IsSoundGroup g
    → IsSoundGroup (put_grpint gi g)
put_grpint-IsSoundGroup gi g s v = record {
  tallied =
      v.tallied
      ∙ ap pos (sym (length-update_by ifindex_of gi.ifindex (λ _. gi) g.interfaces.items));
  distinct =
      update_by-IsDistinct ifindex_of gi.ifindex (λ _. gi) g.interfaces.items (λ x m. sym m)
        v.distinct;
  sound =
      update_by-All ifindex_of (λ (x : GrpIntNode). IsSound x.subscriptions) gi.ifindex (λ _. gi)
        g.interfaces.items (λ x m h. s) v.sound;
}

pub store_grpint-IsRegistry :
    (groups : LinkedList GroupNode) (mca : In6Addr) (gi : GrpIntNode)
    → IsRegistry groups
    → IsSound gi.subscriptions
    → IsRegistry (store_grpint groups mca gi)
store_grpint-IsRegistry groups mca gi v s = record {
  tallied = v.tallied ∙ ap pos (sym (length-update_by mca_of mca (put_grpint gi) groups.items));
  distinct = update_by-IsDistinct mca_of mca (put_grpint gi) groups.items (λ x m. refl) v.distinct;
  sound =
      update_by-All mca_of IsSoundGroup mca (put_grpint gi) groups.items
        (λ x m h. put_grpint-IsSoundGroup gi x s h) v.sound;
}

pub groups-int_set_mld_version :
    (e : Env) (p version : ℕ) (w : World)
    → groups_of (int_set_mld_version e p version w) ≡ groups_of w
unfolding int_set_mld_version
groups-int_set_mld_version e p version w = refl

pub seen-HasRegistry :
    (e : Env) (p version : ℕ) (w : World)
    → HasRegistry w
    → HasRegistry (int_set_mld_version e p version w)
seen-HasRegistry e p version w v =
    subst IsRegistry (sym (groups-int_set_mld_version e p version w)) v

pub report_all-HasRegistry :
    (e : Env) (p : ℕ) (mca : In6Addr) (w : World)
    → HasRegistry w
    → HasRegistry (mld_send_report_all e p mca w)
report_all-HasRegistry e p mca w v = subst IsRegistry (sym (groups-mld_send_report_all e p mca w)) v

module _ (e : Env) (p : ℕ) (mca : In6Addr) where
  join-HasRegistry :
      (w : World) (got : Got) (o : Option GrpIntNode) (i : ℕ)
      → IsRegistry got.groups
      → IsSoundNode i o
      → HasRegistry (join e p mca w got o)
  join-HasRegistry w got none i v s = v
  join-HasRegistry w got (some gi) i v s =
      let kept =
        store_grpint-IsRegistry got.groups mca
          (grpint_refresh (e.alloc 0 0) e.now gi addr_any mode_is_include).1 v
          (grpint_refresh-IsSound (e.alloc 0 0) e.now gi addr_any mode_is_include s.1) in
      elim (Bool-cases
        ((grpint_refresh (e.alloc 0 0) e.now gi addr_any mode_is_include).0 && got.isnew)) [
          | inl go ↦ rw go (report_all-HasRegistry e p mca _ kept)
          | inr stay ↦ rw stay kept
        ]

  -- A version 1 report.
  pub mld1_report-HasRegistry : (w : World) → HasRegistry w → HasRegistry (mld1_report e p mca w)
  unfolding mld1_report
  mld1_report-HasRegistry w v =
      let seen = int_set_mld_version e p 1 w in
      let i = (int_at seen.conf.ints p).ifindex in
      let got = groupint_get (e.alloc 0 0) e.now seen.conf.groups mca i in
      let (r, n) =
        groupint_get-IsRegistry (e.alloc 0 0) e.now i seen.conf.groups mca
          (seen-HasRegistry e p 1 w v) in
      elim (Bool-cases (is_local_group mca)) [
        | inl local ↦ rw local (seen-HasRegistry e p 1 w v)
        | inr wide ↦ rw wide (join-HasRegistry seen got got.node i r n)
      ]

  IsCounted-empty :
      (l : LinkedList SubscrNode) → IsCounted l → is_nonpos l.count ≡ true → l.items ≡ []
  IsCounted-empty l (inl c) h = no_entry l.items (ground arith)
    where
      no_entry : (xs : List SubscrNode) → is_nonpos (pos (length xs)) ≡ true → xs ≡ []
      no_entry [] e' = refl
      no_entry (x ∷ xs) e' = cc
  IsCounted-empty l (inr (i, _)) h = i

  leave-HasRegistry :
      (w : World) (gi : GrpIntNode) (r : Bool × LinkedList SubscrNode)
      → HasRegistry w
      → IsSound r.1
      → HasRegistry (leave e p mca w gi r)
  leave-HasRegistry w gi (false, l) v s = v
  leave-HasRegistry w gi (true, l) v s = elim (Bool-cases (is_nonpos l.count)) [
    | inl empty ↦
        let nothing = IsCounted-empty l s.counted empty in
        let marked : IsSound (record l { count = negsuc 1 }) = record {
          counted = inr (nothing, refl);
          distinct = s.distinct;
        } in
        let kept =
          store_grpint-IsRegistry w.conf.groups mca
            (record gi { subscriptions = record l { count = negsuc 1 } }) v marked in
        simp empty (subst IsRegistry (sym (groups-mld_send_query e p mca _)) kept)
    | inr left ↦
        simp left (store_grpint-IsRegistry w.conf.groups mca (record gi { subscriptions = l }) v s)
  ]

  reduce-HasRegistry :
      (w : World) (g : GroupNode) (i : ℕ) (o : Option GrpIntNode)
      → grpint_find g.interfaces.items i ≡ o
      → HasRegistry w
      → IsSoundGroup g
      → HasRegistry (reduce e p mca w o)
  reduce-HasRegistry w g i none f v s = v
  reduce-HasRegistry w g i (some gi) f v s = leave-HasRegistry w gi _ v (
      subscr_unsub-IsSound gi.subscriptions addr_any
        (find_by-All ifindex_of _ g.interfaces.items i gi s.sound f))

  reduce_group-HasRegistry :
      (w : World) (o : Option GroupNode)
      → group_find w.conf.groups.items mca ≡ o
      → HasRegistry w
      → HasRegistry (reduce_group e p mca w o)
  reduce_group-HasRegistry w none f v = v
  reduce_group-HasRegistry w (some g) f v =
      reduce-HasRegistry w g _ _ refl v
        (find_by-All mca_of IsSoundGroup w.conf.groups.items mca g v.sound f)

  -- A version 1 reduction, which may set a count to -2.
  pub mld1_reduction-HasRegistry :
      (w : World) → HasRegistry w → HasRegistry (mld1_reduction e p mca w)
  unfolding mld1_reduction
  mld1_reduction-HasRegistry w v = elim (Bool-cases (is_local_group mca)) [
    | inl local ↦ rw local (seen-HasRegistry e p 1 w v)
    | inr wide ↦
        rw wide (
          reduce_group-HasRegistry (int_set_mld_version e p 1 w) _ refl
            (seen-HasRegistry e p 1 w v))
  ]
