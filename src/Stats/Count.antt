-- ===== src/Stats/Count.antt =====
-- The numbers of subscriptions and interfaces that `sigusr1` of src/ecmh.c shows.
use Prim.Native.String.{String}
use ecmh.Prelude.{
  ℕ, suc, ◌+◌, ◌%◌, ◌^◌, ◌<◌, ◌==◌, ◌≡◌, refl, ◌∙◌, inl, inr, Option, none, some, List, [], ◌∷◌,
  length, arith, Bool-cases, if◌then◌else◌,
}
use ecmh.Subscr.{SubscrNode}
use ecmh.GrpInt.{GrpIntNode}
use ecmh.Groups.{GroupNode}
use ecmh.Conf.{IntNode, Conf, int_at}
use ecmh.Interfaces.{int_find}
use ecmh.Stats.{
  Dump, dump_subscr, grpint_head, group_head, dump_group, dump_int, dump_start, ints_start,
  dump_all_groups, dump_subscrs, dump_grpint, dump_grpints, dump_groups, dump_ints, sigusr1,
}

-- The subscriptions on the interfaces that are in use.
abbrev pub shown : GrpIntNode → Option ℕ → ℕ
shown g none = 0
shown g (some p) = length g.subscriptions.items

unfoldable pub subscriptions_of : Conf → List GrpIntNode → ℕ
subscriptions_of c [] = 0
subscriptions_of c (g ∷ gs) = shown g (int_find c g.ifindex) + subscriptions_of c gs

unfoldable pub all_subscriptions : Conf → List GroupNode → ℕ
all_subscriptions c [] = 0
all_subscriptions c (g ∷ gs) = subscriptions_of c g.interfaces.items + all_subscriptions c gs

unfoldable pub ints_in_use : List IntNode → ℕ
ints_in_use [] = 0
ints_in_use (i ∷ is') = (if i.mtu == 0 then 0 else 1) + ints_in_use is'

-- Both counters after a part of the dump, which adds `n` subscriptions and `k` interfaces.
record Adds (n k : ℕ) (d d' : Dump) : Type 0 where
  pub subs : d'.subscriptions % 2 ^ 32 ≡ (d.subscriptions + n) % 2 ^ 32
  pub ints : d'.count % 2 ^ 32 ≡ (d.count + k) % 2 ^ 32
  pub few_subs : d.subscriptions < 2 ^ 32 → d'.subscriptions < 2 ^ 32
  pub few_ints : d.count < 2 ^ 32 → d'.count < 2 ^ 32

Adds-refl : (d : Dump) → Adds 0 0 d d
Adds-refl d = record {
  subs = omega arith;
  ints = omega arith;
  few_subs = λ h. h;
  few_ints = λ h. h;
}

Adds-trans :
    (m n i j k l : ℕ) (d d' d'' : Dump)
    → Adds m j d d'
    → Adds n k d' d''
    → m + n ≡ i
    → j + k ≡ l
    → Adds i l d d''
Adds-trans m n i j k l d d' d'' a b p q = record {
  subs = omega (arith, a.subs, b.subs, p);
  ints = omega (arith, a.ints, b.ints, q);
  few_subs = λ h. b.few_subs (a.few_subs h);
  few_ints = λ h. b.few_ints (a.few_ints h);
}

-- One more subscription, or one more interface.
Adds-subscr : (i now : ℕ) (s : SubscrNode) (d : Dump) → Adds 1 0 d (dump_subscr i now s d)
Adds-subscr i now s d = record {
  subs = omega arith;
  ints = omega arith;
  few_subs = λ h. omega arith;
  few_ints = λ h. h;
}

Adds-int :
    (i : IntNode) (d : Dump) → Adds 0 1 d (dump_int i (record d { count = (d.count + 1) % 2 ^ 32 }))
Adds-int i d = elim (Bool-cases (i.mld_version == 0)) [
  | inl unknown ↦ rw unknown (record {
    subs = omega arith;
    ints = omega arith;
    few_subs = λ h. h;
    few_ints = λ h. omega arith;
  })
  | inr known ↦ rw known (record {
    subs = omega arith;
    ints = omega arith;
    few_subs = λ h. h;
    few_ints = λ h. omega arith;
  })
]

dump_subscrs-Adds :
    (i now : ℕ) (ss : List SubscrNode) (d : Dump) → Adds (length ss) 0 d (dump_subscrs i now ss d)
unfolding dump_subscrs
dump_subscrs-Adds i now [] d = Adds-refl d
dump_subscrs-Adds i now (s ∷ ss) d =
    Adds-trans 1 (length ss) (suc (length ss)) 0 0 0 d (dump_subscr i now s d) _
      (Adds-subscr i now s d) (dump_subscrs-Adds i now ss (dump_subscr i now s d)) (omega arith)
      (omega arith)

module _ (c : Conf) (i now : ℕ) where
  dump_grpint-Adds :
      (g : GrpIntNode) (d : Dump) (o : Option ℕ) → Adds (shown g o) 0 d (dump_grpint c i now g d o)
  dump_grpint-Adds g d none = Adds-refl d
  dump_grpint-Adds g d (some p) =
      let rest =
        dump_subscrs-Adds i now g.subscriptions.items (grpint_head (int_at c.ints p) g d) in
      record {
        subs = rest.subs;
        ints = rest.ints;
        few_subs = rest.few_subs;
        few_ints = rest.few_ints;
      }

  dump_grpints-Adds :
      (gs : List GrpIntNode) (d : Dump)
      → Adds (subscriptions_of c gs) 0 d (dump_grpints c i now gs d)
  unfolding dump_grpints subscriptions_of
  dump_grpints-Adds [] d = Adds-refl d
  dump_grpints-Adds (g ∷ gs) d =
      let o = int_find c g.ifindex in
      let d' = dump_grpint c i now g d o in
      Adds-trans (shown g o) (subscriptions_of c gs) _ 0 0 0 d d' _ (dump_grpint-Adds g d o)
        (dump_grpints-Adds gs d') refl (omega arith)

  dump_group-Adds :
      (g : GroupNode) (d : Dump)
      → Adds (subscriptions_of c g.interfaces.items) 0 d (dump_group c i now g d)
  dump_group-Adds g d =
      let a = dump_grpints-Adds g.interfaces.items (group_head g d) in
      record { subs = a.subs; ints = a.ints; few_subs = a.few_subs; few_ints = a.few_ints }

  dump_groups-Adds :
      (gs : List GroupNode) (d : Dump)
      → Adds (all_subscriptions c gs) 0 d (dump_groups c i now gs d)
  unfolding dump_groups all_subscriptions
  dump_groups-Adds [] d = Adds-refl d
  dump_groups-Adds (g ∷ gs) d =
      Adds-trans (subscriptions_of c g.interfaces.items) (all_subscriptions c gs) _ 0 0 0 d
        (dump_group c i now g d) _ (dump_group-Adds g d)
        (dump_groups-Adds gs (dump_group c i now g d)) refl (omega arith)

dump_ints-Adds : (is' : List IntNode) (d : Dump) → Adds 0 (ints_in_use is') d (dump_ints is' d)
unfolding dump_ints ints_in_use
dump_ints-Adds [] d = Adds-refl d
dump_ints-Adds (i ∷ is') d = elim (Bool-cases (i.mtu == 0)) [
  | inl off ↦ rw off (
      Adds-trans 0 0 0 0 (ints_in_use is') _ d d _ (Adds-refl d) (dump_ints-Adds is' d)
        (omega arith) refl)
  | inr on ↦
      let d' = dump_int i (record d { count = (d.count + 1) % 2 ^ 32 }) in
      rw on (
        Adds-trans 0 0 0 1 (ints_in_use is') _ d d' _ (Adds-int i d) (dump_ints-Adds is' d')
          (omega arith) refl)
]

-- The counters of subscriptions and of interfaces end as the numbers of the subscriptions
-- on interfaces that are in use, and of the interfaces in use, modulo 2^32.
pub sigusr1-counts :
    (version githash : String) (i now : ℕ) (c : Conf)
    → let d = sigusr1 version githash i now c in
      (d.subscriptions ≡ all_subscriptions c c.groups.items % 2 ^ 32)
      × (d.count ≡ ints_in_use c.ints % 2 ^ 32)
unfolding sigusr1
sigusr1-counts version githash i now c =
    let clear : Dump = record { file = []; subscriptions = 0; count = 0 } in
    let groups = dump_groups-Adds c i now c.groups.items (dump_start clear) in
    let d = dump_ints c.ints (ints_start (dump_all_groups i now c clear)) in
    let ints = dump_ints-Adds c.ints (ints_start (dump_all_groups i now c clear)) in
    let same_subs : (sigusr1 version githash i now c).subscriptions ≡ d.subscriptions = refl in
    let same_count : (sigusr1 version githash i now c).count ≡ d.count = refl in
    (
      same_subs
          ∙ omega (arith, groups.subs, ints.subs, ints.few_subs (groups.few_subs (omega arith))),
      same_count
          ∙ omega (arith, groups.ints, ints.ints, ints.few_ints (groups.few_ints (omega arith))),
    )
