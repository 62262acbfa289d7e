-- ===== src/Timeout.antt =====
-- `timeout` of src/ecmh.c, with ECMH_SUPPORT_MLD2.
pub mod WellFormed
pub mod Expiry
pub mod Members
use ecmh.Prelude.{
  ℕ, ◌+◌, ◌-◌, ◌*◌, ◌%◌, ◌^◌, Bool, ltb, none, List, [], ◌∷◌, is_null, is_minus_two_or_less,
  if◌then◌else◌,
}
use ecmh.LinkList.{LinkedList, list_loop2_delete}
use ecmh.Subscr.{SubscrNode}
use ecmh.GrpInt.{GrpIntNode}
use ecmh.Groups.{GroupNode, subscription_timeout, robustness_factor}
use ecmh.Conf.{Conf, World, Env, with_conf}
use ecmh.Interfaces.Update.{update_interfaces}
use ecmh.Mld.Query.{send_mld_querys}

-- `i = time_tee - subscrn->refreshtime`, an `int64_t`, made positive.
abbrev pub age : ℕ → ℕ → ℕ
age now refreshtime =
    let d = (now + 2 ^ 64 - refreshtime) % 2 ^ 64 in if ltb d (2 ^ 63) then d else 2 ^ 64 - d

unfoldable pub is_dead : ℕ → SubscrNode → Bool
is_dead now s = ltb (subscription_timeout * robustness_factor) (age now s.refreshtime)

unfoldable pub expire_subscrs : ℕ → GrpIntNode → GrpIntNode
expire_subscrs now g = record g { subscriptions = list_loop2_delete (is_dead now) g.subscriptions }

-- The loop over the interfaces of a group: the subscriptions of each are expired first.
abbrev pub each_grpint : ℕ → List GrpIntNode → List GrpIntNode
each_grpint now [] = []
each_grpint now (g ∷ gs) = expire_subscrs now g ∷ each_grpint now gs

abbrev pub is_reduced : GrpIntNode → Bool
is_reduced g = is_minus_two_or_less g.subscriptions.count

unfoldable pub expire_grpints : ℕ → GroupNode → GroupNode
expire_grpints now g = record g {
  interfaces =
      list_loop2_delete is_reduced
        (record g.interfaces { items = each_grpint now g.interfaces.items });
}

abbrev pub each_group : ℕ → List GroupNode → List GroupNode
each_group now [] = []
each_group now (g ∷ gs) = expire_grpints now g ∷ each_group now gs

abbrev pub is_deserted : GroupNode → Bool
is_deserted g = is_null g.interfaces.count

unfoldable pub expire_groups : ℕ → LinkedList GroupNode → LinkedList GroupNode
expire_groups now groups =
    list_loop2_delete is_deserted (record groups { items = each_group now groups.items })

unfoldable pub timeout : Env → World → World
timeout e w =
    let w' = update_interfaces e none w in
    send_mld_querys e
      (with_conf w' (record w'.conf { groups = expire_groups e.now w'.conf.groups }))
