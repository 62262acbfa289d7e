-- ===== src/Main/Shutdown/Laws.antt =====
-- What of the memory of src/ecmh.c is freed at the end, and the end of the loop.
use ecmh.Prelude.{
  ℕ, suc, ◌+◌, ◌≡◌, refl, ap, ◌∙◌, Bool, Option, none, some, List, [], ◌∷◌, ◌++◌, arith,
  if◌then◌else◌,
}
use ecmh.Subscr.{SubscrNode}
use ecmh.GrpInt.{GrpIntNode}
use ecmh.Groups.{GroupNode}
use ecmh.Conf.{IntNode, Conf}
use ecmh.Main.Shutdown.{
  Block, subscr, grpint, group, listnode, linked_list, conf, ints, buffer, upstream_name, del_all,
  subscr_destroy, grpint_destroy, group_destroy, Release, dump, note, fclose, close, unlink, free,
  int_destroy, free_all, destroy_ints, shutdown,
}

module _ {A : Type 0} where
  -- Of a list: a node for each entry, and what the entry stands for.
  unfoldable pub held : (A → List Block) → List A → List Block
  held f [] = []
  held f (x ∷ xs) = listnode ∷ (f x ++ held f xs)

-- What the functions that create them allocate: `group_create` and `grpint_create` each call
-- `list_new`.
abbrev pub subscr_blocks : SubscrNode → List Block
subscr_blocks s = subscr s ∷ []

abbrev pub grpint_blocks : GrpIntNode → List Block
grpint_blocks g = grpint g ∷ (linked_list ∷ held subscr_blocks g.subscriptions.items)

abbrev pub group_blocks : GroupNode → List Block
group_blocks gn = group gn ∷ (linked_list ∷ held grpint_blocks gn.interfaces.items)

abbrev pub name_block : Option (List ℕ) → List Block
name_block none = []
name_block (some name) = upstream_name ∷ []

-- The blocks that the daemon has when the loop ends.
abbrev pub conf_blocks : Conf → List Block
conf_blocks c =
    conf
    ∷ (buffer
        ∷ (ints ∷ (name_block c.upstream ++ (linked_list ∷ held group_blocks c.groups.items))))

-- The lists of a group: its own, and one for each of its interfaces.
unfoldable pub lists_of : List GrpIntNode → List Block
lists_of [] = []
lists_of (g ∷ gs) = linked_list ∷ lists_of gs

unfoldable pub lists_of_all : List GroupNode → List Block
lists_of_all [] = []
lists_of_all (gn ∷ gns) = linked_list ∷ (lists_of gn.interfaces.items ++ lists_of_all gns)

-- The blocks that are freed.
unfoldable pub freed : List Release → List Block
freed [] = []
freed (free b ∷ rs) = b ∷ freed rs
freed (dump ∷ rs) = freed rs
freed (note ∷ rs) = freed rs
freed (fclose ∷ rs) = freed rs
freed (close ∷ rs) = freed rs
freed (unlink ∷ rs) = freed rs
freed (int_destroy j ∷ rs) = freed rs

unfoldable pub count_if : (Block → Bool) → List Block → ℕ
count_if p [] = 0
count_if p (b ∷ bs) = (if p b then 1 else 0) + count_if p bs

freed-append : (xs ys : List Release) → freed (xs ++ ys) ≡ freed xs ++ freed ys
unfolding freed
freed-append [] ys = refl
freed-append (free b ∷ xs) ys = ap (λ l. b ∷ l) (freed-append xs ys)
freed-append (dump ∷ xs) ys = freed-append xs ys
freed-append (note ∷ xs) ys = freed-append xs ys
freed-append (fclose ∷ xs) ys = freed-append xs ys
freed-append (close ∷ xs) ys = freed-append xs ys
freed-append (unlink ∷ xs) ys = freed-append xs ys
freed-append (int_destroy j ∷ xs) ys = freed-append xs ys

freed-free_all : (bs : List Block) → freed (free_all bs) ≡ bs
unfolding freed
freed-free_all [] = refl
freed-free_all (b ∷ bs) = ap (λ l. b ∷ l) (freed-free_all bs)

freed-destroy_ints : (is' : List IntNode) (j : ℕ) → freed (destroy_ints is' j) ≡ []
unfolding freed destroy_ints
freed-destroy_ints [] j = refl
freed-destroy_ints (i ∷ is') j = ground (arith, freed-destroy_ints is' (suc j))

freed-shutdown :
    (c : Conf)
    → freed (shutdown c)
      ≡ del_all group_destroy c.groups.items ++ (ints ∷ (linked_list ∷ (buffer ∷ (conf ∷ []))))
unfolding shutdown freed
freed-shutdown c =
    let closing =
      free ints
      ∷ (free linked_list
          ∷ (fclose ∷ (close ∷ (free buffer ∷ (free conf ∷ (note ∷ (unlink ∷ []))))))) in
    freed-append (free_all (del_all group_destroy c.groups.items))
      (destroy_ints c.ints 0 ++ closing)
    ∙ ap (λ l. l ++ freed (destroy_ints c.ints 0 ++ closing))
        (freed-free_all (del_all group_destroy c.groups.items))
    ∙ ap (λ l. del_all group_destroy c.groups.items ++ l)
        (freed-append (destroy_ints c.ints 0) closing
          ∙ ap (λ l. l ++ freed closing) (freed-destroy_ints c.ints 0))

module _ (p : Block → Bool) where
  count-append : (bs cs : List Block) → count_if p (bs ++ cs) ≡ count_if p bs + count_if p cs
  unfolding count_if
  count-append [] cs = omega arith
  count-append (b ∷ bs) cs = omega (arith, count-append bs cs)

  count-subscrs :
      (ss : List SubscrNode)
      → count_if p (held subscr_blocks ss) ≡ count_if p (del_all subscr_destroy ss)
  unfolding count_if held del_all subscr_destroy
  count-subscrs [] = refl
  count-subscrs (s ∷ ss) = omega (arith, count-subscrs ss)

  count-grpints :
      (gs : List GrpIntNode)
      → count_if p (held grpint_blocks gs)
        ≡ count_if p (del_all grpint_destroy gs) + count_if p (lists_of gs)
  unfolding count_if held del_all grpint_destroy lists_of
  count-grpints [] = refl
  count-grpints (g ∷ gs) =
      let ss = g.subscriptions.items in
      omega (
        arith,
        count-grpints gs,
        count-subscrs ss,
        count-append (held subscr_blocks ss) (held grpint_blocks gs),
        count-append (grpint_destroy g) (listnode ∷ del_all grpint_destroy gs),
        count-append (del_all subscr_destroy ss) (grpint g ∷ []),
      )

  count-groups :
      (gns : List GroupNode)
      → count_if p (held group_blocks gns)
        ≡ count_if p (del_all group_destroy gns) + count_if p (lists_of_all gns)
  unfolding count_if held del_all group_destroy lists_of_all
  count-groups [] = refl
  count-groups (gn ∷ gns) =
      let gs = gn.interfaces.items in
      omega (
        arith,
        count-groups gns,
        count-grpints gs,
        count-append (held grpint_blocks gs) (held group_blocks gns),
        count-append (lists_of gs) (lists_of_all gns),
        count-append (group_destroy gn) (listnode ∷ del_all group_destroy gns),
        count-append (del_all grpint_destroy gs) (group gn ∷ []),
      )

  -- The end of `main` frees each block of memory that the daemon has, the configuration, its
  -- buffer, the interfaces, the list of groups, and every group, interface of a group,
  -- subscription and node of a list, exactly once, but for the name of the upstream interface and
  -- the lists of the groups and of their interfaces, which it never frees: for any property of
  -- blocks, as many blocks with it are there as are freed and left together.
  pub shutdown_lem :
      (c : Conf)
      → count_if p (conf_blocks c)
        ≡ count_if p (freed (shutdown c))
          + (count_if p (name_block c.upstream) + count_if p (lists_of_all c.groups.items))
  unfolding count_if
  shutdown_lem c =
      let gns = c.groups.items in
      rw (freed-shutdown c) (
        omega (
          arith,
          count-groups gns,
          count-append (name_block c.upstream) (linked_list ∷ held group_blocks gns),
          count-append (del_all group_destroy gns) (ints ∷ (linked_list ∷ (buffer ∷ (conf ∷ [])))),
        ))
