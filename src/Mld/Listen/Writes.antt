-- ===== src/Mld/Listen/Writes.antt =====
-- What the bytes of a version 2 report say, apart from the loops of `l4_ipv6_icmpv6_mld2_report` of
-- src/ecmh.c: the report as the list of the subscriptions that it writes. For each group and source
-- the last one counts.
use ecmh.Prelude.{
  ℕ, zero, suc, ◌+◌, ◌*◌, ◌%◌, ◌≡◌, refl, sym, ap, ◌∙◌, inl, inr, Bool, true, false, not, ◌&&◌,
  ◌||◌, ◌==◌, leb, Option, none, some, List, [], ◌∷◌, ◌++◌, arith, Bool-cases, eq_of_==,
  if◌then◌else◌,
}
use ecmh.Addr.{
  In6Addr, addr_any, is_addr_unspecified, is_addr_mc_nodelocal, is_addr_mc_linklocal, addr_at,
}
use ecmh.Memory.{Memory, ntohs_at}
use ecmh.Subscr.{SubscrNode}
use ecmh.Mld.Listen.Membership.{Membership, refreshed}
use ecmh.Mld.Listen.RecordEffect.{sources_refreshed}

-- The mode is 1 for including a source and 2 for excluding it.
pub record Write : Type 0 where
  pub group : In6Addr
  pub source : In6Addr
  pub mode : ℕ

-- One source of a record, which excludes its sources or includes them. To exclude all sources, `::`,
-- is to write nothing.
unfoldable pub write_of : Bool → In6Addr → In6Addr → List Write
write_of true group source =
    if is_addr_unspecified source
    then []
    else record { group = group; source = source; mode = 2 } ∷ []
write_of false group source = record { group = group; source = source; mode = 1 } ∷ []

-- The `n` sources from the place `src` on.
unfoldable pub source_writes : Memory → Bool → In6Addr → ℕ → ℕ → List Write
source_writes mem exclude group src zero = []
source_writes mem exclude group src (suc n) =
    write_of exclude group (addr_at mem src) ++ source_writes mem exclude group (src + 16) n

-- The record at `grec`. The even types, MODE_IS_EXCLUDE, CHANGE_TO_EXCLUDE and BLOCK_OLD_SOURCES,
-- exclude their sources; without a source they include all sources, and the odd types none.
unfoldable pub record_writes : Memory → ℕ → List Write
record_writes mem grec =
    let group = addr_at mem (grec + 4) in
    let exclude : Bool = mem grec % 2 == 0 in
    if is_addr_mc_nodelocal group || is_addr_mc_linklocal group
    then []
    else if ntohs_at mem (grec + 2) == 0
    then write_of (not exclude) group addr_any
    else source_writes mem exclude group (grec + 20) (ntohs_at mem (grec + 2))

-- The records from the one at `grec` on, `k` of them, up to the first one that starts past the end,
-- has a type other than 1 to 6, or has sources past the end.
unfoldable pub report_writes : ℕ → Memory → ℕ → ℕ → List Write
report_writes zero mem stop grec = []
report_writes (suc k) mem stop grec =
    let n = ntohs_at mem (grec + 2) in
    let rest = report_writes k mem stop (grec + 20 + n * 16 + mem (grec + 1)) in
    if leb grec stop
      && (leb 1 (mem grec) && (leb (mem grec) 6 && (n == 0 || leb (grec + 20 + n * 16) stop)))
    then record_writes mem grec ++ rest
    else []

-- A later mode counts.
abbrev pub or_earlier : Option ℕ → Option ℕ → Option ℕ
or_earlier (some mode) earlier = some mode
or_earlier none earlier = earlier

-- The mode that is written last for a source of a group.
unfoldable pub last_mode : List Write → In6Addr → In6Addr → Option ℕ
last_mode [] k j = none
last_mode (w ∷ ws) k j =
    or_earlier (last_mode ws k j) (if w.group == k && w.source == j then some w.mode else none)

abbrev pub write_entry : ℕ → In6Addr → Option ℕ → Option SubscrNode → Option SubscrNode
write_entry now j none old = old
write_entry now j (some mode) old = some (record { ipv6 = j; mode = mode; refreshtime = now })

-- A subscription after the writes of a report at `now` that came in on the interface `at`.
abbrev pub entry_after :
    ℕ → ℕ → List Write → In6Addr → ℕ → In6Addr → Option SubscrNode → Option SubscrNode
entry_after now at ws k i j old = if at == i then write_entry now j (last_mode ws k j) old else old

last_mode-append :
    (ws vs : List Write) (k j : In6Addr)
    → last_mode (ws ++ vs) k j ≡ or_earlier (last_mode vs k j) (last_mode ws k j)
unfolding last_mode
last_mode-append [] vs k j = or_earlier-none (last_mode vs k j)
  where
    or_earlier-none : (a : Option ℕ) → a ≡ or_earlier a none
    or_earlier-none none = refl
    or_earlier-none (some m) = refl
last_mode-append (w ∷ ws) vs k j =
    let this : Option ℕ = if w.group == k && w.source == j then some w.mode else none in
    ap (λ o. or_earlier o this) (last_mode-append ws vs k j)
    ∙ or_earlier-assoc (last_mode vs k j) (last_mode ws k j) this
  where
    or_earlier-assoc :
        (a b c : Option ℕ) → or_earlier (or_earlier a b) c ≡ or_earlier a (or_earlier b c)
    or_earlier-assoc none b c = refl
    or_earlier-assoc (some m) b c = refl

write_entry-or_earlier :
    (now : ℕ) (j : In6Addr) (a b : Option ℕ) (old : Option SubscrNode)
    → write_entry now j (or_earlier a b) old ≡ write_entry now j a (write_entry now j b old)
write_entry-or_earlier now j none b old = refl
write_entry-or_earlier now j (some m) b old = refl

module _ (now at : ℕ) (k : In6Addr) (i : ℕ) (j : In6Addr) where
  pub entry_after-append :
      (ws vs : List Write) (old : Option SubscrNode)
      → entry_after now at (ws ++ vs) k i j old
        ≡ entry_after now at vs k i j (entry_after now at ws k i j old)
  entry_after-append ws vs old = elim (Bool-cases (at == i)) [
    | inr other ↦ rw other refl
    | inl same ↦
        rw (same, last_mode-append ws vs k j)
          (write_entry-or_earlier now j (last_mode vs k j) (last_mode ws k j) old)
  ]

  pub entry_after-none : (old : Option SubscrNode) → entry_after now at [] k i j old ≡ old
  unfolding last_mode
  entry_after-none old = elim (Bool-cases (at == i)) [
    | inr other ↦ rw other refl
    | inl same ↦ rw same refl
  ]

  entry_after-one :
      (group src : In6Addr) (mode : ℕ) (old : Option SubscrNode)
      → entry_after now at (record { group = group; source = src; mode = mode } ∷ []) k i j old ≡ (
          if group == k && at == i && src == j
          then some (record { ipv6 = src; mode = mode; refreshtime = now })
          else old)
  unfolding last_mode
  entry_after-one group src mode old = elim (Bool-cases (at == i)) [
    | inr other ↦ rw other (ground arith)
    | inl same ↦ elim (Bool-cases (group == k)) [
      | inr other ↦ rw (same, other) refl
      | inl here ↦ elim (Bool-cases (src == j)) [
        | inr other ↦ rw (same, here, other) refl
        | inl named ↦
            rw (same, here, named)
              (ap (λ x. some (record { ipv6 = x; mode = mode; refreshtime = now }))
                (sym (eq_of_== src j named)))
      ]
    ]
  ]

  abbrev pub mode_of : Bool → ℕ
  mode_of exclude = if exclude then 2 else 1

  pub refreshed-write_of :
      (exclude : Bool) (group src : In6Addr) (m : Membership)
      → refreshed now group at src (mode_of exclude) m k i j
        ≡ entry_after now at (write_of exclude group src) k i j (m k i j)
  unfolding write_of
  refreshed-write_of false group src m = sym (entry_after-one group src 1 (m k i j))
  refreshed-write_of true group src m = elim (Bool-cases (is_addr_unspecified src)) [
    | inl all ↦ rw all (sym (entry_after-none (m k i j)))
    | inr one ↦ rw one (sym (entry_after-one group src 2 (m k i j)))
  ]

  pub sources-writes :
      (exclude : Bool) (mem : Memory) (src n : ℕ) (group : In6Addr) (m : Membership)
      → sources_refreshed now at mem src n (mode_of exclude) group m k i j
        ≡ entry_after now at (source_writes mem exclude group src n) k i j (m k i j)
  unfolding sources_refreshed source_writes
  sources-writes exclude mem src zero group m = sym (entry_after-none (m k i j))
  sources-writes exclude mem src (suc n) group m =
      let first = write_of exclude group (addr_at mem src) in
      let rest = source_writes mem exclude group (src + 16) n in
      sources-writes exclude mem (src + 16) n group _
      ∙ ap (entry_after now at rest k i j) (refreshed-write_of exclude group (addr_at mem src) m)
      ∙ sym (entry_after-append first rest (m k i j))
