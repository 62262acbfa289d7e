-- ===== src/Mld/Room.antt =====
-- Where `mld2_send_report` of src/ecmh.c writes, for listeners to any source: one step of its
-- loops.
use ecmh.Prelude.{
  ℕ, zero, suc, ◌+◌, ◌-◌, ◌*◌, ◌%◌, ◌^◌, ◌≤◌, ◌<◌, ◌≡◌, ◌⊎◌, refl, sym, ap, ◌∙◌, inl, inr, true,
  false, ◌||◌, ltb, none, some, List, [], ◌∷◌, length, arith, Bool-cases, if◌then◌else◌,
}
use mathlib.Core.Path.{subst}
use ecmh.Addr.{is_addr_unspecified}
use ecmh.Memory.{Memory, write_bytes, le16, swap16, word_at, addr_bytes}
use ecmh.Subscr.{SubscrNode, mode_is_exclude}
use ecmh.Groups.{GroupNode}
use ecmh.Conf.{Env, int_at}
use ecmh.Input.Stored.{stored_first, stored_second}
use ecmh.Mld.Report2.{
  Rep, store, nsrcs, slot, ngrec, place, new_grec, add_source, room_for, make_room, append_subscr,
}

-- Bytes that a write does not reach.
write_bytes-after :
    (mem : Memory) (off : ℕ) (bs : List ℕ) (k : ℕ)
    → off + length bs ≤ k
    → write_bytes mem off bs k ≡ mem k
unfolding write_bytes
write_bytes-after mem off bs k h = ground arith

write_bytes-before :
    (mem : Memory) (off : ℕ) (bs : List ℕ) (k : ℕ) → k < off → write_bytes mem off bs k ≡ mem k
unfolding write_bytes
write_bytes-before mem off bs k h = ground arith

word_at-behind :
    (mem : Memory) (off : ℕ) (bs : List ℕ) (k : ℕ)
    → off + length bs ≤ k
    → word_at (write_bytes mem off bs) k ≡ word_at mem k
word_at-behind mem off bs k h =
    let one = write_bytes-after mem off bs k h in
    let two = write_bytes-after mem off bs (k + 1) (omega arith) in rw (one, two) refl

word_at-zero : (mem : Memory) (k c : ℕ) → c ≡ 0 → word_at (write_bytes mem k (le16 c)) k ≡ 0
word_at-zero mem k c z = omega (arith, stored_first mem k c, stored_second mem k c)

-- The packet with the record counted, and with the number of sources swapped.
counted : Rep → Rep
counted r = store r 54 (le16 ((ngrec r + 1) % 2 ^ 16))

swapped : Rep → ℕ → Rep
swapped r g = store r (g + 2) (le16 (swap16 (nsrcs r g)))

place-next :
    (r : Rep) (g : ℕ)
    → nsrcs r g ≡ 0
    → 56 ≤ g
    → place (counted r) (some g) ≡ (swapped (counted r) g, g + 20)
unfolding counted swapped store
place-next r g n lo =
    let n' : nsrcs (counted r) g ≡ 0 =
      word_at-behind r.packet 54 (le16 ((ngrec r + 1) % 2 ^ 16)) (g + 2) (omega arith) ∙ n in
    let n'' : nsrcs (swapped (counted r) g) g ≡ 0 =
      word_at-zero (counted r).packet (g + 2) (swap16 (nsrcs (counted r) g)) (rw n' refl) in
    let at : slot (swapped (counted r) g) g ≡ g + 20 = rw n'' (omega arith) in
    λ i. (swapped (counted r) g, at i)

-- The record at a place, in the packet that `place` gives.
fill : GroupNode → Rep × ℕ → Rep
fill gn (r, g) =
    let a = store r (g + 4) (addr_bytes 16 gn.mca) in
    let b = store a (g + 2) (le16 0) in
    record (store b g (mode_is_exclude ∷ [])) { grec = some g; any = false }

new_grec-next :
    (gn : GroupNode) (r : Rep) (g : ℕ)
    → r.grec ≡ some g
    → nsrcs r g ≡ 0
    → 56 ≤ g
    → new_grec gn r ≡ fill gn (swapped (counted r) g, g + 20)
unfolding new_grec counted fill
new_grec-next gn r g e n lo =
    ap (λ o. fill gn (place (counted r) o)) e ∙ ap (fill gn) (place-next r g n lo)

new_grec-first :
    (gn : GroupNode) (r : Rep) → r.grec ≡ none → new_grec gn r ≡ fill gn (counted r, 56)
unfolding new_grec counted fill
new_grec-first gn r e = ap (λ o. fill gn (place (counted r) o)) e

overrun-first :
    (gn : GroupNode) (r : Rep)
    → r.world.overrun ≡ false
    → 76 ≤ r.size
    → (fill gn (counted r, 56)).world.overrun ≡ ltb r.size (56 + 20)
unfolding fill counted store addr_bytes
overrun-first gn r c h = simp c (ground arith)

overrun-next :
    (gn : GroupNode) (r : Rep) (g : ℕ)
    → 56 ≤ g
    → r.world.overrun ≡ false
    → g + 20 ≤ r.size
    → (fill gn (swapped (counted r) g, g + 20)).world.overrun ≡ ltb r.size (g + 20 + 20)
unfolding fill swapped counted store addr_bytes
overrun-next gn r g lo c h = simp c (ground arith)

nsrcs-fill : (gn : GroupNode) (r : Rep) (g : ℕ) → nsrcs (fill gn (r, g)) g ≡ 0
unfolding fill store
nsrcs-fill gn r g =
    let a = store r (g + 4) (addr_bytes 16 gn.mca) in
    let b = store a (g + 2) (le16 0) in
    word_at-behind b.packet g (mode_is_exclude ∷ []) (g + 2) (omega arith)
    ∙ word_at-zero a.packet (g + 2) 0 refl

-- The place of the last of `k` records.
abbrev pub IsLast : ℕ → Rep → Type 0
IsLast zero r = r.grec ≡ none
IsLast (suc j) r = (r.grec ≡ some (56 + 20 * j)) × (nsrcs r (56 + 20 * j) ≡ 0)

-- The packet holds `k` records with no sources, and nothing was written past it.
pub record Fine (p mtu own k : ℕ) (r : Rep) : Type 0 where
  pub size : r.size ≡ mtu
  pub room : (int_at r.world.conf.ints p).mtu ≡ mtu
  pub named : (int_at r.world.conf.ints p).ifindex ≡ own
  pub clean : r.world.overrun ≡ false
  pub going : r.done ≡ false
  pub unplaced : r.src ≡ none
  pub last : IsLast k r
  pub fits : 56 + 20 * k ≤ mtu

-- Something was written past the packet.
pub record Spilled (r : Rep) : Type 0 where
  pub over : r.world.overrun ≡ true
  pub unplaced : r.src ≡ none

-- The state behind `k` records.
abbrev pub Behind : ℕ → ℕ → ℕ → ℕ → Rep → Type 0
Behind p mtu own k r = Fine p mtu own k r ⊎ ((mtu < 56 + 20 * k) × Spilled r)

-- `make_room` and `add_source` for a listener to any source.
with_len : Rep → ℕ → Rep
with_len r len = record r { len = len }

room_for-Fine :
    (e : Env) (p mtu own k : ℕ) (r : Rep)
    → 116 ≤ mtu
    → Fine p mtu own k r
    → (len : ℕ) × (room_for e p mtu 0 r r.grec ≡ with_len r len)
unfolding with_len
room_for-Fine e p mtu own zero r lo f = (56, ap (room_for e p mtu 0 r) f.last ∙ ground arith)
room_for-Fine e p mtu own (suc j) r lo f =
    let g = 56 + 20 * j in
    let at : slot r g ≡ g + 20 = rw f.last.1 (omega arith) in
    let fits : ltb mtu (slot r g - 40 + 40 + 0) ≡ false = rw at (ground (arith, f.fits)) in
    (slot r g - 40, ap (room_for e p mtu 0 r) f.last.0 ∙ simp fits refl)

make_room-any :
    (e : Env) (p mtu : ℕ) (s : SubscrNode) (r : Rep)
    → is_addr_unspecified s.ipv6 ≡ true
    → (int_at r.world.conf.ints p).mtu ≡ mtu
    → make_room e p s r ≡ room_for e p mtu 0 r r.grec
unfolding make_room
make_room-any e p mtu s r any room =
    let none' : (if r.any || is_addr_unspecified s.ipv6 then 0 else 16) ≡ 0 = ground arith in
    λ i. room_for e p (room i) (none' i) r r.grec

any_of : Rep → Rep
any_of r = record r { any = true }

filled-Behind :
    (p mtu own k g : ℕ) (gn : GroupNode) (r : Rep)
    → r.size ≡ mtu
    → (int_at r.world.conf.ints p).mtu ≡ mtu
    → (int_at r.world.conf.ints p).ifindex ≡ own
    → r.done ≡ false
    → r.src ≡ none
    → g ≡ 56 + 20 * k
    → (fill gn (r, g)).world.overrun ≡ ltb mtu (g + 20)
    → Behind p mtu own (suc k) (any_of (fill gn (r, g)))
unfolding any_of fill store
filled-Behind p mtu own k g gn r size room named going unplaced at over =
    elim (Bool-cases (ltb mtu (g + 20))) [
      | inl out ↦ inr (ground arith, record { over = over ∙ out; unplaced = unplaced })
      | inr in' ↦ inl (record {
        size = size;
        room = room;
        named = named;
        clean = over ∙ in';
        going = going;
        unplaced = unplaced;
        last = (ap some at, ap (nsrcs (fill gn (r, g))) (sym at) ∙ nsrcs-fill gn r g);
        fits = ground arith;
      })
    ]

-- `append_subscr` behind `make_room`.
appended : GroupNode → SubscrNode → Rep → Rep
appended gn s roomy =
    if roomy.done
    then roomy
    else add_source s (elim roomy.src [ none ↦ new_grec gn roomy | some _ ↦ roomy ])

add_source-fill :
    (s : SubscrNode) (gn : GroupNode) (r : Rep) (g : ℕ)
    → is_addr_unspecified s.ipv6 ≡ true
    → add_source s (fill gn (r, g)) ≡ any_of (fill gn (r, g))
unfolding add_source any_of fill store
add_source-fill s gn r g any = simp any refl

new_grec-Behind :
    (p mtu own k len : ℕ) (gn : GroupNode) (r : Rep)
    → 116 ≤ mtu
    → Fine p mtu own k r
    → (r' : Rep) × (g : ℕ) × (new_grec gn (with_len r len) ≡ fill gn (r', g))
      × Behind p mtu own (suc k) (any_of (fill gn (r', g)))
unfolding with_len counted swapped store
new_grec-Behind p mtu own zero len gn r lo f =
    let roomy = with_len r len in
    (
      counted roomy,
      56,
      new_grec-first gn roomy f.last,
      filled-Behind p mtu own 0 56 gn (counted roomy) f.size f.room f.named f.going f.unplaced refl
          (overrun-first gn roomy f.clean (omega (arith, f.size)) ∙ ap (λ n. ltb n 76) f.size),
    )
new_grec-Behind p mtu own (suc j) len gn r lo f =
    let roomy = with_len r len in
    let g = 56 + 20 * j in
    (
      swapped (counted roomy) g,
      g + 20,
      new_grec-next gn roomy g f.last.0 f.last.1 (omega arith),
      filled-Behind p mtu own (suc j) (g + 20) gn (swapped (counted roomy) g) f.size f.room f.named
          f.going f.unplaced (omega arith)
          (overrun-next gn roomy g (omega arith) f.clean (omega (arith, f.size, f.fits))
            ∙ ap (λ n. ltb n (g + 20 + 20)) f.size),
    )

-- One listener to any source makes one record.
pub append_subscr-Fine :
    (e : Env) (p mtu own k : ℕ) (gn : GroupNode) (s : SubscrNode) (r : Rep)
    → is_addr_unspecified s.ipv6 ≡ true
    → 116 ≤ mtu
    → Fine p mtu own k r
    → Behind p mtu own (suc k) (append_subscr e p gn s r)
unfolding appended with_len
append_subscr-Fine e p mtu own k gn s r any lo f =
    let (len, made) = room_for-Fine e p mtu own k r lo f in
    let roomy = with_len r len in
    let same : append_subscr e p gn s r ≡ add_source s (new_grec gn roomy) =
      ap (appended gn s) (make_room-any e p mtu s r any f.room ∙ made)
      ∙ simp (f.going, f.unplaced) refl in
    let (r', g, filled, behind) = new_grec-Behind p mtu own k len gn r lo f in
    subst (Behind p mtu own (suc k))
      (sym (same ∙ ap (add_source s) filled ∙ add_source-fill s gn r' g any)) behind
