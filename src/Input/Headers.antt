-- ===== src/Input/Headers.antt =====
-- The loop over the extension headers of `l3_ipv6` in src/ecmh.c.
use ecmh.Prelude.{
  ℕ, zero, suc, ◌+◌, ◌*◌, ◌<◌, ◌≤◌, ◌≡◌, ◌≢◌, ◌⊎◌, refl, inl, inr, true, false, ◌==◌, ltb, arith,
  Bool-cases,
}
use ecmh.Memory.{Memory}
use ecmh.Input.{Walk, payload, corrupt, out_of_fuel, is_extension, walk}

-- Hop-by-hop options, a routing header, destination options and an authentication header.
abbrev pub Extension : ℕ → Type 0
Extension t = (t ≡ 0) ⊎ ((t ≡ 43) ⊎ ((t ≡ 60) ⊎ (t ≡ 51)))

abbrev pub NoExtension : ℕ → Type 0
NoExtension t = (t ≢ 0) × (t ≢ 43) × (t ≢ 60) × (t ≢ 51)

-- The place behind an extension header: its second byte counts units of 8 bytes, less the first.
abbrev pub behind_at : Memory → ℕ → ℕ
behind_at mem off = off + (mem (off + 1) * 8 + 8)

-- From a header of a type at a place, a chain of extension headers that end in the packet leads to
-- a header of another type at another place.
pub data Chain (mem : Memory) (len : ℕ) : ℕ → ℕ → ℕ → ℕ → Type 0 where
  here : (type off : ℕ) → Chain mem len type off type off
  behind :
      (type off type' off' : ℕ)
      → Extension type
      → behind_at mem off ≤ len
      → Chain mem len (mem off) (behind_at mem off) type' off'
      → Chain mem len type off type' off'

-- The loop has found a payload behind a chain, or a chain to an extension header that ends past the
-- end of the packet.
abbrev pub IsPlaced : Memory → ℕ → ℕ → ℕ → Walk → Type 0
IsPlaced mem len type start (payload type' off plen) =
    Chain mem len type start type' off × NoExtension type' × ((off ≡ start) ⊎ (off ≤ len))
IsPlaced mem len type start corrupt =
    (type' : ℕ) × (off : ℕ) × Chain mem len type start type' off
    × Extension type'
    × (len < behind_at mem off)
IsPlaced mem len type start out_of_fuel = ⊥

is_extension-Extension : (t : ℕ) → is_extension t ≡ true → Extension t
is_extension-Extension t h = elim (Bool-cases (t == 0)) [
  | inl e ↦ inl (ground arith)
  | inr e ↦ elim (Bool-cases (t == 43)) [
    | inl e' ↦ inr (inl (ground arith))
    | inr e' ↦ elim (Bool-cases (t == 60)) [
      | inl e'' ↦ inr (inr (inl (ground arith)))
      | inr e'' ↦ inr (inr (inr (ground arith)))
    ]
  ]
]

is_extension-NoExtension : (t : ℕ) → is_extension t ≡ false → NoExtension t
is_extension-NoExtension t h =
    (λ e. ground arith, λ e. ground arith, λ e. ground arith, λ e. ground arith)

-- With an extension header in front.
IsPlaced-behind :
    (mem : Memory) (len type off : ℕ) (w : Walk)
    → Extension type
    → behind_at mem off ≤ len
    → IsPlaced mem len (mem off) (behind_at mem off) w
    → IsPlaced mem len type off w
IsPlaced-behind mem len type off (payload t o plen) x h (c, n, inl e) =
    (behind type off t o x h c, n, inr (omega (arith, e, h)))
IsPlaced-behind mem len type off (payload t o plen) x h (c, n, inr l) =
    (behind type off t o x h c, n, inr l)
IsPlaced-behind mem len type off corrupt x h (t, o, c, x', over) =
    (t, o, behind type off t o x h c, x', over)
IsPlaced-behind mem len type off out_of_fuel x h v = v

walk_from :
    (fuel : ℕ) (mem : Memory) (len type off plen : ℕ)
    → 0 < fuel
    → len < fuel + off
    → IsPlaced mem len type off (walk fuel mem len type off plen)
unfolding walk
walk_from zero mem len type off plen live h = absurd (omega arith)
walk_from (suc fuel) mem len type off plen live h = elim (Bool-cases (is_extension type)) [
  | inr last ↦ rw last (here type off, is_extension-NoExtension type last, inl refl)
  | inl more ↦
      let x = is_extension-Extension type more in
      elim (Bool-cases (ltb len (off + (mem (off + 1) * 8 + 8)))) [
        | inl over ↦ rw (more, over) (type, off, here type off, x, ground arith)
        | inr fits ↦
            let room : off + (mem (off + 1) * 8 + 8) ≤ len = ground arith in
            rw (more, fits)
              (IsPlaced-behind mem len type off _ x room
                (walk_from fuel mem len (mem off) _ _ (omega arith) (omega arith)))
      ]
]

-- The loop over the extension headers of `l3_ipv6` ends within one round for each byte of the
-- packet and one more. It stops behind a chain of extension headers that end in the packet, from
-- the header behind the IPv6 header on: at a header that is no extension, which stands directly
-- behind the IPv6 header or starts no later than the end of the packet; or, with the packet
-- corrupt, at an extension header that ends past the end of the packet.
pub walk-IsPlaced :
    (mem : Memory) (len type plen : ℕ)
    → IsPlaced mem len type 40 (walk (suc len) mem len type 40 plen)
walk-IsPlaced mem len type plen =
    walk_from (suc len) mem len type 40 plen (omega arith) (omega arith)
