-- ===== src/Names/Laws.antt =====
-- Which ICMPv6 types and codes have a name in src/ecmh.c.
use Prim.Native.String.{String}
use text.Mathlib.Text.{◌==◌ as str_eq}
use ecmh.Prelude.{
  ℕ, ◌+◌, ◌<◌, ◌==◌, ◌&&◌, ◌||◌, ◌≡◌, refl, inl, inr, Bool, true, false, not, leb, All, Option,
  none, some, List, [], ◌∷◌, arith, Bool-cases, if◌then◌else◌,
}
use ecmh.Names.{
  Lookup, lookup, icmpv6_types, codes_of, icmpv6_type, icmpv6_code, tolower, nibble2int,
}

abbrev pub is_unknown : String → Bool
is_unknown s = str_eq s "Unknown"

-- The types and codes of RFC 4443, RFC 4861, RFC 2710, RFC 3810, RFC 4620 and RFC 2894, and those
-- of mtrace.
abbrev pub has_type : ℕ → Bool
has_type t =
    (leb 1 t && leb t 4)
    || (leb 128 t && leb t 140)
    || t == 143
    || (leb 200 t && leb t 201)
    || t == 206

abbrev pub last_code : ℕ → Option ℕ
last_code t =
    if t == 1
    then some 4
    else if t == 3
    then some 1
    else if t == 4 || t == 139 || t == 140
    then some 2
    else if t == 138
    then some 1
    else none

abbrev pub has_code : ℕ → ℕ → Bool
has_code t c = elim (last_code t) [ none ↦ false | some n ↦ leb c n ] || (t == 138 && c == 255)

-- The entry that the search stops at, in a table with no name "Unknown".
abbrev has_entry : List Lookup → ℕ → Bool
has_entry [] n = false
has_entry (l ∷ ls) n =
    let rest = has_entry ls n in elim l.desc [ none ↦ false | some d ↦ l.num == n || rest ]

abbrev is_clear : Option String → Bool
is_clear none = true
is_clear (some d) = not (is_unknown d)

abbrev AllClear : List Lookup → Type 0
AllClear t = All (λ (l : Lookup). is_clear l.desc ≡ true) t

lookup-unknown :
    (t : List Lookup) (n : ℕ) → AllClear t → is_unknown (lookup t n) ≡ not (has_entry t n)
unfolding lookup
lookup-unknown [] n h = refl
lookup-unknown (l ∷ ls) n h = at l.desc h.0 (lookup-unknown ls n h.1)
  where
    at :
        (o : Option String)
        → is_clear o ≡ true
        → is_unknown (lookup ls n) ≡ not (has_entry ls n)
        → is_unknown (elim o [ none ↦ "Unknown" | some d ↦ if l.num == n then d else lookup ls n ])
          ≡ not (elim o [ none ↦ false | some d ↦ l.num == n || has_entry ls n ])
    at none c rest = refl
    at (some d) c rest = elim (Bool-cases (l.num == n)) [
      | inl same ↦ rw same (ground arith)
      | inr other ↦ rw other rest
    ]

codes_of-lem : (t c : ℕ) → AllClear (codes_of t) × (has_entry (codes_of t) c ≡ has_code t c)
codes_of-lem t c = elim (Bool-cases (t == 1)) [
  | inl e ↦ rw e ((search), ground arith)
  | inr e1 ↦ elim (Bool-cases (t == 3)) [
    | inl e ↦ rw (e1, e) ((search), ground arith)
    | inr e2 ↦ elim (Bool-cases (t == 4)) [
      | inl e ↦ rw (e1, e2, e) ((search), ground arith)
      | inr e3 ↦ elim (Bool-cases (t == 139)) [
        | inl e ↦ rw (e1, e2, e3, e) ((search), ground arith)
        | inr e4 ↦ elim (Bool-cases (t == 140)) [
          | inl e ↦ rw (e1, e2, e3, e4, e) ((search), ground arith)
          | inr e5 ↦ elim (Bool-cases (t == 138)) [
            | inl e ↦ rw (e1, e2, e3, e4, e5, e) ((search), ground arith)
            | inr e6 ↦ rw (e1, e2, e3, e4, e5, e6) ((search), ground arith)
          ]
        ]
      ]
    ]
  ]
]

-- A type is shown as "Unknown" exactly if it is no type that MLD, neighbour discovery, the error
-- messages, the echo, renumbering, node information or mtrace use. A code is shown as "Unknown"
-- exactly if its type has no codes with names or the code is past the last of them, where
-- renumbering has the code 255 too.
pub names_lem :
    (t c : ℕ)
    → (is_unknown (icmpv6_type t) ≡ not (has_type t))
      × (is_unknown (icmpv6_code t c) ≡ not (has_code t c))
names_lem t c = (
  rw (lookup-unknown icmpv6_types t (search)) (ground arith),
  rw (lookup-unknown (codes_of t) c (codes_of-lem t c).0) (rw (codes_of-lem t c).1 refl),
)

abbrev pub hex_digit : ℕ → ℕ
hex_digit n = if leb n 9 then n + 48 else n + 87

-- A value that `nibble2int` returns is below 16, and its hexadecimal digit is the character, but
-- for the case.
pub nibble2int-bound : (c n : ℕ) → nibble2int c ≡ some n → (n < 16) × (hex_digit n ≡ tolower c)
unfolding nibble2int
nibble2int-bound c n h = (ground arith, ground arith)
