-- ===== src/Names.antt =====
-- The names of ICMPv6 types and codes in src/ecmh.c, with the numbers of src/mld.h and of RFC 4443,
-- and `nibble2int`, which is compiled without ECMH_GETIFADDR.
pub mod Laws
use Prim.Native.String.{String}
use ecmh.Prelude.{ℕ, ◌+◌, ◌-◌, ◌==◌, ◌&&◌, leb, Option, none, some, List, [], ◌∷◌, if◌then◌else◌}

-- `struct lookup`. A table ends with an entry that has no `desc`.
pub record Lookup : Type 0 where
  pub num : ℕ
  pub desc : Option String

abbrev pub entry : ℕ → String → Lookup
entry num desc = record { num = num; desc = some desc }

abbrev pub last_entry : Lookup
last_entry = record { num = 0; desc = none }

abbrev pub icmpv6_types : List Lookup
icmpv6_types =
    entry 1 "Destination Unreachable"
    ∷ entry 2 "Packet too big"
    ∷ entry 3 "Time Exceeded"
    ∷ entry 4 "Parameter Problem"
    ∷ entry 128 "Echo Request"
    ∷ entry 129 "Echo Reply"
    ∷ entry 130 "Membership Query"
    ∷ entry 131 "Membership Report"
    ∷ entry 132 "Membership Reduction"
    ∷ entry 143 "Membership Report (V2)"
    ∷ entry 206 "Membership Report (V2) - Experimental"
    ∷ entry 133 "ND Router Solicitation"
    ∷ entry 134 "ND Router Advertisement"
    ∷ entry 135 "ND Neighbour Solicitation"
    ∷ entry 136 "ND Neighbour Advertisement"
    ∷ entry 137 "ND Redirect"
    ∷ entry 138 "Router Renumbering"
    ∷ entry 139 "Node Information Query"
    ∷ entry 140 "Node Information Reply"
    ∷ entry 200 "Mtrace Response"
    ∷ entry 201 "Mtrace Message"
    ∷ last_entry
    ∷ []

abbrev pub icmpv6_codes_unreach : List Lookup
icmpv6_codes_unreach =
    entry 0 "No route to destination"
    ∷ entry 1 "Administratively prohibited"
    ∷ entry 2 "Beyond scope of source address"
    ∷ entry 3 "Address Unreachable"
    ∷ entry 4 "Port Unreachable"
    ∷ last_entry
    ∷ []

abbrev pub icmpv6_codes_ttl : List Lookup
icmpv6_codes_ttl =
    entry 0 "Time Exceeded during Transit"
    ∷ entry 1 "Time Exceeded during Reassembly"
    ∷ last_entry
    ∷ []

abbrev pub icmpv6_codes_param : List Lookup
icmpv6_codes_param =
    entry 0 "Erroneous Header Field"
    ∷ entry 1 "Unrecognized Next Header"
    ∷ entry 2 "Unrecognized Option"
    ∷ last_entry
    ∷ []

abbrev pub icmpv6_codes_ni : List Lookup
icmpv6_codes_ni =
    entry 0 "Node Information Successful Reply"
    ∷ entry 1 "Node Information Request Is Refused"
    ∷ entry 2 "Unknown Qtype"
    ∷ last_entry
    ∷ []

abbrev pub icmpv6_codes_renumber : List Lookup
icmpv6_codes_renumber =
    entry 0 "Router Renumbering Command"
    ∷ entry 1 "Router Renumbering Result"
    ∷ entry 255 "Router Renumbering Sequence Number Reset"
    ∷ last_entry
    ∷ []

abbrev pub icmpv6_codes_none : List Lookup
icmpv6_codes_none = last_entry ∷ []

-- The list is the table from the entry at `i` on.
unfoldable pub lookup : List Lookup → ℕ → String
lookup [] num = "Unknown"
lookup (l ∷ ls) num =
    let rest = lookup ls num in
    elim l.desc [ none ↦ "Unknown" | some desc ↦ if l.num == num then desc else rest ]

abbrev pub icmpv6_type : ℕ → String
icmpv6_type type = lookup icmpv6_types type

-- The table of the codes of a type.
abbrev pub codes_of : ℕ → List Lookup
codes_of type =
    if type == 1
    then icmpv6_codes_unreach
    else if type == 3
    then icmpv6_codes_ttl
    else if type == 4
    then icmpv6_codes_param
    else if type == 139
    then icmpv6_codes_ni
    else if type == 140
    then icmpv6_codes_ni
    else if type == 138
    then icmpv6_codes_renumber
    else icmpv6_codes_none

abbrev pub icmpv6_code : ℕ → ℕ → String
icmpv6_code type code = lookup (codes_of type) code

-- A character that is no hexadecimal digit fails the assertion.
abbrev pub tolower : ℕ → ℕ
tolower c = if leb 65 c && leb c 90 then c + 32 else c

unfoldable pub nibble2int : ℕ → Option ℕ
nibble2int c =
    let l = tolower c in
    if leb 48 l && leb l 57
    then some (l - 48)
    else if leb 97 l && leb l 102
    then some (l - 97 + 10)
    else none
