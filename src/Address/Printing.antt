-- ===== src/Address/Printing.antt =====
-- IPv4Address::insert and IPv6Address::insert of src/socket/address.cc, into a string of bytes.
use phase.Base.{
  ℕ, zero, suc, ◌+◌, ◌/◌, ◌%◌, ◌^◌, Bool, false, not, ◌&&◌, ◌||◌, List, [], ◌∷◌, ◌++◌, reverse, ltb,
  ◌==◌, if◌then◌else◌,
}
use phase.ByteArray.State.{Endian}
use phase.Http.Dump.{decimal}
use phase.Address.Masks.{swap_on_little, Ipv4Address, get_port, address_of}

-- The hexadecimal digits of `n`, the last first.
abbrev pub hex_back : ℕ → ℕ → List ℕ
hex_back zero n = []
hex_back (suc fuel) n =
    let digit = if ltb (n % 16) 10 then 48 + n % 16 else 87 + n % 16 in
    let rest = hex_back fuel (n / 16) in if ltb n 16 then digit ∷ [] else digit ∷ rest

-- `os << std::hex << n`, for at most 16 bits.
unfoldable pub hex : ℕ → List ℕ
hex n = reverse (hex_back 4 n)

unfoldable pub insert_ipv4 : Endian → Ipv4Address → List ℕ
unfolding get_port decimal swap_on_little
insert_ipv4 host a =
    let addr = address_of host a in
    decimal (addr / 2 ^ 24 % 256)
    ++ (46 ∷ decimal (addr / 2 ^ 16 % 256))
    ++ (46 ∷ decimal (addr / 2 ^ 8 % 256))
    ++ (46 ∷ decimal (addr % 256))
    ++ (58 ∷ decimal (get_port host a))

-- A group as it is printed.
unfoldable pub group_text : Endian → ℕ → List ℕ
unfolding swap_on_little hex
group_text host g = hex (swap_on_little host 2 g)

-- The loop over the groups from the `i`th on, as they stand in memory; `before` is the one in front and
-- `used` is `used_zeros`. At the end, what follows the loop.
unfoldable pub groups_from : Endian → ℕ → ℕ → Bool → List ℕ → List ℕ
unfolding group_text
groups_from host i before used [] = if not used && before == 0 then 58 ∷ 58 ∷ [] else []
groups_from host i before used (g ∷ groups) =
    let opens = not (i == 0) && (before == 0) && not used in
    let skipped = groups_from host (i + 1) g used groups in
    let rest = groups_from host (i + 1) g (used || opens) groups in
    if (g == 0) && not used
    then skipped
    else (if opens then 58 ∷ [] else [])
      ++ (if i == 0 then [] else 58 ∷ [])
      ++ group_text host g
      ++ rest

-- `s6_addr` as its 8 groups, with the port as it stands in memory.
unfoldable pub insert_ipv6 : Endian → List ℕ → ℕ → List ℕ
unfolding groups_from swap_on_little decimal
insert_ipv6 host groups sin6_port =
    91
    ∷ (groups_from host 0 0 false groups ++ (93 ∷ 58 ∷ decimal (swap_on_little host 2 sin6_port)))
