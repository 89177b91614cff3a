-- ===== src/Address/Tests.antt =====
-- Tests of src/socket/address.cc, and its theorems on concrete addresses.
use phase.Base.{
  inl, ℕ, ◌+◌, ◌-◌, ◌%◌, ◌^◌, ◌≡◌, refl, arith, true, false, none, some, List, [], ◌∷◌, ◌++◌,
  replicate, ◌⊎◌, ◌↔◌,
}
use phase.ByteArray.State.{little, big}
use phase.ByteArray.Codec.{byteswap, le_bytes, from_le}
use phase.Http.Dump.{decimal}
use phase.Address.Masks.{
  Ipv4Address, address_of, broadcast_address, network_address, subnet_mask, broadcast_bytes,
  network_bytes, subnet_bytes, create_mask32, create_mask8, swap_on_little,
}
use phase.Address.MaskLaws.{block, ipv4_blocks}
use phase.Address.Ipv6Laws.{part_size, ipv6_blocks}
use phase.Address.Compare.{less_than, same_address, before, less_than_order}
use phase.Address.Lookup.{split_host, bracketed, colon_parts}
use phase.Address.LookupLaws.{split_host_lem}
use phase.Address.Printing.{insert_ipv6}
use phase.Address.PrintLaws.{joined, insert_ipv6_lem}

-- 192.168.1.77 on a little-endian host.
abbrev home : Ipv4Address
home = record { sin_port = 0; s_addr = 0x4d01a8c0 }

ipv4_blocks_example :
    ((b : Ipv4Address) × (broadcast_address little home 24 ≡ some (some b))
      × (b.sin_port ≡ 0)
      × (address_of little b
          ≡ address_of little home - address_of little home % block 24 + (block 24 - 1)))
    × ((b : Ipv4Address) × (network_address little home 24 ≡ some (some b))
        × (b.sin_port ≡ 0)
        × (address_of little b ≡ address_of little home - address_of little home % block 24))
    × ((b : Ipv4Address) × (subnet_mask little 24 ≡ some (some b))
        × (b.sin_port ≡ 0)
        × (address_of little b ≡ 2 ^ 32 - block 24))
ipv4_blocks_example = ipv4_blocks little home 24 (omega arith) (omega arith) (omega arith)

-- 192.168.1.0 is the network.
network_of_home :
    network_address little home 24 ≡ some (some (record { sin_port = 0; s_addr = 0x0001a8c0 }))
unfolding network_address swap_on_little create_mask32 byteswap le_bytes from_le
network_of_home = refl

-- The bytes 0x20 0x01 0x0d and zeros.
abbrev documentation : List ℕ
documentation = 32 ∷ 1 ∷ [] ++ 13 ∷ replicate 13 0

ipv6_blocks_example :
    (broadcast_bytes documentation 20
      ≡ some (32 ∷ 1 ∷ [] ++ (13 - 13 % part_size 20 + (part_size 20 - 1)) ∷ replicate 13 255))
    × (network_bytes documentation 20 ≡ some (32 ∷ 1 ∷ [] ++ (13 % part_size 20) ∷ replicate 13 0))
    × (subnet_bytes 20 ≡ some (replicate 2 255 ++ (256 - part_size 20) ∷ replicate 13 0))
ipv6_blocks_example =
    ipv6_blocks (32 ∷ 1 ∷ []) 13 (replicate 13 0) 20 (omega arith) (omega arith) (omega arith)

-- A prefix of 128 bits changes a byte behind the array.
behind_array : broadcast_bytes documentation 128 ≡ none
unfolding broadcast_bytes create_mask8
behind_array = refl

less_than_order_example :
    (less_than (2 ∷ 0 ∷ []) (2 ∷ 80 ∷ []) ≡ before (2 ∷ 0 ∷ []) (2 ∷ 80 ∷ []))
    × (less_than (2 ∷ 0 ∷ []) (2 ∷ 0 ∷ []) ≡ false)
    × ((c : List ℕ)
        → less_than (2 ∷ 0 ∷ []) (2 ∷ 80 ∷ []) ≡ true
        → less_than (2 ∷ 80 ∷ []) c ≡ true
        → less_than (2 ∷ 0 ∷ []) c ≡ true)
    × ((less_than (2 ∷ 0 ∷ []) (2 ∷ 80 ∷ []) ≡ true)
        ⊎ (less_than (2 ∷ 80 ∷ []) (2 ∷ 0 ∷ []) ≡ true)
        ⊎ (same_address (2 ∷ 0 ∷ []) (2 ∷ 80 ∷ []) ≡ true))
    × ((same_address (2 ∷ 0 ∷ []) (2 ∷ 80 ∷ []) ≡ true)
        ↔ (◌≡◌ {A = List ℕ} (2 ∷ 0 ∷ []) (2 ∷ 80 ∷ [])))
less_than_order_example = less_than_order (2 ∷ 0 ∷ []) (2 ∷ 80 ∷ [])

-- "[::1]:80", "[::1]", "a:80", "a" and "::1".
-- "[::1]:80", "[::1]x", ":80", "a" and "::1".
split_host_lem_example :
    (split_host (91 ∷ (58 ∷ 58 ∷ 49 ∷ [] ++ 93 ∷ 58 ∷ 56 ∷ 48 ∷ []))
      ≡ (58 ∷ 58 ∷ 49 ∷ [], some (56 ∷ 48 ∷ [])))
    × (split_host (91 ∷ (58 ∷ 58 ∷ 49 ∷ [] ++ 93 ∷ 120 ∷ [])) ≡ (58 ∷ 58 ∷ 49 ∷ [], none))
    × (split_host ([] ++ 58 ∷ 56 ∷ 48 ∷ []) ≡ (58 ∷ 56 ∷ 48 ∷ [], some (56 ∷ 48 ∷ [])))
    × (split_host (97 ∷ []) ≡ (97 ∷ [], none))
    × (split_host ([] ++ 58 ∷ ([] ++ 58 ∷ 49 ∷ []))
        ≡ ([] ++ 58 ∷ ([] ++ 58 ∷ 49 ∷ []), some (58 ∷ ([] ++ 58 ∷ 49 ∷ []))))
split_host_lem_example =
    split_host_lem 58 (58 ∷ 49 ∷ []) (120 ∷ []) [] (56 ∷ 48 ∷ []) (97 ∷ []) [] [] (49 ∷ [])
      (refl, (refl, (refl, tt))) refl (inl refl) tt (refl, (refl, tt)) (inl refl) (refl, tt)
      (inl refl) tt tt

-- ":80": the service is found, and the node is the whole again.
empty_node : split_host (58 ∷ 56 ∷ 48 ∷ []) ≡ (58 ∷ 56 ∷ 48 ∷ [], some (56 ∷ 48 ∷ []))
unfolding split_host bracketed colon_parts
empty_node = refl

-- "[1::2]:0" and "[1]:0" of a list of one group.
insert_ipv6_lem_example :
    (insert_ipv6 big (1 ∷ [] ++ (0 ∷ replicate 5 0 ++ 2 ∷ [])) 0
      ≡ 91
        ∷ (joined big (1 ∷ [])
            ++ (58 ∷ 58 ∷ joined big (2 ∷ []))
            ++ (93 ∷ 58 ∷ decimal (swap_on_little big 2 0))))
    × (insert_ipv6 big (1 ∷ []) 0
        ≡ 91 ∷ (joined big (1 ∷ []) ++ (93 ∷ 58 ∷ decimal (swap_on_little big 2 0))))
insert_ipv6_lem_example = insert_ipv6_lem big (1 ∷ []) 5 (2 ∷ []) 1 [] 0 (refl, tt) refl (refl, tt)

-- "[::1]:0".
loopback : insert_ipv6 big (0 ∷ replicate 6 0 ++ 1 ∷ []) 0 ≡ 91 ∷ 58 ∷ 58 ∷ 49 ∷ 93 ∷ 58 ∷ 48 ∷ []
unfolding insert_ipv6 decimal
loopback = refl
