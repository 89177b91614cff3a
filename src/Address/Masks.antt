-- ===== src/Address/Masks.antt =====
-- Broadcast and network addresses and subnet masks of src/socket/address.cc, for both families.
use phase.Base.{
  ℕ, zero, suc, ◌+◌, ◌-◌, ◌/◌, ◌%◌, ◌^◌, bit_and, bit_or, Option, none, some, List, set, get_elem?,
  replicate, ltb, if◌then◌else◌,
}
use phase.ByteArray.State.{Endian, little, big}
use phase.ByteArray.Codec.{byteswap}

-- byteswapOnLittleEndian of an integer of `n` bytes, on a host of this order.
unfoldable pub swap_on_little : Endian → ℕ → ℕ → ℕ
unfolding byteswap
swap_on_little little n v = byteswap n v
swap_on_little big n v = v

-- CreateMask<uint32_t>. The shift is one of an int: by 32 or more it is undefined, and by 31 its result
-- less one overflows.
unfoldable pub create_mask32 : ℕ → Option ℕ
create_mask32 bits =
    if ltb bits 2 then none else if ltb 32 bits then none else some (2 ^ (32 - bits) - 1)

-- CreateMask<uint8_t>, for at most 8 bits: the result is cut to a byte.
unfoldable pub create_mask8 : ℕ → ℕ
create_mask8 bits = (2 ^ (8 - bits) - 1) % 256

-- The port and the address as they stand in a sockaddr_in, read as the host reads them.
pub record Ipv4Address : Type 0 where
  pub sin_port : ℕ
  pub s_addr : ℕ

-- The result is a new address or a null pointer; where the code's own is undefined, there is none.
abbrev pub Result : Type 0
Result = Option (Option Ipv4Address)

abbrev pub with_addr : Ipv4Address → Option ℕ → Result
with_addr a none = none
with_addr a (some s_addr) = some (some (record a { s_addr = s_addr }))

module _ (host : Endian) where
  -- IPv4Address(address, port).
  unfoldable pub new_ipv4 : ℕ → ℕ → Ipv4Address
  unfolding swap_on_little
  new_ipv4 address port = record {
    sin_port = swap_on_little host 2 port;
    s_addr = swap_on_little host 4 address;
  }

  unfoldable pub get_port : Ipv4Address → ℕ
  unfolding swap_on_little
  get_port a = swap_on_little host 2 a.sin_port

  unfoldable pub set_port : Ipv4Address → ℕ → Ipv4Address
  unfolding swap_on_little
  set_port a v = record a { sin_port = swap_on_little host 2 v }

  -- What `insert` reads the address as.
  abbrev pub address_of : Ipv4Address → ℕ
  unfolding swap_on_little
  address_of a = swap_on_little host 4 a.s_addr

  unfoldable pub broadcast_address : Ipv4Address → ℕ → Result
  unfolding swap_on_little create_mask32
  broadcast_address a prefix_len =
      if ltb 32 prefix_len then some none else elim (create_mask32 prefix_len) [
        | none ↦ none
        | some mask ↦ with_addr a (some (bit_or a.s_addr (swap_on_little host 4 mask)))
      ]

  unfoldable pub network_address : Ipv4Address → ℕ → Result
  unfolding swap_on_little create_mask32
  network_address a prefix_len =
      if ltb 32 prefix_len then some none else elim (create_mask32 prefix_len) [
        | none ↦ none
        | some mask ↦
            with_addr a (some (bit_and a.s_addr (swap_on_little host 4 (2 ^ 32 - 1 - mask))))
      ]

  unfoldable pub subnet_mask : ℕ → Result
  unfolding swap_on_little create_mask32
  subnet_mask prefix_len = elim (create_mask32 prefix_len) [
    | none ↦ none
    | some mask ↦
        some (some (record { sin_port = 0; s_addr = 2 ^ 32 - 1 - swap_on_little host 4 mask }))
  ]

-- The loops over `s6_addr[i]` from `i` on: `n` bytes are left.
abbrev pub fill_from : ℕ → ℕ → ℕ → List ℕ → List ℕ
fill_from zero i v bytes = bytes
fill_from (suc n) i v bytes = fill_from n (i + 1) v (set bytes i v)

-- `s6_addr[k]` changed by `f`, and then the bytes behind it filled with `v`; a `k` behind the array has no
-- result.
abbrev pub change_from : (ℕ → ℕ) → ℕ → ℕ → List ℕ → Option (List ℕ)
change_from f k v bytes = elim (get_elem? bytes k) [
  | none ↦ none
  | some b ↦ some (fill_from (16 - (k + 1)) (k + 1) v (set bytes k (f b)))
]

-- The 16 bytes of IPv6Address::broadcastAddress.
unfoldable pub broadcast_bytes : List ℕ → ℕ → Option (List ℕ)
unfolding create_mask8
broadcast_bytes s6_addr prefix_len =
    change_from (λ b. bit_or b (create_mask8 (prefix_len % 8))) (prefix_len / 8) 255 s6_addr

-- Those of IPv6Address::networkAddress.
unfoldable pub network_bytes : List ℕ → ℕ → Option (List ℕ)
unfolding create_mask8
network_bytes s6_addr prefix_len =
    change_from (λ b. bit_and b (create_mask8 (prefix_len % 8))) (prefix_len / 8) 0 s6_addr

-- Those of IPv6Address::subnetMask.
unfoldable pub subnet_bytes : ℕ → Option (List ℕ)
unfolding create_mask8
subnet_bytes prefix_len =
    let zeros : List ℕ = replicate 16 0 in
    let k = prefix_len / 8 in
    elim (get_elem? zeros k) [
      | none ↦ none
      | some b ↦ some (fill_from k 0 255 (set zeros k (255 - create_mask8 (prefix_len % 8))))
    ]
