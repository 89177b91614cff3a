-- ===== src/Address/MaskLaws.antt =====
-- What IPv4Address's broadcastAddress, networkAddress and subnetMask of src/socket/address.cc give.
use phase.Base.{
  ℕ, zero, suc, ◌+◌, ◌-◌, ◌%◌, ◌^◌, ◌<◌, ◌≤◌, ◌≡◌, refl, ap, ◌∙◌, arith, some, bit_and, bit_or,
  false, ltb,
}
use native.Mathlib.Nat.{pow-suc, one-le-pow}
use phase.Base.Bits.{or_mask, and_high}
use phase.Base.Bytewise.{bit_or-Digitwise, bit_and-Digitwise}
use phase.ByteArray.State.{Endian}
use phase.Address.Masks.{
  swap_on_little, Ipv4Address, address_of, broadcast_address, network_address, subnet_mask,
}
use phase.Address.Swapping.{
  swap_on_little_commutes, swap_on_little_twice, swap_on_little_not, swap_on_little_lt,
}

abbrev pub block : ℕ → ℕ
block prefix_len = 2 ^ (32 - prefix_len)

pow_below : (k n : ℕ) → 2 ^ k ≤ 2 ^ (k + n)
pow_below k zero = ap_le (let e : k + 0 ≡ k = omega arith in e)
  where
    ap_le : k + 0 ≡ k → 2 ^ k ≤ 2 ^ (k + 0)
    ap_le e = omega (arith, ap (λ z. 2 ^ z) e)
pow_below k (suc n) = omega (
  arith,
  ap (λ z. 2 ^ z) (let e : k + suc n ≡ suc (k + n) = omega arith in e),
  pow-suc 2 (k + n),
  pow_below k n,
)

block_le : (p : ℕ) → p ≤ 32 → block p ≤ 2 ^ 32
block_le p h =
    omega
      (arith, pow_below (32 - p) p, ap (λ z. 2 ^ z) (let e : 32 - p + p ≡ 32 = omega arith in e))

module _ (host : Endian) (a : Ipv4Address) (p : ℕ) (within : a.s_addr < 2 ^ 32) (q : 2 ≤ p)
    (r : p ≤ 32) where
  shifted : ltb p 2 ≡ false
  shifted = ground arith

  refused : ltb 32 p ≡ false
  refused = ground arith

  mask_lt : block p - 1 < 2 ^ 32
  mask_lt = omega (arith, block_le p r, one-le-pow (32 - p) 2)

  ored :
      swap_on_little host 4 (bit_or a.s_addr (swap_on_little host 4 (block p - 1)))
      ≡ address_of host a - address_of host a % block p + (block p - 1)
  unfolding swap_on_little
  ored =
      swap_on_little_commutes host bit_or bit_or-Digitwise a.s_addr _
      ∙ ap (bit_or (swap_on_little host 4 a.s_addr))
          (swap_on_little_twice host 4 (block p - 1) mask_lt)
      ∙ or_mask (32 - p) (swap_on_little host 4 a.s_addr)

  anded :
      swap_on_little host 4 (bit_and a.s_addr (swap_on_little host 4 (2 ^ 32 - 1 - (block p - 1))))
      ≡ address_of host a - address_of host a % block p
  unfolding swap_on_little
  anded =
      swap_on_little_commutes host bit_and bit_and-Digitwise a.s_addr _
      ∙ ap (bit_and (swap_on_little host 4 a.s_addr)) (
          swap_on_little_twice host 4 (2 ^ 32 - 1 - (block p - 1)) (omega arith)
          ∙ omega (arith, same, block_le p r, one-le-pow (32 - p) 2))
      ∙ and_high (32 - p) p (swap_on_little host 4 a.s_addr)
          (omega (arith, same, swap_on_little_lt host a.s_addr within))
    where
      same : 2 ^ (32 - p + p) ≡ 2 ^ 32
      same = ap (λ z. 2 ^ z) (let e : 32 - p + p ≡ 32 = omega arith in e)

-- With a prefix of 2 to 32 bits, on a host of either order, broadcastAddress gives the last address of the
-- block of 2^(32-prefix) addresses that the address lies in, networkAddress the first, both with the
-- address's port, and subnetMask 2^32 less the block's size, with port 0; all read in the host's order.
pub ipv4_blocks :
    (host : Endian) (a : Ipv4Address) (p : ℕ)
    → a.s_addr < 2 ^ 32
    → 2 ≤ p
    → p ≤ 32
    → ((b : Ipv4Address) × (broadcast_address host a p ≡ some (some b))
        × (b.sin_port ≡ a.sin_port)
        × (address_of host b ≡ address_of host a - address_of host a % block p + (block p - 1)))
      × ((b : Ipv4Address) × (network_address host a p ≡ some (some b))
          × (b.sin_port ≡ a.sin_port)
          × (address_of host b ≡ address_of host a - address_of host a % block p))
      × ((b : Ipv4Address) × (subnet_mask host p ≡ some (some b))
          × (b.sin_port ≡ 0)
          × (address_of host b ≡ 2 ^ 32 - block p))
unfolding broadcast_address network_address subnet_mask swap_on_little
ipv4_blocks host a p within q r =
    let m = shifted host a p within q r in
    let small = refused host a p within q r in
    (
      (_, rw (small, m, broadcast_address) refl, refl, ored host a p within q r),
      (_, rw (small, m, network_address) refl, refl, anded host a p within q r),
      (
        record { sin_port = 0; s_addr = 2 ^ 32 - 1 - swap_on_little host 4 (block p - 1) },
        rw (m, small, subnet_mask) refl,
        refl,
        swap_on_little_not host (swap_on_little host 4 (block p - 1))
              (swap_on_little_lt host (block p - 1) (mask_lt host a p within q r))
            ∙ ap (λ z. 2 ^ 32 - 1 - z)
                (swap_on_little_twice host 4 (block p - 1) (mask_lt host a p within q r))
            ∙ omega (arith, one-le-pow (32 - p) 2),
      ),
    )
