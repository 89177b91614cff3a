-- ===== src/Address/Ipv6Laws.antt =====
-- What IPv6Address's broadcastAddress, networkAddress and subnetMask of src/socket/address.cc give, byte
-- by byte.
use phase.Base.{
  ℕ, zero, suc, ◌+◌, ◌-◌, ◌/◌, ◌%◌, ◌^◌, ◌<◌, ◌≡◌, refl, ap, sym, ◌∙◌, arith, some, bit_and, bit_or,
  List, [], ◌∷◌, ◌++◌, length, set, get_elem?, replicate, append_assoc, append-nil,
  length-replicate,
}
use native.Mathlib.Nat.{one-le-pow}
use phase.Base.Bits.{or_mask, and_mask}
use phase.Address.Masks.{
  create_mask8, fill_from, change_from, broadcast_bytes, network_bytes, subnet_bytes,
}

set_behind {ℓ} :
    {A : Type ℓ} (front : List A) (b : A) (rest : List A) (v : A)
    → set (front ++ b ∷ rest) (length front) v ≡ front ++ v ∷ rest
set_behind [] b rest v = refl
set_behind (x ∷ front) b rest v = ap (λ z. x ∷ z) (set_behind front b rest v)

get_behind {ℓ} :
    {A : Type ℓ} (front : List A) (b : A) (rest : List A)
    → get_elem? (front ++ b ∷ rest) (length front) ≡ some b
get_behind [] b rest = refl
get_behind (x ∷ front) b rest = get_behind front b rest

length_snoc {ℓ} :
    {A : Type ℓ} (front : List A) (b : A) → length (front ++ b ∷ []) ≡ length front + 1
length_snoc [] b = omega arith
length_snoc (x ∷ front) b = omega (arith, length_snoc front b)

filled :
    (n i v : ℕ) (front rest more : List ℕ)
    → length front ≡ i
    → length rest ≡ n
    → fill_from n i v (front ++ (rest ++ more)) ≡ front ++ (replicate n v ++ more)
filled zero i v front [] more e h = refl
filled zero i v front (b ∷ rest) more e h = absurd (omega arith)
filled (suc n) i v front [] more e h = absurd (omega arith)
filled (suc n) i v front (b ∷ rest) more e h =
    ap (λ k. fill_from n (i + 1) v (set (front ++ b ∷ (rest ++ more)) k v)) (sym e)
    ∙ ap (fill_from n (i + 1) v)
        (set_behind front b (rest ++ more) v ∙ sym (append_assoc front (v ∷ []) (rest ++ more)))
    ∙ filled n (i + 1) v (front ++ v ∷ []) rest more (length_snoc front v ∙ omega (arith, e))
        (omega (arith, h))
    ∙ append_assoc front (v ∷ []) (replicate n v ++ more)

-- The size of the part of a byte behind the prefix.
abbrev pub part_size : ℕ → ℕ
part_size prefix_len = 2 ^ (8 - prefix_len % 8)

mask8_lem : (j : ℕ) → j < 8 → create_mask8 j ≡ 2 ^ (8 - j) - 1
unfolding create_mask8
mask8_lem zero h = refl
mask8_lem (suc zero) h = refl
mask8_lem (suc (suc zero)) h = refl
mask8_lem (suc (suc (suc zero))) h = refl
mask8_lem (suc (suc (suc (suc zero)))) h = refl
mask8_lem (suc (suc (suc (suc (suc zero))))) h = refl
mask8_lem (suc (suc (suc (suc (suc (suc zero)))))) h = refl
mask8_lem (suc (suc (suc (suc (suc (suc (suc zero))))))) h = refl
mask8_lem (suc (suc (suc (suc (suc (suc (suc (suc j)))))))) h = absurd (omega arith)

no_more : (front : List ℕ) (n v : ℕ) → front ++ (replicate n v ++ []) ≡ front ++ replicate n v
no_more front n v = ap (λ z. front ++ z) (append-nil (replicate n v))

changed :
    (f : ℕ → ℕ) (k v : ℕ) (front : List ℕ) (b : ℕ) (rest : List ℕ)
    → length front ≡ k
    → length rest ≡ 16 - (k + 1)
    → change_from f k v (front ++ b ∷ rest) ≡ some (front ++ f b ∷ replicate (16 - (k + 1)) v)
changed f k v front b rest e h =
    rw (sym (ap (get_elem? (front ++ b ∷ rest)) e) ∙ get_behind front b rest, change_from)
      (ap some (
        ap (fill_from (16 - (k + 1)) (k + 1) v) (
          sym (ap (λ z. set (front ++ b ∷ rest) z (f b)) e)
          ∙ set_behind front b rest (f b)
          ∙ sym (append_assoc front (f b ∷ []) rest)
          ∙ ap (λ z. front ++ f b ∷ [] ++ z) (sym (append-nil rest)))
        ∙ filled (16 - (k + 1)) (k + 1) v (front ++ f b ∷ []) rest []
            (length_snoc front (f b) ∙ omega (arith, e)) h
        ∙ no_more (front ++ f b ∷ []) (16 - (k + 1)) v
        ∙ append_assoc front (f b ∷ []) (replicate (16 - (k + 1)) v)))

replicate_more : (k n v : ℕ) → replicate (k + suc n) v ≡ replicate k v ++ v ∷ replicate n v
replicate_more zero n v = ap (λ z. replicate z v) (let e : 0 + suc n ≡ suc n = omega arith in e)
replicate_more (suc k) n v =
    ap (λ z. replicate z v) (let e : suc k + suc n ≡ suc (k + suc n) = omega arith in e)
    ∙ ap (λ z. v ∷ z) (replicate_more k n v)

abbrev zeros : ℕ → List ℕ
zeros n = replicate n 0

zeros_parted : (k : ℕ) → k < 16 → zeros 16 ≡ zeros k ++ 0 ∷ zeros (15 - k)
zeros_parted k h =
    ap zeros (let e : 16 ≡ k + suc (15 - k) = omega arith in e) ∙ replicate_more k (15 - k) 0

subnet_lem :
    (k m : ℕ)
    → k < 16
    → fill_from k 0 255 (set (zeros 16) k m) ≡ replicate k 255 ++ m ∷ zeros (15 - k)
subnet_lem k m h =
    ap (λ z. fill_from k 0 255 (set z k m)) (zeros_parted k h)
    ∙ ap (λ z. fill_from k 0 255 (set (zeros k ++ 0 ∷ zeros (15 - k)) z m))
        (sym (length-replicate k 0))
    ∙ ap (fill_from k 0 255) (set_behind (zeros k) 0 (zeros (15 - k)) m)
    ∙ filled k 0 255 [] (zeros k) (m ∷ zeros (15 - k)) refl (length-replicate k 0)

subnet_found : (k : ℕ) → k < 16 → get_elem? (zeros 16) k ≡ some 0
subnet_found k h =
    ap (λ z. get_elem? z k) (zeros_parted k h)
    ∙ sym (ap (get_elem? (zeros k ++ 0 ∷ zeros (15 - k))) (length-replicate k 0))
    ∙ get_behind (zeros k) 0 (zeros (15 - k))

-- With a prefix of less than 128 bits, which ends in the byte `b` behind `front`, broadcastAddress sets
-- the bits of `b` behind the prefix and all the bytes that follow; networkAddress keeps of `b` just the
-- bits behind the prefix, so that those of the network in it are lost and the host's stay, and clears
-- what follows; subnetMask sets the bytes before `b` and, of `b`, the bits of the prefix.
pub ipv6_blocks :
    (front : List ℕ) (b : ℕ) (rest : List ℕ) (p : ℕ)
    → p < 128
    → length front ≡ p / 8
    → length rest ≡ 15 - p / 8
    → (broadcast_bytes (front ++ b ∷ rest) p
        ≡ some (front ++ (b - b % part_size p + (part_size p - 1)) ∷ replicate (15 - p / 8) 255))
      × (network_bytes (front ++ b ∷ rest) p
          ≡ some (front ++ (b % part_size p) ∷ replicate (15 - p / 8) 0))
      × (subnet_bytes p
          ≡ some (replicate (p / 8) 255 ++ (256 - part_size p) ∷ replicate (15 - p / 8) 0))
unfolding broadcast_bytes network_bytes subnet_bytes
ipv6_blocks front b rest p h e g = (
  changed _ (p / 8) 255 front b rest e (g ∙ sym left)
      ∙ ap (λ z. some (front ++ z ∷ replicate (16 - (p / 8 + 1)) 255))
          (ap (bit_or b) mask ∙ or_mask (8 - p % 8) b)
      ∙ ap (λ z. some (front ++ (b - b % part_size p + (part_size p - 1)) ∷ replicate z 255)) left,
  changed _ (p / 8) 0 front b rest e (g ∙ sym left)
      ∙ ap (λ z. some (front ++ z ∷ replicate (16 - (p / 8 + 1)) 0))
          (ap (bit_and b) mask ∙ and_mask (8 - p % 8) b)
      ∙ ap (λ z. some (front ++ (b % part_size p) ∷ replicate z 0)) left,
  rw (subnet_found (p / 8) (omega (arith, h)), subnet_bytes)
      (ap some (
        subnet_lem (p / 8) (255 - create_mask8 (p % 8)) (omega (arith, h))
        ∙ ap (λ z. replicate (p / 8) 255 ++ z ∷ replicate (15 - p / 8) 0)
            (ap (λ z. 255 - z) mask ∙ omega (arith, one-le-pow (8 - p % 8) 2)))),
)
  where
    left : 16 - (p / 8 + 1) ≡ 15 - p / 8
    left = omega arith

    mask : create_mask8 (p % 8) ≡ part_size p - 1
    mask = mask8_lem (p % 8) (omega arith)
