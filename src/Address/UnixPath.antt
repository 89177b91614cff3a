-- ===== src/Address/UnixPath.antt =====
-- UnixAddress of src/socket/address.cc: the path in its sockaddr_un.
use phase.Base.{
  ℕ, suc, ◌+◌, ◌-◌, ◌<◌, ◌≤◌, ◌≡◌, refl, ap, ◌∙◌, arith, Bool, true, false, ◌&&◌, Option, none,
  some, List, [], ◌∷◌, ◌++◌, length, take, drop, replicate, ltb, ◌==◌, if◌then◌else◌, All, take_all,
  take_front, length-append, append_assoc,
}
use phase.Http.Names.{c_str}
use phase.Address.Lookup.{char_at}

-- `sun_path` has 108 bytes and stands at offset 2; `m_length` counts from the front of the structure.
pub record UnixAddress : Type 0 where
  pub sun_path : List ℕ
  pub addr_len : ℕ

abbrev pub starts_with_null : List ℕ → Bool
starts_with_null [] = false
starts_with_null (c ∷ path) = c == 0

-- UnixAddress(path); `none`, where it throws.
unfoldable pub new_unix : List ℕ → Option UnixAddress
new_unix path =
    let size = if starts_with_null path then length path else length path + 1 in
    if ltb 108 size
    then none
    else some (record {
      sun_path = take size (path ++ 0 ∷ []) ++ replicate (108 - size) 0;
      addr_len = size + 2;
    })

-- What getPath and insert print; 92 is a backslash and 48 a '0'.
unfoldable pub get_path : UnixAddress → List ℕ
unfolding c_str
get_path a =
    if ltb 2 a.addr_len && (char_at a.sun_path 0 == 0)
    then 92 ∷ 48 ∷ take (a.addr_len - 2 - 1) (drop 1 a.sun_path)
    else c_str a.sun_path

c_str-append :
    (text rest : List ℕ) → All (λ c. (c == 0) ≡ false) text → c_str (text ++ 0 ∷ rest) ≡ text
unfolding c_str
c_str-append [] rest h = refl
c_str-append (c ∷ text) rest (e, h) = rw e (ap (λ z. c ∷ z) (c_str-append text rest h))

shown :
    (c l : ℕ) (more : List ℕ)
    → (c == 0) ≡ false
    → get_path (record { sun_path = c ∷ more; addr_len = l }) ≡ c_str (c ∷ more)
unfolding get_path
shown c l more e = by_length (ltb 2 l)
  where
    by_length :
        (b : Bool)
        → (if b && (c == 0) then 92 ∷ 48 ∷ take (l - 2 - 1) more else c_str (c ∷ more))
          ≡ c_str (c ∷ more)
    by_length true = rw e refl
    by_length false = refl

whole_path : (path : List ℕ) → take (length path + 1) (path ++ 0 ∷ []) ≡ path ++ 0 ∷ []
whole_path path =
    take_all (length path + 1) (path ++ 0 ∷ []) (omega (arith, length-append path (0 ∷ [])))

plain_path :
    (c : ℕ) (path pad : List ℕ) (l : ℕ)
    → (c == 0) ≡ false
    → All (λ d. (d == 0) ≡ false) path
    → get_path (record {
      sun_path = take (suc (length path) + 1) (c ∷ (path ++ 0 ∷ [])) ++ pad;
      addr_len = l;
    })
      ≡ c ∷ path
plain_path c path pad l e h =
    ap (λ z. get_path (record { sun_path = z ++ pad; addr_len = l })) (whole_path (c ∷ path))
    ∙ shown c l (path ++ 0 ∷ [] ++ pad) e
    ∙ ap c_str (append_assoc (c ∷ path) (0 ∷ []) pad)
    ∙ c_str-append (c ∷ path) pad (e, h)

abstract_name :
    (name pad : List ℕ)
    → get_path (record {
      sun_path = 0 ∷ (take (length name) (name ++ 0 ∷ []) ++ pad);
      addr_len = suc (length name) + 2;
    })
      ≡ 92 ∷ 48 ∷ name
unfolding get_path
abstract_name name pad =
    rw (let q : ltb 2 (suc (length name) + 2) ≡ true = ground arith in q, get_path)
      (ap (λ z. 92 ∷ 48 ∷ z)
        (ap (λ k. take k (take (length name) (name ++ 0 ∷ []) ++ pad))
            (let q : suc (length name) + 2 - 2 - 1 ≡ length name = omega arith in q)
          ∙ ap (λ z. take (length name) (z ++ pad)) (take_front name (0 ∷ []))
          ∙ take_front name pad))

-- A path of 1 to 107 bytes without a null byte is got back, and a name behind a null byte, of at most 107
-- bytes, is got with "\0" in front; what is longer is refused.
pub get_path-new_unix :
    (c : ℕ) (path name long : List ℕ)
    → (c == 0) ≡ false
    → All (λ d. (d == 0) ≡ false) path
    → length (c ∷ path) ≤ 107
    → length name ≤ 107
    → 108 < length long
    → ((a : UnixAddress) × (new_unix (c ∷ path) ≡ some a) × (get_path a ≡ c ∷ path))
      × ((a : UnixAddress) × (new_unix (0 ∷ name) ≡ some a) × (get_path a ≡ 92 ∷ 48 ∷ name))
      × (new_unix long ≡ none)
unfolding new_unix get_path
get_path-new_unix c path name long e h short fits more = (
  (
    record {
      sun_path =
          take (suc (length path) + 1) (c ∷ (path ++ 0 ∷ []))
          ++ replicate (108 - (suc (length path) + 1)) 0;
      addr_len = suc (length path) + 1 + 2;
    },
    rw (e, (let q : ltb 108 (suc (length path) + 1) ≡ false = ground (arith, short) in q), new_unix)
        refl,
    plain_path c path _ _ e h,
  ),
  (
    record {
      sun_path =
          take (suc (length name)) (0 ∷ (name ++ 0 ∷ [])) ++ replicate (108 - suc (length name)) 0;
      addr_len = suc (length name) + 2;
    },
    rw ((let q : ltb 108 (suc (length name)) ≡ false = ground (arith, fits) in q), new_unix) refl,
    abstract_name name _,
  ),
  ground (arith, more),
)
