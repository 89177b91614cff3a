-- ===== src/Address/Lookup.antt =====
-- Address::Lookup, LookupAny, LookupAnyIPAddress and Create of src/socket/address.cc. A text is the list
-- of its bytes; getaddrinfo is an argument.
use phase.Base.{
  ℕ, zero, suc, ◌+◌, Bool, true, false, Option, none, some, List, [], ◌∷◌, map, take, drop, ◌==◌,
  if◌then◌else◌,
}
use phase.Http.Names.{c_str}

-- memchr, as an offset.
abbrev pub memchr : ℕ → List ℕ → Option ℕ
memchr c [] = none
memchr c (d ∷ text) =
    if d == c then some 0 else elim (memchr c text) [ none ↦ none | some i ↦ some (i + 1) ]

-- A byte of a C string: 0 at its end.
abbrev pub char_at : List ℕ → ℕ → ℕ
char_at [] n = 0
char_at (c ∷ text) zero = c
char_at (c ∷ text) (suc n) = char_at text n

abbrev pub is_empty : List ℕ → Bool
is_empty [] = true
is_empty (c ∷ text) = false

-- `node`, and `service` unless it is null.
abbrev pub Parts : Type 0
Parts = List ℕ × Option (List ℕ)

-- "[node]:service"; 91 is '[', 93 ']' and 58 ':'.
unfoldable pub bracketed : List ℕ → Parts
bracketed [] = ([], none)
bracketed (c ∷ text) =
    if c == 91
    then elim (memchr 93 text) [
      | none ↦ ([], none)
      | some j ↦
          (take j text, if char_at text (j + 1) == 58 then some (drop (j + 2) text) else none)
    ]
    else ([], none)

-- "node:service", where there is one ':'.
unfoldable pub colon_parts : List ℕ → Parts
colon_parts host = elim (memchr 58 host) [
  | none ↦ ([], none)
  | some i ↦ elim (memchr 58 (drop (i + 1) host)) [
    | none ↦ (take i host, some (drop (i + 1) host))
    | some j ↦ ([], some (drop i host))
  ]
]

abbrev pub or_whole : List ℕ → Parts → Parts
or_whole host (node, service) = (if is_empty node then host else node, service)

-- What getaddrinfo is asked for.
unfoldable pub split_host : List ℕ → Parts
unfolding bracketed colon_parts
split_host host =
    let parts = bracketed host in
    or_whole host (if is_empty parts.0 then colon_parts host else parts)

-- A sockaddr, with its family: AF_INET is 2 and AF_INET6 10.
pub record SockAddr : Type 0 where
  pub family : ℕ
  pub bytes : List ℕ

pub data Address : Type 0 where
  ipv4_address : List ℕ → Address
  ipv6_address : List ℕ → Address
  unknown_address : List ℕ → Address

-- The sizes are those of sockaddr_in, sockaddr_in6 and sockaddr.
unfoldable pub create : SockAddr → Address
create a =
    if a.family == 2
    then ipv4_address (take 16 a.bytes)
    else if a.family == 10
    then ipv6_address (take 28 a.bytes)
    else unknown_address (take 16 a.bytes)

-- What dynamic_pointer_cast<IPAddress> lets pass.
abbrev pub is_ip : Address → Bool
is_ip (ipv4_address bytes) = true
is_ip (ipv6_address bytes) = true
is_ip (unknown_address a) = false

abbrev pub first_ip : List Address → Option Address
first_ip [] = none
first_ip (a ∷ rest) = if is_ip a then some a else first_ip rest

abbrev pub first_of : List Address → Option Address
first_of [] = none
first_of (a ∷ rest) = some a

abbrev pub c_str_of : Option (List ℕ) → Option (List ℕ)
c_str_of none = none
c_str_of (some text) = some (c_str text)

-- getaddrinfo: a node, a service, and the results; `none` for an error.
module _ (getaddrinfo : List ℕ → Option (List ℕ) → Option (List SockAddr)) where
  -- Lookup into an empty vector; `none` where it returns false.
  unfoldable pub lookup : List ℕ → Option (List Address)
  unfolding split_host create c_str
  lookup host =
      let parts = split_host host in
      elim (getaddrinfo (c_str parts.0) (c_str_of parts.1)) [
        | none ↦ none
        | some [] ↦ none
        | some (a ∷ results) ↦ some (map create (a ∷ results))
      ]

  unfoldable pub lookup_any : List ℕ → Option Address
  unfolding lookup
  lookup_any host = elim (lookup host) [ none ↦ none | some result ↦ first_of result ]

  unfoldable pub lookup_any_ip : List ℕ → Option Address
  unfolding lookup
  lookup_any_ip host = elim (lookup host) [ none ↦ none | some result ↦ first_ip result ]
