-- ===== src/SockAddr/Laws.antt =====
-- Addresses answer for what was put into them.
use ip2unix.Base.{
  Option, [], ap, arith, if_cases, leb, length, none, refl, some, true, ℕ, ◌++◌, ◌<◌, ◌∷◌, ◌≡◌, ◌≢◌,
  ◌≤◌, ◌⊎◌,
}
use ip2unix.Base.Text.{Bytes, bytes_eq_iff}
use ip2unix.SockAddr.{
  Family, Inet, SockAddr, af_inet, af_inet6, af_other, af_unix, create, equals, family, get_host,
  get_port, get_sockpath, hash_text, inet, inet6, other, unix, unix_addr, until_nul,
}

-- `create` keeps the port and the family, which is AF_INET or AF_INET6, and the host is what
-- `inet_pton` read.
pub create_lem :
    (net : Inet) (addr : Bytes) (port : ℕ) (fam : Family) {sa : SockAddr}
    → create net addr port fam ≡ some sa
    → (get_port sa ≡ some port) × (family sa ≡ fam) × ((fam ≡ af_inet) ⊎ (fam ≡ af_inet6))
unfolding create get_port family
create_lem net addr port af_inet e = ground arith
create_lem net addr port af_inet6 e = ground arith
create_lem net addr port af_unix e = cc
create_lem net addr port (af_other n) e = cc

abbrev pub HasNoNul : Bytes → Type 0
HasNoNul [] = Unit
HasNoNul (c ∷ s) = (c ≢ 0) × HasNoNul s

-- What stands behind a C string: nothing, or a NUL and anything.
abbrev pub BeginsWithNul : Bytes → Type 0
BeginsWithNul [] = Unit
BeginsWithNul (c ∷ s) = c ≡ 0

until_nul-append :
    (name tail : Bytes) → HasNoNul name → BeginsWithNul tail → until_nul (name ++ tail) ≡ name
unfolding until_nul
until_nul-append [] [] h t = refl
until_nul-append [] (c ∷ tail) h t = rw t refl
until_nul-append (c ∷ name) tail h t = ground (arith, until_nul-append name tail h.1 t)

-- What `unix` has to make of a text of which `name` stands before the first NUL: nothing where the
-- whole text leaves no room for a NUL in 108 bytes, and else an address with the path `name`.
abbrev pub PathAddr : Bytes → ℕ → Option SockAddr → Type 0
PathAddr name n none = 108 ≤ n
PathAddr name n (some sa) =
    (n < 108) × (family sa ≡ af_unix) × (get_sockpath sa ≡ some name) × (get_port sa ≡ none)

-- An address is made from a text exactly if the text is shorter than 108 bytes; it is of the family
-- AF_UNIX, has no port, and its path is the text up to the first NUL.
pub unix_addr-PathAddr :
    (name tail : Bytes)
    → HasNoNul name
    → BeginsWithNul tail
    → PathAddr name (length (name ++ tail)) (unix_addr (name ++ tail))
unfolding unix_addr get_sockpath get_port family
unix_addr-PathAddr name tail h t =
    if_cases (PathAddr name (length (name ++ tail))) (leb 108 (length (name ++ tail))) _ _
      (λ e. ground arith)
      (λ e. (ground arith, refl, ap some (until_nul-append name tail h t), refl))

-- Addresses that `operator==` takes for equal hand the same text to the hash, as a table with
-- addresses for keys needs it; they have the same family, port, host and path, and the comparison
-- does not depend on the order.
pub equals-hash_text :
    (net : Inet) (a b : SockAddr)
    → equals a b ≡ true
    → (hash_text a ≡ hash_text b)
      × (family a ≡ family b)
      × (get_port a ≡ get_port b)
      × (get_host net a ≡ get_host net b)
      × (get_sockpath a ≡ get_sockpath b)
      × (equals b a ≡ true)
unfolding equals hash_text family get_port get_host get_sockpath
equals-hash_text net (inet p a) (inet p' a') h =
    let port : p ≡ p' = ground arith in
    let addr : a ≡ a' = ground arith in (cc, refl, cc, cc, refl, ground arith)
equals-hash_text net (inet6 p a f i) (inet6 p' a' f' i') h =
    let port : p ≡ p' = ground arith in
    let addr : a ≡ a' = ground (arith, bytes_eq_iff a a') in
    (cc, refl, cc, cc, refl, ground (arith, port, addr, bytes_eq_iff a' a))
equals-hash_text net (unix p) (unix p') h =
    let path : p ≡ p' = ground (arith, bytes_eq_iff p p') in
    (cc, refl, refl, refl, cc, ground (arith, path, bytes_eq_iff p' p))
equals-hash_text net (other n) b h = cc
equals-hash_text net a b h = cc
