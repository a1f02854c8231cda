-- ===== src/Tests/Addresses.antt =====
-- Socket addresses.
use ip2unix.Base.{[], arith, none, refl, some, true, ℕ, ◌++◌, ◌∷◌, ◌≡◌}
use ip2unix.Base.Text.{codes}
use ip2unix.SockAddr.{
  Inet, SockAddr, af_inet, create, equals, family, get_host, get_port, get_sockpath, hash_text,
  inet, inet6, unix_addr,
}
use ip2unix.SockAddr.Laws.{PathAddr, equals-hash_text, unix_addr-PathAddr}

abbrev pub net : Inet
net = record {
  pton4 = λ s. some 2130706433;
  pton6 = λ s. none;
  ntop4 = λ n. some (codes "127.0.0.1");
  ntop6 = λ s. none;
}

create_local : create net (codes "127.0.0.1") 80 af_inet ≡ some (inet 80 2130706433)
unfolding create
create_local = refl

unix_addr-PathAddr_example :
    PathAddr (codes "/run/a.sock") 14 (unix_addr (codes "/run/a.sock" ++ 0 ∷ b'x' ∷ b'y' ∷ []))
unix_addr-PathAddr_example =
    unix_addr-PathAddr (codes "/run/a.sock") (0 ∷ b'x' ∷ b'y' ∷ []) (omega arith) refl

abbrev scoped : ℕ → SockAddr
scoped scope_id = inet6 80 (codes "0123456789abcdef") 0 scope_id

same : equals (scoped 1) (scoped 2) ≡ true
unfolding equals
same = refl

equals-hash_text_example :
    (hash_text (scoped 1) ≡ hash_text (scoped 2))
    × (family (scoped 1) ≡ family (scoped 2))
    × (get_port (scoped 1) ≡ get_port (scoped 2))
    × (get_host net (scoped 1) ≡ get_host net (scoped 2))
    × (get_sockpath (scoped 1) ≡ get_sockpath (scoped 2))
    × (equals (scoped 2) (scoped 1) ≡ true)
equals-hash_text_example = equals-hash_text net (scoped 1) (scoped 2) same
