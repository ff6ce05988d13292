-- ===== src/Server/Subnet.antt =====
-- cpp/server.cpp: the subnet for which `run_server` turns NAT on.
use nospoon.Base.{
  ◌≡◌, ap, ◌∙◌, ℕ, ◌∷◌, ◌++◌, Option, none, some, Bytes, codes, find, rfind, take, drop,
  take-length, drop-length,
}
use nospoon.Validation.Cidr.{Shape}
use nospoon.Validation.Parts.{front, host, cut, find-slash, rfind-dot}

abbrev pub zero_host : Bytes → Bytes → Bytes → Option ℕ → Bytes
zero_host ip addr tail none = ip
zero_host ip addr tail (some last_dot) = take last_dot addr ++ (codes ".0" ++ tail)

abbrev pub subnet_at : Bytes → Option ℕ → Bytes
subnet_at ip none = ip
subnet_at ip (some slash) =
    zero_host ip (take slash ip) (drop slash ip) (rfind b'.' (take slash ip))

unfoldable pub nat_subnet : Bytes → Bytes
unfolding find rfind
nat_subnet ip = subnet_at ip (find b'/' ip)

-- For an address a.b.c.d/p of the configuration the subnet that is masqueraded is a.b.c.0/p,
-- whatever the prefix.
pub nat_subnet-Shape :
    {ip : Bytes} (s : Shape ip) → nat_subnet ip ≡ front s ++ (codes ".0" ++ (b'/' ∷ s.p))
unfolding nat_subnet
nat_subnet-Shape {ip} s =
    ap (subnet_at ip) (find-slash s)
    ∙ rw (
      cut s,
      take-length (host s) (b'/' ∷ s.p),
      drop-length (host s) (b'/' ∷ s.p),
      rfind-dot s,
      take-length (front s) (b'.' ∷ s.d),
    )
