-- ===== src/Attachments/Downloader/Addresses.antt =====
-- internal/attachments/downloader.go: validatePublicIP, with what it uses of package net. An address
-- has 4 or 16 bytes and is read as a number; an IPv4 address in an IPv6 one is an IPv4 address, as
-- net.IP.To4 has it.
use dingtalk_oa_attachment_b.Prelude.{
  ℕ, ◌-◌, ◌/◌, ◌%◌, ◌*◌, ◌+◌, ◌^◌, Bool, true, false, ◌&&◌, ◌||◌, not, List, [], ◌∷◌, any, eqb,
  if◌then◌else◌,
}
use dingtalk_oa_attachment_b.Domain.Errors.{Result, ok, err, only, forbidden}

-- `absent` is a nil IP, or one of another length.
pub data Ip : Type 0 where
  v4 v6 : ℕ → Ip
  absent : Ip

-- A network: whether it is an IPv4 one, the first address, and the bits of its prefix.
pub record Prefix : Type 0 where
  pub is_v4 : Bool
  pub first : ℕ
  pub bits : ℕ

abbrev pub dotted : ℕ → ℕ → ℕ → ℕ → ℕ
dotted a b c d = a * 2 ^ 24 + b * 2 ^ 16 + c * 2 ^ 8 + d

abbrev pub under : ℕ → ℕ → ℕ → ℕ → Bool
under width bits first n = eqb (n / 2 ^ (width - bits)) (first / 2 ^ (width - bits))

-- IPNet.Contains
unfoldable pub contains_ip : Prefix → Ip → Bool
contains_ip p (v4 n) = p.is_v4 && under 32 p.bits p.first n
contains_ip p (v6 n) = not p.is_v4 && under 128 p.bits p.first n
contains_ip p absent = false

abbrev net4 : ℕ → ℕ → ℕ → ℕ → ℕ → Prefix
net4 a b c d bits = record { is_v4 = true; first = dotted a b c d; bits = bits }

-- An IPv6 network by the two first groups of its address.
abbrev net6 : ℕ → ℕ → ℕ → Prefix
net6 a b bits = record { is_v4 = false; first = (a * 2 ^ 16 + b) * 2 ^ 96; bits = bits }

-- publicIPv6Network
unfoldable pub public_ipv6_network : Prefix
public_ipv6_network = net6 0x2000 0 3

-- reservedNetworks
unfoldable pub reserved_networks : List Prefix
reserved_networks =
    net4 0 0 0 0 8
    ∷ net4 100 64 0 0 10
    ∷ net4 192 0 0 0 24
    ∷ net4 192 0 2 0 24
    ∷ net4 192 88 99 0 24
    ∷ net4 198 18 0 0 15
    ∷ net4 198 51 100 0 24
    ∷ net4 203 0 113 0 24
    ∷ net4 240 0 0 0 4
    ∷ net6 0x2001 0 23
    ∷ net6 0x2001 0xdb8 32
    ∷ net6 0x2002 0 16
    ∷ net6 0x3fff 0 20
    ∷ []

-- IP.IsPrivate
unfoldable pub is_private : Ip → Bool
is_private (v4 n) =
    under 32 8 (dotted 10 0 0 0) n
    || under 32 12 (dotted 172 16 0 0) n
    || under 32 16 (dotted 192 168 0 0) n
is_private (v6 n) = under 128 7 (0xfc * 2 ^ 120) n
is_private absent = false

-- IP.IsLoopback
unfoldable pub is_loopback : Ip → Bool
is_loopback (v4 n) = under 32 8 (dotted 127 0 0 0) n
is_loopback (v6 n) = eqb n 1
is_loopback absent = false

-- IP.IsUnspecified
unfoldable pub is_unspecified : Ip → Bool
is_unspecified (v4 n) = eqb n 0
is_unspecified (v6 n) = eqb n 0
is_unspecified absent = false

-- IP.IsMulticast
unfoldable pub is_multicast : Ip → Bool
is_multicast (v4 n) = under 32 4 (dotted 224 0 0 0) n
is_multicast (v6 n) = under 128 8 (0xff * 2 ^ 120) n
is_multicast absent = false

-- IP.IsLinkLocalUnicast
unfoldable pub is_link_local_unicast : Ip → Bool
is_link_local_unicast (v4 n) = under 32 16 (dotted 169 254 0 0) n
is_link_local_unicast (v6 n) = under 128 10 (0xfe80 * 2 ^ 112) n
is_link_local_unicast absent = false

-- IP.IsLinkLocalMulticast
unfoldable pub is_link_local_multicast : Ip → Bool
is_link_local_multicast (v4 n) = under 32 24 (dotted 224 0 0 0) n
is_link_local_multicast (v6 n) = eqb (n / 2 ^ 120) 0xff && eqb (n / 2 ^ 112 % 16) 2
is_link_local_multicast absent = false

abbrev is_broadcast : Ip → Bool
is_broadcast (v4 n) = eqb n (dotted 255 255 255 255)
is_broadcast (v6 n) = false
is_broadcast absent = true

-- IP.IsGlobalUnicast, which an absent address is not.
unfoldable pub is_global_unicast : Ip → Bool
unfolding is_unspecified is_loopback is_multicast is_link_local_unicast
is_global_unicast ip = not (
    is_broadcast ip
    || is_unspecified ip
    || is_loopback ip
    || is_multicast ip
    || is_link_local_unicast ip)

abbrev is_v6 : Ip → Bool
is_v6 (v4 n) = false
is_v6 (v6 n) = true
is_v6 absent = true

-- The first test of validatePublicIP.
unfoldable pub is_special : Ip → Bool
is_special ip =
    not (is_global_unicast ip)
    || is_private ip
    || is_loopback ip
    || is_unspecified ip
    || is_link_local_unicast ip
    || is_link_local_multicast ip
    || is_multicast ip

-- validatePublicIP
unfoldable pub validate_public_ip : Ip → Result (Unit {0})
unfolding is_special
validate_public_ip ip =
    if is_special ip
    then err (only forbidden)
    else if is_v6 ip && not (contains_ip public_ipv6_network ip)
    then err (only forbidden)
    else if any (λ network. contains_ip network ip) reserved_networks
    then err (only forbidden)
    else ok tt
