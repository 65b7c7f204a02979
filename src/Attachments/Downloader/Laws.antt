-- ===== src/Attachments/Downloader/Laws.antt =====
-- Which addresses the dialer contacts.
use dingtalk_oa_attachment_b.Prelude.{
  ℕ, ◌+◌, ◌*◌, ◌-◌, ◌/◌, ◌^◌, ◌≤◌, ◌<◌, ◌≡◌, ◌≢◌, ◌⊎◌, inl, inr, Bool, true, false, ◌||◌, not, List,
  [], ◌∷◌, Text, any, All, eqb, is_empty, arith, Bool-cases, if◌then◌else◌,
}
use native.Mathlib.Nat.{div-add-mod, mod-lt}
use dingtalk_oa_attachment_b.Domain.Errors.{Result, ok, err, only, forbidden}
use dingtalk_oa_attachment_b.Domain.Errors.{Result-cases}
use dingtalk_oa_attachment_b.Attachments.Downloader.Addresses.{
  Ip, v4, v6, absent, Prefix, dotted, contains_ip, public_ipv6_network, reserved_networks,
  is_private, is_loopback, is_multicast, is_link_local_unicast, is_special, validate_public_ip,
}
use dingtalk_oa_attachment_b.Attachments.Downloader.{
  Network, validate_all, dial_all, dial_checked, dial_addresses, dial_host, is_tcp, dial_context,
}

-- The addresses from `lo` up to `hi`.
abbrev Range : Type 0
Range = ℕ × ℕ

abbrev Outside : ℕ → Range → Type 0
Outside n (lo, hi) = (n < lo) ⊎ (hi < n)

-- The special IPv4 blocks, by their first and last addresses.
abbrev pub special_v4 : List Range
special_v4 =
    (dotted 0 0 0 0, dotted 0 255 255 255)
    ∷ (dotted 10 0 0 0, dotted 10 255 255 255)
    ∷ (dotted 100 64 0 0, dotted 100 127 255 255)
    ∷ (dotted 127 0 0 0, dotted 127 255 255 255)
    ∷ (dotted 169 254 0 0, dotted 169 254 255 255)
    ∷ (dotted 172 16 0 0, dotted 172 31 255 255)
    ∷ (dotted 192 0 0 0, dotted 192 0 0 255)
    ∷ (dotted 192 0 2 0, dotted 192 0 2 255)
    ∷ (dotted 192 88 99 0, dotted 192 88 99 255)
    ∷ (dotted 192 168 0 0, dotted 192 168 255 255)
    ∷ (dotted 198 18 0 0, dotted 198 19 255 255)
    ∷ (dotted 198 51 100 0, dotted 198 51 100 255)
    ∷ (dotted 203 0 113 0, dotted 203 0 113 255)
    ∷ (dotted 224 0 0 0, dotted 239 255 255 255)
    ∷ (dotted 240 0 0 0, dotted 255 255 255 255)
    ∷ []

-- The special blocks within 2000::/3.
abbrev pub special_v6 : List Range
special_v6 =
    (0x2001 * 2 ^ 112, 0x2001 * 2 ^ 112 + 2 ^ 105 - 1)
    ∷ (0x20010db8 * 2 ^ 96, 0x20010db8 * 2 ^ 96 + 2 ^ 96 - 1)
    ∷ (0x2002 * 2 ^ 112, 0x2002 * 2 ^ 112 + 2 ^ 112 - 1)
    ∷ (0x3fff * 2 ^ 112, 0x3fff * 2 ^ 112 + 2 ^ 108 - 1)
    ∷ []

-- A public address: outside every special block, and for IPv6 inside 2000::/3.
abbrev pub IsPublic : Ip → Type 0
IsPublic (v4 n) = All (Outside n) special_v4
IsPublic (v6 n) = (2 ^ 125 ≤ n) × (n < 2 ^ 126) × All (Outside n) special_v6
IsPublic absent = ⊥

abbrev First : Bool → Bool → Bool → Result (Unit {0})
First a b c =
    if a
    then err (only forbidden)
    else if b
    then err (only forbidden)
    else if c
    then err (only forbidden)
    else ok tt

passed : (a b c : Bool) → First a b c ≡ ok tt → (a ≡ false) × (b ≡ false) × (c ≡ false)
passed a b c h = ground arith

or_false : (a b : Bool) → (a || b) ≡ false → (a ≡ false) × (b ≡ false)
or_false a b h = ground arith

any-false : {A : Type 0} (p : A → Bool) (xs : List A) → any p xs ≡ false → All (λ x. p x ≡ false) xs
any-false p [] h = tt
any-false p (x ∷ xs) h =
    ((or_false (p x) (any p xs) h).0, any-false p xs (or_false (p x) (any p xs) h).1)

special_facts :
    (ip : Ip)
    → is_special ip ≡ false
    → (is_private ip ≡ false)
      × (is_loopback ip ≡ false)
      × (is_link_local_unicast ip ≡ false)
      × (is_multicast ip ≡ false)
unfolding is_special
special_facts ip h = ground arith

-- A number outside a block, by the quotient that the mask leaves.
Outside-block : (n q k : ℕ) → 0 < k → eqb (n / k) q ≡ false → Outside n (q * k, q * k + (k - 1))
Outside-block n q k p h = grind (arith, div-add-mod n k, mod-lt n p)

private_v4 :
    (n : ℕ)
    → is_private (v4 n) ≡ false
    → (eqb (n / 2 ^ 24) 10 ≡ false)
      × (eqb (n / 2 ^ 20) 2753 ≡ false)
      × (eqb (n / 2 ^ 16) 49320 ≡ false)
unfolding is_private
private_v4 n h = ground arith

validate-v4 : (n : ℕ) → validate_public_ip (v4 n) ≡ ok tt → IsPublic (v4 n)
unfolding validate_public_ip reserved_networks contains_ip is_private is_loopback is_multicast
    is_link_local_unicast
validate-v4 n h =
    let f = passed (is_special (v4 n)) false _ h in
    let s = special_facts (v4 n) f.0 in
    let r = any-false (λ (p : Prefix). contains_ip p (v4 n)) reserved_networks f.2 in
    let private = private_v4 n s.0 in
    (
      Outside-block n 0 (2 ^ 24) (omega arith) r.0,
      (
        Outside-block n 10 (2 ^ 24) (omega arith) private.0,
        (
          Outside-block n 401 (2 ^ 22) (omega arith) r.1.0,
          (
            Outside-block n 127 (2 ^ 24) (omega arith) s.1,
            (
              Outside-block n 43518 (2 ^ 16) (omega arith) s.2,
              (
                Outside-block n 2753 (2 ^ 20) (omega arith) private.1,
                (
                  Outside-block n 12582912 (2 ^ 8) (omega arith) r.1.1.0,
                  (
                    Outside-block n 12582914 (2 ^ 8) (omega arith) r.1.1.1.0,
                    (
                      Outside-block n 12605539 (2 ^ 8) (omega arith) r.1.1.1.1.0,
                      (
                        Outside-block n 49320 (2 ^ 16) (omega arith) private.2,
                        (
                          Outside-block n 25353 (2 ^ 17) (omega arith) r.1.1.1.1.1.0,
                          (
                            Outside-block n 12989284 (2 ^ 8) (omega arith) r.1.1.1.1.1.1.0,
                            (
                              Outside-block n 13303921 (2 ^ 8) (omega arith) r.1.1.1.1.1.1.1.0,
                              (
                                Outside-block n 14 (2 ^ 28) (omega arith) s.3,
                                (Outside-block n 15 (2 ^ 28) (omega arith) r.1.1.1.1.1.1.1.1.0, tt),
                              ),
                            ),
                          ),
                        ),
                      ),
                    ),
                  ),
                ),
              ),
            ),
          ),
        ),
      ),
    )

not-false : (b : Bool) → not b ≡ false → b ≡ true
not-false b h = ground arith

public_v6 : (n : ℕ) → eqb (n / 2 ^ 125) 1 ≡ true → (2 ^ 125 ≤ n) × (n < 2 ^ 126)
public_v6 n h = (ground arith, ground arith)

validate-v6 : (n : ℕ) → validate_public_ip (v6 n) ≡ ok tt → IsPublic (v6 n)
unfolding validate_public_ip reserved_networks public_ipv6_network contains_ip
validate-v6 n h =
    let f = passed (is_special (v6 n)) (not (contains_ip public_ipv6_network (v6 n))) _ h in
    let r = any-false (λ (p : Prefix). contains_ip p (v6 n)) reserved_networks f.2 in
    let inside = public_v6 n (not-false _ f.1) in
    (
      inside.0,
      inside.1,
      (
        Outside-block n (0x2001 * 2 ^ 7) (2 ^ 105) (omega arith) r.1.1.1.1.1.1.1.1.1.0,
        (
          Outside-block n 0x20010db8 (2 ^ 96) (omega arith) r.1.1.1.1.1.1.1.1.1.1.0,
          (
            Outside-block n 0x2002 (2 ^ 112) (omega arith) r.1.1.1.1.1.1.1.1.1.1.1.0,
            (
              Outside-block n (0x3fff * 2 ^ 4) (2 ^ 108) (omega arith) r.1.1.1.1.1.1.1.1.1.1.1.1.0,
              tt,
            ),
          ),
        ),
      ),
    )

validate-absent : validate_public_ip absent ≢ ok tt
unfolding validate_public_ip contains_ip
validate-absent h = ground arith

pub validate_public_ip-IsPublic : (ip : Ip) → validate_public_ip ip ≡ ok tt → IsPublic ip
validate_public_ip-IsPublic (v4 n) h = validate-v4 n h
validate_public_ip-IsPublic (v6 n) h = validate-v6 n h
validate_public_ip-IsPublic absent h = validate-absent h

module _ (n : Network) where
  validate_all-All : (ips : List Ip) → validate_all n ips ≡ ok tt → All IsPublic ips
  unfolding validate_all
  validate_all-All [] h = tt
  validate_all-All (ip ∷ ips) h = elim (Result-cases (validate_public_ip ip)) [
    | inl (_, e) ↦ (validate_public_ip-IsPublic ip e, validate_all-All ips (rw e at h))
    | inr (f, e) ↦ absurd (cc (e, h))
  ]

  dial_all-All :
      (network port : Text) (ips : List Ip)
      → All IsPublic ips
      → All IsPublic (dial_all n network port ips).1
  unfolding dial_all
  dial_all-All network port [] h = tt
  dial_all-All network port (ip ∷ ips) h = elim (Result-cases (n.dial network ip port)) [
    | inl (c, e) ↦ rw (e, dial_all) (h.0, tt)
    | inr (f, e) ↦ rw (e, dial_all) (h.0, dial_all-All network port ips h.1)
  ]

  dial_checked-All :
      (network port : Text) (ips : List Ip) → All IsPublic (dial_checked n network port ips).1
  unfolding dial_checked
  dial_checked-All network port ips = elim (Bool-cases (is_empty ips)) [
    | inl e ↦ rw (e, dial_checked) tt
    | inr e ↦
        rw (e, dial_checked)
          (elim (Result-cases (validate_all n ips)) [
            | inl (_, v) ↦
                rw (v, dial_checked) (dial_all-All network port ips (validate_all-All ips v))
            | inr (f, v) ↦ rw (v, dial_checked) tt
          ])
  ]

  dial_addresses-All :
      (network port : Text) (r : Result (List Ip))
      → All IsPublic (dial_addresses n network port r).1
  unfolding dial_addresses
  dial_addresses-All network port (err f) = tt
  dial_addresses-All network port (ok ips) = dial_checked-All network port ips

  dial_host-All : (network host port : Text) → All IsPublic (dial_host n network host port).1
  unfolding dial_host
  dial_host-All network host port = elim (Bool-cases (n.is_port port)) [
    | inl e ↦ rw (e, dial_host) (dial_addresses-All network port _)
    | inr e ↦ rw (e, dial_host) tt
  ]

  -- Whatever the name resolves to, the dialer contacts public addresses only: IPv4 addresses outside
  -- every special block, and IPv6 addresses inside 2000::/3 and outside its special blocks.
  pub dial_context-IsPublic :
      (network address : Text) → All IsPublic (dial_context n network address).1
  unfolding dial_context
  dial_context-IsPublic network address = elim (Bool-cases (is_tcp n network)) [
    | inr e ↦ rw (e, dial_context) tt
    | inl e ↦
        rw (e, dial_context)
          (elim (Result-cases (n.split_host_port address)) [
            | inl ((host, port), s) ↦ rw (s, dial_context) (dial_host-All network host port)
            | inr (f, s) ↦ rw (s, dial_context) tt
          ])
  ]
