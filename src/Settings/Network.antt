-- ===== src/Settings/Network.antt =====
-- loraham_kiss_tnc.c: which addresses the network lets in, and on which address the program listens.
use native.Mathlib.Nat.{mul-div_cancel, div-div-eq-div-mul, one-le-pow}
use loraham_kiss_tnc.Base.{
  ℕ, zero, suc, subst, ◌-◌, ◌*◌, ◌/◌, ◌%◌, ◌^◌, ◌≤◌, ◌<◌, ◌≡◌, ◌↔◌, refl, ap, ◌∙◌, sym, Bool, true,
  ◌||◌, ltb, leb, ◌==◌, if_intro, all_below_sound, eqb→eq, Bytes, Option, none, some, cut, length,
  is_empty, err_format, Result, ok, fail, OnOk, arith,
}
use loraham_kiss_tnc.Bridge.Shared.{Config}
use loraham_kiss_tnc.Settings.Bind.{
  ipv4_in_cidr, masked, octet, listen_host, loopback, parse_prefix, with_network, bind_apply,
  host_max,
}
use loraham_kiss_tnc.Settings.Kept.{parse_prefix-le}

-- Two addresses have the same first `prefix` bits.
abbrev pub SameNetwork : ℕ → ℕ → ℕ → Type 0
SameNetwork prefix a b = a / 2 ^ (32 - prefix) ≡ b / 2 ^ (32 - prefix)

block_pos : (prefix : ℕ) → 0 < 2 ^ (32 - prefix)
block_pos prefix = one-le-pow (32 - prefix) 2 (omega arith)

-- What the mask keeps is the block that an address stands in.
masked-block : (prefix a : ℕ) → masked prefix a / 2 ^ (32 - prefix) ≡ a / 2 ^ (32 - prefix)
masked-block prefix a = mul-div_cancel (a / 2 ^ (32 - prefix)) (block_pos prefix)

masked-masked : (prefix a : ℕ) → masked prefix (masked prefix a) ≡ masked prefix a
masked-masked prefix a = ap (λ k. k * 2 ^ (32 - prefix)) (masked-block prefix a)

eq→eqb : (a b : ℕ) → a ≡ b → (a == b) ≡ true
eq→eqb a b h = ground arith

same_block :
    (prefix a b : ℕ)
    → ((masked prefix a == masked prefix (masked prefix b)) ≡ true) ↔ SameNetwork prefix a b
same_block prefix a b = (
  (λ e.
      sym (masked-block prefix a)
      ∙ ap (λ k. k / 2 ^ (32 - prefix))
          (eqb→eq (masked prefix a) (masked prefix (masked prefix b)) e ∙ masked-masked prefix b)
      ∙ masked-block prefix b),
  (λ s.
      eq→eqb (masked prefix a) (masked prefix (masked prefix b))
        (ap (λ k. k * 2 ^ (32 - prefix)) s ∙ sym (masked-masked prefix b))),
)

-- A block of one address, and the block of all.
one_address : (k a b : ℕ) → k ≡ 0 → ((a == (b / 2 ^ k * 2 ^ k)) ≡ true) ↔ (a / 2 ^ k ≡ b / 2 ^ k)
one_address zero a b h = ((λ e. ground arith), (λ s. ground arith))
one_address (suc k) a b h = absurd (omega (arith, h))

all_addresses :
    (k a b : ℕ) → k ≡ 32 → a < 2 ^ 32 → b < 2 ^ 32 → (true ≡ true) ↔ (a / 2 ^ k ≡ b / 2 ^ k)
all_addresses k a b e ha hb =
    ((λ _. subst (λ k. a / 2 ^ k ≡ b / 2 ^ k) (sym e) (omega (arith, ha, hb))), (λ _. refl))

ipv4_in_cidr-SameNetwork :
    (prefix addr ip : ℕ)
    → addr < 2 ^ 32
    → ip < 2 ^ 32
    → (ipv4_in_cidr addr (masked prefix ip) prefix ≡ true) ↔ SameNetwork prefix addr ip
unfolding ipv4_in_cidr
ipv4_in_cidr-SameNetwork prefix addr ip ha hi =
    let P : Bool → Type 0 = λ b. (b ≡ true) ↔ SameNetwork prefix addr ip in
    if_intro P (prefix == 0) (λ z. all_addresses (32 - prefix) addr ip (ground arith) ha hi)
      (λ _.
        if_intro P (leb 32 prefix) (λ full. one_address (32 - prefix) addr ip (ground arith))
          (λ part. same_block prefix addr ip))

-- The first octet is told by the block, where the prefix covers it.
blocks : (prefix : ℕ) → 8 ≤ prefix → prefix ≤ 32 → 2 ^ (32 - prefix) * 2 ^ (prefix - 8) ≡ 16777216
blocks prefix h k =
    let same =
      all_below_sound 33 (λ p. ltb p 8 || 2 ^ (32 - p) * 2 ^ (p - 8) == 16777216) prefix refl
        (omega (arith, k)) in
    ground arith

octet-block :
    (prefix a : ℕ)
    → 8 ≤ prefix
    → prefix ≤ 32
    → octet a 3 ≡ a / 2 ^ (32 - prefix) / 2 ^ (prefix - 8) % 256
octet-block prefix a h k =
    ap (λ d. a / d % 256) (sym (blocks prefix h k))
    ∙ ap (λ q. q % 256) (sym (div-div-eq-div-mul a (2 ^ (32 - prefix)) (2 ^ (prefix - 8))))

octet-SameNetwork :
    (prefix a b : ℕ) → 8 ≤ prefix → prefix ≤ 32 → SameNetwork prefix a b → octet a 3 ≡ octet b 3
octet-SameNetwork prefix a b h k s =
    octet-block prefix a h k
    ∙ ap (λ q. q / 2 ^ (prefix - 8) % 256) s
    ∙ sym (octet-block prefix b h k)

-- On loopback the program listens only where the whole network is one of loopback addresses.
listen_host-loopback :
    (net prefix : ℕ) → listen_host net prefix ≡ loopback → (octet net 3 ≡ 127) × (8 ≤ prefix)
listen_host-loopback net prefix h = ground arith

-- An address in host order.
abbrev pub IsIpv4 : ℕ → Type 0
IsIpv4 a = a < 2 ^ 32

-- What a network from `ip` and `prefix` lets in.
pub record Admits (ip prefix : ℕ) (cfg : Config) : Type 0 where
  pub prefix_le : prefix ≤ 32
  pub same_bits :
      (addr : ℕ)
      → IsIpv4 addr
      → (ipv4_in_cidr addr cfg.bind_net cfg.bind_prefix ≡ true) ↔ SameNetwork prefix addr ip
  pub local_only :
      cfg.kiss_host ≡ loopback
      → (addr : ℕ) → IsIpv4 addr
      → ipv4_in_cidr addr cfg.bind_net cfg.bind_prefix ≡ true
      → octet addr 3 ≡ 127

-- An argument that is accepted tells an address and a prefix; one that is refused changes nothing.
abbrev pub Applied : (Bytes → Option ℕ) → Config → Bytes → Config × Result (Unit {0}) → Type 0
Applied inet_pton cfg arg (cfg', fail e) = cfg' ≡ cfg
Applied inet_pton cfg arg (cfg', ok u) =
    (ip : ℕ) × (prefix : ℕ) × (inet_pton (cut b'/' arg).0 ≡ some ip)
    × (parse_prefix (cut b'/' arg).1 ≡ ok prefix)
    × Admits ip prefix cfg'

with_network-Admits :
    (cfg : Config) (ip prefix : ℕ)
    → IsIpv4 ip
    → prefix ≤ 32
    → Admits ip prefix (with_network cfg (masked prefix ip) prefix)
with_network-Admits cfg ip prefix h k = record {
  prefix_le = k;
  same_bits = λ addr ha. ipv4_in_cidr-SameNetwork prefix addr ip ha h;
  local_only = λ e addr ha inside.
      let (first, long) = listen_host-loopback (masked prefix ip) prefix e in
      octet-SameNetwork prefix addr (masked prefix ip) long k
        ((ipv4_in_cidr-SameNetwork prefix addr ip ha h).0 inside ∙ sym (masked-block prefix ip))
      ∙ first;
}

-- With an inet_pton that reads addresses of 32 bits, an argument that is accepted leads to a network that
-- lets in exactly the addresses whose first bits, as many as the prefix says, are those of the address in
-- the argument; and where the program is to listen on 127.0.0.1, it lets in addresses from 127.0.0.0/8
-- only. An argument that is refused leaves the configuration as it was.
pub bind_apply-Applied :
    (inet_pton : Bytes → Option ℕ) (cfg : Config) (arg : Bytes)
    → ((text : Bytes) (ip : ℕ) → inet_pton text ≡ some ip → IsIpv4 ip)
    → Applied inet_pton cfg arg (bind_apply inet_pton cfg arg)
unfolding bind_apply
bind_apply-Applied inet_pton cfg arg reads =
    let P = Applied inet_pton cfg arg in
    if_intro P (is_empty arg || leb host_max (length arg)) (λ _. refl)
      (λ _.
        elim (parse_prefix (cut b'/' arg).1)
            as (λ r.
              parse_prefix (cut b'/' arg).1 ≡ r
              → OnOk (λ p. p ≤ 32) r
              → P (elim r as (λ _. Config × Result (Unit {0})) [
                | fail e ↦ (cfg, fail e)
                | ok prefix ↦
                    elim (inet_pton (cut b'/' arg).0) as (λ _. Config × Result (Unit {0})) [
                      | none ↦ (cfg, fail err_format)
                      | some ip ↦ (with_network cfg (masked prefix ip) prefix, ok tt)
                    ]
              ])) [
                | fail e ↦ λ _ _. refl
                | ok prefix ↦ λ e k.
                    elim (inet_pton (cut b'/' arg).0)
                        as (λ o.
                          inet_pton (cut b'/' arg).0 ≡ o
                          → P (elim o as (λ _. Config × Result (Unit {0})) [
                            | none ↦ (cfg, fail err_format)
                            | some ip ↦ (with_network cfg (masked prefix ip) prefix, ok tt)
                          ])) [
                            | none ↦ λ _. refl
                            | some ip ↦ λ f. (
                              ip,
                              prefix,
                              f,
                              e,
                              with_network-Admits cfg ip prefix (reads _ ip f) k,
                            )
                          ]
                      refl
              ]
          refl (parse_prefix-le (cut b'/' arg).1))
