-- ===== src/Ebpf/Addr.antt =====
-- The part of net/netip that the program uses.
use Prim.Native.Nat.{ℕ}
use go_e_bpf_proxy.Base.{
  Bool, true, Option, none, some, [], ◌∷◌, Bytes, ◌==◌, ◌&&◌, ◌<◌, if◌then◌else◌, length,
}

-- netip.Addr: no address, an IPv4 address by its octets, an IPv6 address by its 16 bytes and zone.
pub data Addr : Type 0 where
  no_addr : Addr
  addr4 : ℕ → ℕ → ℕ → ℕ → Addr
  addr6 : Bytes → Bytes → Addr

pub record AddrPort : Type 0 where
  pub addr : Addr
  pub port : ℕ

-- Every octet is a byte.
abbrev pub IsAddr4 : Addr → Type 0
IsAddr4 (addr4 a b c d) = (a < 256) × (b < 256) × (c < 256) × (d < 256)
IsAddr4 _ = ⊥

-- netip.AddrFromSlice: 4 bytes or 16.
unfoldable pub addr_from_slice : Bytes → Option Addr
addr_from_slice (a ∷ b ∷ c ∷ d ∷ []) = some (addr4 a b c d)
addr_from_slice bs = if length bs == 16 then some (addr6 bs []) else none

is_zeros : Bytes → Bool
is_zeros [] = true
is_zeros (b ∷ bs) = b == 0 && is_zeros bs

unmap_bytes : Bytes → Bytes → Addr
unmap_bytes (z0 ∷ z1 ∷ z2 ∷ z3 ∷ z4 ∷ z5 ∷ z6 ∷ z7 ∷ z8 ∷ z9 ∷ f0 ∷ f1 ∷ a ∷ b ∷ c ∷ d ∷ []) zone =
    if is_zeros (z0 ∷ z1 ∷ z2 ∷ z3 ∷ z4 ∷ z5 ∷ z6 ∷ z7 ∷ z8 ∷ z9 ∷ []) && f0 == 0xff && f1 == 0xff
    then addr4 a b c d
    else addr6 (z0 ∷ z1 ∷ z2 ∷ z3 ∷ z4 ∷ z5 ∷ z6 ∷ z7 ∷ z8 ∷ z9 ∷ f0 ∷ f1 ∷ a ∷ b ∷ c ∷ d ∷ []) zone
unmap_bytes bs zone = addr6 bs zone

-- Addr.Unmap: an IPv4-mapped IPv6 address, ::ffff:a.b.c.d, becomes the IPv4 address.
unfoldable pub unmap : Addr → Addr
unfolding unmap_bytes is_zeros
unmap (addr6 bs zone) = unmap_bytes bs zone
unmap no_addr = no_addr
unmap (addr4 a b c d) = addr4 a b c d
