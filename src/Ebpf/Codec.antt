-- ===== src/Ebpf/Codec.antt =====
-- internal/ebpf/codec.go: keys and values of the maps, in native byte order.
use Prim.Native.Nat.{ℕ}
use go_e_bpf_proxy.Base.{
  ◌+◌, ◌*◌, ◌/◌, ◌%◌, ◌^◌, ◌<◌, ◌≡◌, ◌≢◌, ◌↔◌, refl, Bool, true, false, Option, none, some, arith,
  if◌then◌else◌,
}
use go_e_bpf_proxy.Ebpf.Addr.{Addr, no_addr, addr4, addr6, AddrPort, IsAddr4}

-- ProxyTupleKey and ProxyOrigDst: a uint32 and a uint16.
pub record TupleKey : Type 0 where
  pub ip : ℕ
  pub port : ℕ

pub record OrigDst : Type 0 where
  pub ip : ℕ
  pub port : ℕ

-- binary.NativeEndian.Uint32 of four bytes, and PutUint32. `little` is the machine's byte order.
uint32 : Bool → ℕ → ℕ → ℕ → ℕ → ℕ
uint32 little a b c d =
    if little
    then a + b * 2 ^ 8 + c * 2 ^ 16 + d * 2 ^ 24
    else d + c * 2 ^ 8 + b * 2 ^ 16 + a * 2 ^ 24

put_uint32 : Bool → ℕ → Addr
put_uint32 little v =
    let b0 = v % 2 ^ 8 in
    let b1 = v / 2 ^ 8 % 2 ^ 8 in
    let b2 = v / 2 ^ 16 % 2 ^ 8 in
    let b3 = v / 2 ^ 24 % 2 ^ 8 in if little then addr4 b0 b1 b2 b3 else addr4 b3 b2 b1 b0

-- `none` is ErrNotIPv4.
unfoldable pub tuple_key : Bool → Addr → ℕ → Option TupleKey
unfolding uint32
tuple_key little (addr4 a b c d) port = some (record { ip = uint32 little a b c d; port = port })
tuple_key little no_addr port = none
tuple_key little (addr6 bs zone) port = none

pub orig_dst : Bool → Addr → ℕ → Option OrigDst
unfolding uint32
orig_dst little (addr4 a b c d) port = some (record { ip = uint32 little a b c d; port = port })
orig_dst little no_addr port = none
orig_dst little (addr6 bs zone) port = none

unfoldable pub addr_port : Bool → OrigDst → AddrPort
unfolding put_uint32
addr_port little od = record { addr = put_uint32 little od.ip; port = od.port }

-- What OrigDst encodes, AddrPort decodes, in either byte order, and the value fits a uint32.
pub addr_port-orig_dst :
    (little : Bool) (dst : Addr) (port : ℕ)
    → IsAddr4 dst
    → (od : OrigDst) × (orig_dst little dst port ≡ some od)
      × (addr_port little od ≡ record { addr = dst; port = port })
      × (od.ip < 2 ^ 32)
unfolding orig_dst addr_port
addr_port-orig_dst little no_addr port h = absurd h
addr_port-orig_dst little (addr6 bs zone) port h = absurd h
addr_port-orig_dst true (addr4 a b c d) port h = (_, refl, ground arith, omega arith)
addr_port-orig_dst false (addr4 a b c d) port h = (_, refl, ground arith, omega arith)

pub tuple_key_addr4 :
    (little : Bool) (src : Addr) (port : ℕ) → IsAddr4 src → tuple_key little src port ≢ none
unfolding tuple_key
tuple_key_addr4 little no_addr port h = absurd h
tuple_key_addr4 little (addr6 bs zone) port h = absurd h
tuple_key_addr4 little (addr4 a b c d) port h = λ e. cc

-- Two IPv4 sources have one key in the tuple map exactly when they are one address and port.
pub tuple_key_injective :
    (little : Bool) (a b : Addr) (p q : ℕ)
    → IsAddr4 a
    → IsAddr4 b
    → (tuple_key little a p ≡ tuple_key little b q) ↔ ((a ≡ b) × (p ≡ q))
unfolding tuple_key
tuple_key_injective little no_addr b p q ha hb = absurd ha
tuple_key_injective little (addr6 bs zone) b p q ha hb = absurd ha
tuple_key_injective little (addr4 a1 a2 a3 a4) no_addr p q ha hb = absurd hb
tuple_key_injective little (addr4 a1 a2 a3 a4) (addr6 bs zone) p q ha hb = absurd hb
tuple_key_injective true (addr4 a1 a2 a3 a4) (addr4 b1 b2 b3 b4) p q ha hb =
    ((λ e. (ground arith, ground arith)), (λ e. ground arith))
tuple_key_injective false (addr4 a1 a2 a3 a4) (addr4 b1 b2 b3 b4) p q ha hb =
    ((λ e. (ground arith, ground arith)), (λ e. ground arith))
