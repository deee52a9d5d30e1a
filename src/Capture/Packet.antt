-- ===== src/Capture/Packet.antt =====
-- The data of internal/capture/pcapng.go: packets, options, stops and the calls on the file.
use go_e_bpf_proxy.Base.{ℕ, Bool, List, Bytes, ℤ}

-- The fields of gopacket.CaptureInfo that the writer reads or sets. A time is a count of
-- nanoseconds from Go's zero time, which is 0 and which `IsZero` tests.
pub record CaptureInfo : Type 0 where
  pub timestamp : ℕ
  pub capture_length : ℕ
  pub wire_length : ℕ
  pub interface_index : ℕ

pub record HeldPacket : Type 0 where
  pub ci : CaptureInfo
  pub bytes : Bytes
  pub at : ℕ

-- `room` is an int64 that may be negative. `on_stop` says whether OnStop is set.
pub record Options : Type 0 where
  pub link_type : ℕ
  pub room : ℤ
  pub on_stop : Bool

pub record Stop : Type 0 where
  pub path : Bytes
  pub bytes : ℕ
  pub room : ℤ

pub data State : Type 0 where
  active stopped_max_bytes not_started_max_bytes : State

-- A call that the writer makes on its pcapgo.NgWriter or on the file.
pub data Call : Type 0 where
  epb : CaptureInfo → Bytes → Call
  dsb : Bytes → Call
  flush : Call
  close_fd : Call

-- Which call of an operation failed. The wrapped texts are not modelled.
pub data WriteError : Type 0 where
  epb_failed dsb_failed flush_failed close_failed : WriteError

-- What the writer gets of pcapgo and of the operating system: the size of the headers for a link
-- type, the number of the Ethernet link type, whether a call fails after the calls before it, and
-- the bytes of the file once calls have been made.
pub record Pcapgo : Type 0 where
  pub header_size : ℕ → ℕ
  pub ethernet : ℕ
  pub fails : List Call → Call → Bool
  pub file_size : ℕ → List Call → ℕ
