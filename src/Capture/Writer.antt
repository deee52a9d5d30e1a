-- ===== src/Capture/Writer.antt =====
-- The Writer of internal/capture/pcapng.go. An operation is a function of the writer as it stands
-- when w.mu is taken; what it returns is the writer as it stands when w.mu is given back.
pub mod Step
pub mod Change
pub mod Room
pub mod Content
pub mod Landed
pub mod Effect
pub mod History
pub mod Order
pub mod Memory
pub mod Hold
pub mod Settled
pub mod Shut
pub mod Tests
use Prim.Native.Nat.{ℕ}
use mathlib.Core.Option
use go_e_bpf_proxy.Base.{
  suc, ◌+◌, ◌-◌, ◌*◌, ◌^◌, ◌≡◌, Bool, true, false, not, ◌&&◌, Option, none, some, List, [], ◌∷◌,
  ◌++◌, length, take, drop, Bytes, ltb, leb, ◌==◌, if◌then◌else◌, ℤ, pos, ltb_ℤ, signed64, add64,
}
use go_e_bpf_proxy.Capture.Size.{epb_size, dsb_size}
use go_e_bpf_proxy.Capture.Packet.{
  CaptureInfo, HeldPacket, Options, Stop, State, active, stopped_max_bytes, Call, epb, dsb, flush,
  close_fd, WriteError, epb_failed, dsb_failed, flush_failed, close_failed, Pcapgo,
}

abbrev pub hold_window : ℕ
hold_window = 1_000_000_000

abbrev pub max_held_bytes : ℕ
max_held_bytes = 32 * 2 ^ 20

-- `calls` are the calls made on `ng` and `f` since the headers were flushed, oldest first.
-- `admitted` is an int64 pattern. `draining` says that the goroutine of drainPeriodically runs.
pub record Writer : Type 0 where
  pub calls : List Call
  pub path : Bytes
  pub held : List HeldPacket
  pub held_bytes : ℕ
  pub pending : List Bytes
  pub limited : Bool
  pub room : ℤ
  pub admitted : ℕ
  pub on_stop : Bool
  pub stopped : Bool
  pub closed : Bool
  pub close_err : List WriteError
  pub draining : Bool

unfoldable pub state : Writer → State
state w = if w.stopped then stopped_max_bytes else active

pub set_room : Writer → ℤ → Writer
set_room w room = if w.limited then record w { room = room } else w

unfoldable pub admit : Writer → ℕ → Writer × Bool × Option Stop
admit w n =
    if w.stopped
    then (w, false, none)
    else if w.limited && ltb_ℤ w.room (signed64 (add64 w.admitted n))
    then (
      record w { stopped = true },
      false,
      some (record { path = w.path; bytes = w.admitted; room = w.room }),
    )
    else (record w { admitted = add64 w.admitted n }, true, none)

-- The calls of OnStop that notifyStop makes.
abbrev pub notify_stop : Writer → Option Stop → List Stop
notify_stop w none = []
notify_stop w (some s) = if w.on_stop then s ∷ [] else []

-- strings.Join(lines, "\n") + "\n"
pub secrets_payload : List Bytes → Bytes
secrets_payload [] = b'\n' ∷ []
secrets_payload (l ∷ []) = l ++ b'\n' ∷ []
secrets_payload (l ∷ l' ∷ ls) = l ++ b'\n' ∷ secrets_payload (l' ∷ ls)

abbrev pub errors_if : Bool → WriteError → List WriteError
errors_if b e = if b then e ∷ [] else []

-- How many packets from the front WritePacket writes at once; `none` is an index out of range.
pub overflow : List HeldPacket → ℕ → Option ℕ
overflow [] held = if ltb max_held_bytes held then none else some 0
overflow (h ∷ hs) held = elim (ltb max_held_bytes held) [
  | true ↦ Option.map suc (overflow hs (held - length h.bytes))
  | false ↦ some 0
]

-- How many packets from the front have been held for the window at `now`. `at.After(now - window)`
-- is written without the subtraction, which may pass below 0.
pub ripe : List HeldPacket → ℕ → ℕ
ripe [] now = 0
ripe (h ∷ hs) now = elim (leb (h.at + hold_window) now) [ true ↦ suc (ripe hs now) | false ↦ 0 ]

pub stamp : CaptureInfo → ℕ → ℕ → CaptureInfo
stamp ci size now = record {
  timestamp = if ci.timestamp == 0 then now else ci.timestamp;
  capture_length = if ci.capture_length == 0 then size else ci.capture_length;
  wire_length = if ci.wire_length == 0 then size else ci.wire_length;
  interface_index = 0;
}

unfoldable pub enqueue : Writer → CaptureInfo → Bytes → ℕ → Writer
enqueue w ci bytes now = record w {
  held = w.held ++ (record { ci = stamp ci (length bytes) now; bytes = bytes; at = now }) ∷ [];
  held_bytes = w.held_bytes + length bytes;
}

pub data PacketResult : Type 0 where
  err_stopped : PacketResult
  wrote : List WriteError → PacketResult

pub add_secret : Writer → Bytes → Writer × List Stop
add_secret w [] = (w, [])
add_secret w (b ∷ bs) =
    let (w1, admits, stop) = admit w (dsb_size (length (b ∷ bs) + 1)) in
    (
      if admits then record w1 { pending = w1.pending ++ (b ∷ bs) ∷ [] } else w1,
      notify_stop w1 stop,
    )

abbrev pub is_nil {ℓ} : {A : Type ℓ} → List A → Bool
is_nil [] = true
is_nil (x ∷ xs) = false

module _ (p : Pcapgo) where
  unfoldable pub link_type : Options → ℕ
  link_type o = if o.link_type == 0 then p.ethernet else o.link_type

  unfoldable pub header_size : Options → ℕ
  header_size o = p.header_size (link_type o)

  -- The writer that NewWriter returns once the file is created and its headers are flushed.
  unfoldable pub new_writer : Bytes → Options → Writer
  new_writer path o = record {
    calls = [];
    path = path;
    held = [];
    held_bytes = 0;
    pending = [];
    limited = ltb_ℤ (pos 0) o.room;
    room = o.room;
    admitted = header_size o;
    on_stop = o.on_stop;
    stopped = false;
    closed = false;
    close_err = [];
    draining = true;
  }

  pub write_secrets : Writer → List Bytes → Writer × List WriteError
  write_secrets w [] = (w, [])
  write_secrets w (l ∷ ls) =
      let c = dsb (secrets_payload (l ∷ ls)) in
      (
        record w { calls = w.calls ++ c ∷ []; pending = [] },
        errors_if (p.fails w.calls c) dsb_failed,
      )

  pub write_packets : Writer → List HeldPacket → Writer × List WriteError
  write_packets w [] = (w, [])
  write_packets w (h ∷ hs) =
      let c = epb h.ci h.bytes in
      let (w', es) =
        write_packets
          (record w { calls = w.calls ++ c ∷ []; held_bytes = w.held_bytes - length h.bytes }) hs in
      (w', errors_if (p.fails w.calls c) epb_failed ++ es)

  pub write_held : Writer → ℕ → Writer × List WriteError
  write_held w n =
      let (w1, es1) = write_secrets w w.pending in
      let (w2, es2) = write_packets w1 (take n w1.held) in
      (record w2 { held = drop n w2.held }, es1 ++ es2)

  -- `none` is a panic.
  pub write_packet : Writer → CaptureInfo → Bytes → ℕ → Option (Writer × PacketResult × List Stop)
  write_packet w ci bytes now =
      let (w1, admits, stop) = admit w (epb_size (length bytes)) in
      let w2 = enqueue w1 ci bytes now in
      if not admits
      then some (w1, err_stopped, notify_stop w1 stop)
      else Option.map
          (λ n.
            if n == 0
            then (w2, wrote [], [])
            else ((write_held w2 n).0, wrote (write_held w2 n).1, []))
          (overflow w2.held w2.held_bytes)

  pub drain : Writer → ℕ → Writer × List WriteError
  drain w now =
      let (w1, es) = write_held w (ripe w.held now) in
      (
        record w1 { calls = w1.calls ++ flush ∷ [] },
        es ++ errors_if (p.fails w1.calls flush) flush_failed,
      )

  -- A flush that fails still closes the file, and its error is the one returned.
  pub close_file : Writer → Writer × List WriteError
  close_file w =
      let flushed = w.calls ++ flush ∷ [] in
      (
        record w { calls = flushed ++ close_fd ∷ [] },
        if p.fails w.calls flush
            then flush_failed ∷ []
            else errors_if (p.fails flushed close_fd) close_failed,
      )

  pub close_drained : Writer → Writer
  close_drained w =
      if w.stopped && is_nil w.held && is_nil w.pending
      then record (close_file w).0 { close_err = (close_file w).1; closed = true }
      else w

  -- One firing of the ticker of drainPeriodically.
  pub tick : Writer → ℕ → Writer
  tick w now =
      let w1 = close_drained (drain w now).0 in
      if w.draining then record w1 { draining = not w1.closed } else w

  -- Close waits for the goroutine to exit before it takes the lock.
  pub close : Writer → Writer × List WriteError
  close w =
      let w1 = record w { draining = false; closed = true } in
      if w.closed
      then (record w { draining = false }, w.close_err)
      else close_file (write_held w1 (length w1.held)).0
