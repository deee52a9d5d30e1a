-- ===== src/Proxy/Splice.antt =====
-- internal/proxy/relay.go: `splice`, its two goroutines and the function that waits for them as three
-- threads, a step at a time. What a read or a write of a connection answers is left open, within what
-- io.Reader, io.Writer and io.Copy document; a read or write in a thread may be as long as it likes.
pub mod Piped
pub mod Closed
pub mod Ends
mod Tests
use Prim.Native.Nat.{ℕ}
use go_e_bpf_proxy.Base.{zero, suc, ◌+◌, ◌<◌, ◌≡◌, Bool, true, false, List, [], ◌++◌, Bytes, length}

-- How the reading of src ended: by io.EOF, or by an error.
pub data ReadEnd : Type 0 where
  eof read_error : ReadEnd

-- What Read returns beside the bytes.
pub data Answer : Type 0 where
  more : Answer
  last : ReadEnd → Answer

-- How io.Copy ended: src was over, or the last bytes were not all written.
pub data Ending : Type 0 where
  src_over : ReadEnd → Ending
  write_failed : (lost : Bytes) → Ending

-- Where cp(dst, src) stands.
pub data Stage : Type 0 where
  reading : Stage  -- in io.Copy, before a Read of src
  writing : (chunk : Bytes) (answer : Answer) → Stage  -- in io.Copy, before the Write of what was read
  copied : Ending → Stage  -- io.Copy has returned
  leaving : Ending → Stage  -- before wg.Done
  finished : Ending → Stage

-- What one direction has read from src, written to dst, and how often it called CloseWrite on dst.
pub record Wire : Type 0 where
  pub taken : Bytes
  pub given : Bytes
  pub half_closes : ℕ

-- One step of cp. `tcp` says whether dst is a *net.TCPConn.
pub data Move (tcp : Bool) (w : Wire) : Stage → Wire → Stage → Type 0 where
  read :
      (chunk : Bytes)
      → Move tcp w reading (record w { taken = w.taken ++ chunk }) (writing chunk more)
  read_last :
      (chunk : Bytes) {e : ReadEnd}
      → Move tcp w reading (record w { taken = w.taken ++ chunk }) (writing chunk (last e))
  write :
      {chunk : Bytes}
      → Move tcp w (writing chunk more) (record w { given = w.given ++ chunk }) reading
  write_last :
      {chunk : Bytes} {e : ReadEnd}
      → Move tcp w
          (writing chunk (last e))
          (record w { given = w.given ++ chunk })
          (copied (src_over e))
  write_fail :
      {chunk : Bytes} {answer : Answer} (sent lost : Bytes)
      → 0 < length chunk
      → chunk ≡ sent ++ lost
      → Move tcp w
          (writing chunk answer)
          (record w { given = w.given ++ sent })
          (copied (write_failed lost))
  half_close :
      {e : Ending}
      → tcp ≡ true
      → Move tcp w (copied e) (record w { half_closes = suc w.half_closes }) (leaving e)
  skip : {e : Ending} → tcp ≡ false → Move tcp w (copied e) w (leaving e)
  done : {e : Ending} → Move tcp w (leaving e) w (finished e)

-- Where splice itself stands: in wg.Wait, before its deferred calls, which run last first, between
-- them, and after them.
pub data Waiter : Type 0 where
  waiting waited closed_upstream returned : Waiter

-- splice(client, upstream): cp(client, upstream), cp(upstream, client), and how often each
-- connection was closed.
pub record Splice : Type 0 where
  pub to_client : Wire
  pub at_client : Stage
  pub to_upstream : Wire
  pub at_upstream : Stage
  pub waiter : Waiter
  pub client_closes : ℕ
  pub upstream_closes : ℕ

abbrev pub no_bytes : Wire
no_bytes = record { taken = []; given = []; half_closes = 0 }

abbrev pub spliced : Splice
spliced = record {
  to_client = no_bytes;
  at_client = reading;
  to_upstream = no_bytes;
  at_upstream = reading;
  waiter = waiting;
  client_closes = 0;
  upstream_closes = 0;
}

-- Which connections are a *net.TCPConn.
pub record Kinds : Type 0 where
  pub client_tcp : Bool
  pub upstream_tcp : Bool

-- Whether a stage is a Read away from the next.
abbrev pub reads : Stage → ℕ
reads reading = 1
reads p = 0

-- One step of splice, and the number of Reads in it.
pub data Step (kinds : Kinds) (s : Splice) : ℕ → Splice → Type 0 where
  copy_to_client :
      {w : Wire} {p : Stage}
      → Move kinds.client_tcp s.to_client s.at_client w p
      → Step kinds s (reads s.at_client) (record s { to_client = w; at_client = p })
  copy_to_upstream :
      {w : Wire} {p : Stage}
      → Move kinds.upstream_tcp s.to_upstream s.at_upstream w p
      → Step kinds s (reads s.at_upstream) (record s { to_upstream = w; at_upstream = p })
  wait :
      {e f : Ending}
      → s.waiter ≡ waiting
      → s.at_client ≡ finished e
      → s.at_upstream ≡ finished f
      → Step kinds s 0 (record s { waiter = waited })
  close_upstream :
      s.waiter ≡ waited
      → Step kinds s 0
          (record s { waiter = closed_upstream; upstream_closes = suc s.upstream_closes })
  close_client :
      s.waiter ≡ closed_upstream
      → Step kinds s 0 (record s { waiter = returned; client_closes = suc s.client_closes })

-- After so many steps with so many Reads, in any interleaving.
pub data Reach (kinds : Kinds) : (steps read : ℕ) → Splice → Type 0 where
  start : Reach kinds 0 0 spliced
  later :
      {n r k : ℕ} {s t : Splice}
      → Reach kinds n r s
      → Step kinds s k t
      → Reach kinds (suc n) (r + k) t
