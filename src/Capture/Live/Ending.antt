-- ===== src/Capture/Live/Ending.antt =====
-- How the copying ends, and what it hands on until then.
use Prim.Native.Nat.{ℕ}
use go_e_bpf_proxy.Base.{◌≡◌, Bool, true, false, some, List, [], ◌∷◌, ◌++◌, Bytes}
use go_e_bpf_proxy.Capture.Packet.{CaptureInfo, Stop, WriteError, Pcapgo}
use go_e_bpf_proxy.Capture.Writer.{Writer, err_stopped, wrote, write_packet}
use go_e_bpf_proxy.Capture.Writer.Step.{Event, packet, step, run}
use go_e_bpf_proxy.Capture.Writer.Memory.{InCap}
use go_e_bpf_proxy.Capture.Live.{
  Read, got, failed, under_way, Where, waits, read_failed, capture_stopped, copy,
}

-- What the Writer goes through when reads are made and their packets handed on.
unfoldable pub events : List Read → List Event
events [] = []
events (failed others ∷ rs) = others ++ events rs
events (under_way others ∷ rs) = others ++ events rs
events (got others ci bytes now ∷ rs) = others ++ packet ci bytes now ∷ events rs

-- Where the loop is after the reads that it made, by the last of them. `stopped` is the Writer's.
pub data Ending : Where → Bool → List Read → List Read → Type 0 where
  refused_packet :
      (xs : List Read) (others : List Event) (ci : CaptureInfo) (bytes : Bytes) (now : ℕ)
      {rest : List Read}
      → Ending capture_stopped true (xs ++ got others ci bytes now ∷ []) rest
  bad_read :
      (xs : List Read) (others : List Event) {stopped : Bool} {rest : List Read}
      → Ending read_failed stopped (xs ++ failed others ∷ []) rest
  in_read :
      (xs : List Read) (others : List Event) {stopped : Bool} {rest : List Read}
      → Ending waits stopped (xs ++ under_way others ∷ []) rest
  no_more : (xs : List Read) {stopped : Bool} → Ending waits stopped xs []

module _ (p : Pcapgo) where
  -- What one packet does.
  data Handed (w : Writer) (ci : CaptureInfo) (bytes : Bytes) (now : ℕ) : Type 0 where
    refused :
        (w' : Writer) (s : List Stop)
        → step p w (packet ci bytes now) ≡ some (w', s)
        → write_packet p w ci bytes now ≡ some (w', err_stopped, s)
        → InCap w'
        → w'.stopped ≡ true
        → Handed w ci bytes now
    taken :
        (w' : Writer) (s : List Stop) (es : List WriteError)
        → step p w (packet ci bytes now) ≡ some (w', s)
        → write_packet p w ci bytes now ≡ some (w', wrote es, s)
        → InCap w'
        → w'.stopped ≡ false
        → Handed w ci bytes now

  -- How the copying of these reads goes on from a Writer.
  record Outcome (w : Writer) (rs : List Read) : Type 0 where
    pub w' : Writer
    pub at : Where
    pub made : List Read
    pub rest : List Read
    pub stops_told : List Stop
    pub out : copy p w rs ≡ some (w', at, rest)
    pub split : rs ≡ made ++ rest
    pub ran : run p w (events made) ≡ some (w', stops_told)
    pub ending : Ending at w'.stopped made rest
