-- ===== src/Capture/Retention/Total.antt =====
-- MaxBytes, the room, and what all captures of a template hold together.
use Prim.Native.Nat.{ℕ}
use go_e_bpf_proxy.Base.{
  ◌+◌, ◌-◌, ◌%◌, ◌^◌, ◌≤◌, ◌<◌, ◌≡◌, ap, ◌∙◌, subst, false, some, List, [], ◌∷◌, arith, sum_of, All,
  Bytes, ℤ, pos, pos_part, ◌≤ℤ◌, signed64, add64, leb_ℤ, sub_ℕ, u64_mod,
}
use go_e_bpf_proxy.Capture.Packet.{Options, Stop, Pcapgo}
use go_e_bpf_proxy.Capture.Writer.{Writer, new_writer, link_type, header_size}
use go_e_bpf_proxy.Capture.Writer.Step.{Event, event_bytes, event_room, run}
use go_e_bpf_proxy.Capture.Writer.Room.{SizesAsDocumented, run-file_size}
use go_e_bpf_proxy.Capture.Retention.{
  Listing, Retention, RetentionFile, finished, total_from, owned_bytes, room,
}

abbrev pub file_bytes : RetentionFile → ℕ
file_bytes f = f.size

total_from_lem :
    (total : ℕ) (fs : List RetentionFile)
    → total + sum_of file_bytes fs < 2 ^ 63
    → total_from total fs ≡ total + sum_of file_bytes fs
unfolding total_from
total_from_lem total [] h = omega arith
total_from_lem total (f ∷ fs) h =
    let small : add64 total f.size ≡ total + f.size = omega arith in
    rw small (total_from_lem (total + f.size) fs (omega arith) ∙ omega arith)

int64_sub :
    (max total : ℕ)
    → max < 2 ^ 63
    → total < 2 ^ 63
    → signed64 ((max + (u64_mod - total)) % u64_mod) ≡ sub_ℕ max total
int64_sub max total h k = ground arith

-- The room is what the finished captures leave of MaxBytes: their difference, which may be
-- negative, if they hold less than 2 ^ 63 bytes.
pub room_lem :
    (r : Retention) (l : Listing) (max : ℕ)
    → r.max_bytes ≡ pos (max + 1)
    → max + 1 < 2 ^ 63
    → sum_of file_bytes (finished r l).0 < 2 ^ 63
    → (room r l).0 ≡ sub_ℕ (max + 1) (sum_of file_bytes (finished r l).0)
unfolding room owned_bytes
room_lem r l max is_max small total =
    rw (limited, from_zero, known)
      (int64_sub (max + 1) (sum_of file_bytes (finished r l).0) small total)
  where
    limited : leb_ℤ r.max_bytes (pos 0) ≡ false
    limited = ap (λ n. leb_ℤ n (pos 0)) is_max ∙ ground arith

    known : pos_part r.max_bytes ≡ max + 1
    known = ap pos_part is_max

    from_zero : total_from 0 (finished r l).0 ≡ sum_of file_bytes (finished r l).0
    from_zero = total_from_lem 0 (finished r l).0 (omega arith) ∙ omega arith

room_left :
    (m t h : ℕ) (room : ℤ)
    → room ≡ sub_ℕ m t
    → 0 < h
    → pos h ≤ℤ room
    → (pos_part room + t ≤ m) × (pos 1 ≤ℤ room) × (h ≤ pos_part room)
room_left m t h room e head fits =
    let fits' : pos h ≤ℤ sub_ℕ m t = subst (λ n. pos h ≤ℤ n) e fits in rw e (left fits')
  where
    left :
        pos h ≤ℤ sub_ℕ m t
        → (pos_part (sub_ℕ m t) + t ≤ m) × (pos 1 ≤ℤ sub_ℕ m t) × (h ≤ pos_part (sub_ℕ m t))
    left k = ground arith

-- The captures of a template stay within MaxBytes together: if this run's capture is created, as
-- Start does it, with the room that the finished captures leave and only where the headers fit in
-- that, and no later room is larger, then after any packets and lines the file of this run and the
-- captures that were finished at its start hold at most MaxBytes. Sizes are pcapgo's; MaxBytes is
-- below 2 ^ 60, the finished captures hold less than 2 ^ 63 bytes, and no packet or line is longer
-- than 2 ^ 30 bytes.
pub captures-MaxBytes :
    (r : Retention) (l : Listing) (max : ℕ) (p : Pcapgo) (path : Bytes) (o : Options)
    (es : List Event) {w : Writer} {stops : List Stop}
    → SizesAsDocumented p (link_type p o)
    → r.max_bytes ≡ pos (max + 1)
    → max + 1 < 2 ^ 60
    → sum_of file_bytes (finished r l).0 < 2 ^ 63
    → o.room ≡ (room r l).0
    → 0 < header_size p o
    → pos (header_size p o) ≤ℤ o.room
    → All (λ e. (event_bytes e ≤ 2 ^ 30) × (event_room e ≤ pos_part o.room)) es
    → run p (new_writer p path o) es ≡ some (w, stops)
    → p.file_size (link_type p o) w.calls + sum_of file_bytes (finished r l).0 ≤ max + 1
captures-MaxBytes r l max p path o es sizes is_max small total is_room head fits events h =
    let left = is_room ∙ room_lem r l max is_max (omega arith) total in
    let (within, some_room, header) =
      room_left (max + 1) (sum_of file_bytes (finished r l).0) (header_size p o) o.room left head
        fits in
    let bound =
      run-file_size p path o (pos_part o.room) es sizes (omega arith) some_room (omega arith) header
        events h in
    omega arith
