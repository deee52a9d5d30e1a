-- ===== src/Capture/Writer/History.antt =====
-- The capture against the history of what the writer was handed.
use go_e_bpf_proxy.Base.{
  subst, ◌≡◌, refl, sym, ap, ◌∙◌, ◌⊎◌, inl, inr, true, false, some, List, [], ◌∷◌, ◌++◌, arith,
  append_assoc, append-nil, map, if◌then◌else◌, if_elim, drop-length, Bytes, ℤ,
}
use go_e_bpf_proxy.Capture.Packet.{Options, Stop, WriteError, Pcapgo}
use go_e_bpf_proxy.Capture.Writer.{Writer, new_writer, notify_stop, close, close_file}
use go_e_bpf_proxy.Capture.Writer.Step.{
  Event, packet, secret, room, ticks, closes, run, run_cons, packet_call, write_held_lem,
}
use go_e_bpf_proxy.Capture.Writer.Content.{
  epbs, dsb_bytes, terminate, terminate-append, packets, secrets, Kept, Kept-refl, Kept-trans,
  close-Kept,
}
use go_e_bpf_proxy.Capture.Writer.Landed.{Landed, handed-Landed}
use go_e_bpf_proxy.Capture.Writer.Effect.{
  offered, offered_lines, took, halted, ignored, step-Effect,
}

offered-cons : (e : Event) (es : List Event) → offered (e ∷ es) ≡ offered (e ∷ []) ++ offered es
unfolding offered
offered-cons (packet ci bytes now) es = refl
offered-cons (secret l) es = refl
offered-cons (room n) es = refl
offered-cons (ticks now) es = refl
offered-cons closes es = refl

offered_lines-cons :
    (e : Event) (es : List Event)
    → offered_lines (e ∷ es) ≡ offered_lines (e ∷ []) ++ offered_lines es
unfolding offered_lines
offered_lines-cons (packet ci bytes now) es = refl
offered_lines-cons (secret []) es = refl
offered_lines-cons (secret (b ∷ bs)) es = refl
offered_lines-cons (room n) es = refl
offered_lines-cons (ticks now) es = refl
offered_lines-cons closes es = refl

-- The capture took all events up to some point, and no packet or line from there on. While it is
-- not stopped that point is the end. When it stops it calls OnStop once, with the bytes admitted.
pub record Prefix (w : Writer) (es : List Event) (w' : Writer) (calls : List Stop) : Type 0 where
  pub before : List Event
  pub after : List Event
  pub split : es ≡ before ++ after
  pub packets_of : packets w' ≡ packets w ++ offered before
  pub secrets_of : secrets w' ≡ secrets w ++ terminate (offered_lines before)
  pub ending :
      ((w'.stopped ≡ false) × (after ≡ []) × (calls ≡ []))
      ⊎ ((w'.stopped ≡ true)
          × (n : ℤ) × (calls
              ≡ notify_stop w (some (record { path = w.path; bytes = w'.admitted; room = n }))))

Prefix-cons :
    (w w1 : Writer) (e : Event) (es : List Event) {w' : Writer} {calls : List Stop}
    → packets w1 ≡ packets w ++ offered (e ∷ [])
    → secrets w1 ≡ secrets w ++ terminate (offered_lines (e ∷ []))
    → w1.path ≡ w.path
    → w1.on_stop ≡ w.on_stop
    → Prefix w1 es w' calls
    → Prefix w (e ∷ es) w' calls
Prefix-cons w w1 e es {w' = w'} pk sk path on_stop pre = record {
  before = e ∷ pre.before;
  after = pre.after;
  split = ap (◌∷◌ e) pre.split;
  packets_of = rw (pre.packets_of, pk, offered-cons e pre.before, append_assoc);
  secrets_of =
      rw (pre.secrets_of, sk, offered_lines-cons e pre.before, terminate-append, append_assoc);
  ending = elim pre.ending [
    | inl running ↦ inl running
    | inr (on, n, called) ↦ inr (
      on,
      n,
      called ∙ (λ i.
          if on_stop i then record { path = path i; bytes = w'.admitted; room = n } ∷ [] else []),
    )
  ];
}

Prefix-halted :
    (w w1 : Writer) (es : List Event) {w' : Writer}
    → w1 ≡ record w { stopped = true }
    → Kept w1 w'
    → Prefix w es w'
        (notify_stop w (some (record { path = w.path; bytes = w.admitted; room = w.room })))
unfolding packets secrets offered offered_lines terminate
Prefix-halted w w1 es form k = record {
  before = [];
  after = es;
  split = refl;
  packets_of = k.packets_of ∙ rw form (sym (append-nil (packets w)));
  secrets_of = k.secrets_of ∙ rw form (sym (append-nil (secrets w)));
  ending = inr (k.stopped ∙ rw form refl, w.room, rw (k.admitted, form) refl);
}

module _ (p : Pcapgo) where
  -- Capture stopped at its room stays stopped: whatever comes, the content, the count and the path
  -- stay, and OnStop is not called again.
  pub run-stopped :
      (w : Writer) (es : List Event) {w' : Writer} {calls : List Stop}
      → w.stopped ≡ true
      → run p w es ≡ some (w', calls)
      → Kept w w' × (calls ≡ [])
  unfolding run
  run-stopped w [] on h = (subst (Kept w) (ground arith) (Kept-refl w), ground arith)
  run-stopped w (e ∷ es) on h =
      let (w1, s1, s2, first, rest, eq) = run_cons p w e es h in
      elim (step-Effect p w e first) [
        | took off _ _ _ _ _ _ ↦ absurd (cc)
        | halted off _ _ ↦ absurd (cc)
        | ignored _ k none_called ↦
            let more = run-stopped w1 es (k.stopped ∙ on) rest in
            (Kept-trans k more.0, rw (eq, none_called, more.1))
      ]

  -- Whatever steps a running capture takes, it was handed exactly the packets and lines of a prefix of
  -- its history, in the order in which they came.
  pub run-Prefix :
      (w : Writer) (es : List Event) {w' : Writer} {calls : List Stop}
      → w.stopped ≡ false
      → run p w es ≡ some (w', calls)
      → Prefix w es w' calls
  unfolding run offered offered_lines terminate
  run-Prefix w [] {w' = w'} off h = record {
    before = [];
    after = [];
    split = refl;
    packets_of = ap packets same ∙ sym (append-nil (packets w));
    secrets_of = ap secrets same ∙ sym (append-nil (secrets w));
    ending = inl (ap (λ (v : Writer). v.stopped) same ∙ off, refl, ground arith);
  }
    where
      same : w' ≡ w
      same = ground arith
  run-Prefix w (e ∷ es) off h =
      let (w1, s1, s2, first, rest, eq) = run_cons p w e es h in
      elim (step-Effect p w e first) [
        | took _ off1 pk sk path on_stop called ↦
            rw (eq, called) (Prefix-cons w w1 e es pk sk path on_stop (run-Prefix w1 es off1 rest))
        | halted _ form called ↦
            let (k, none_called) = run-stopped w1 es (rw form) rest in
            rw (eq, called, none_called, append-nil) (Prefix-halted w w1 (e ∷ es) form k)
        | ignored on _ _ ↦ absurd (cc)
      ]

  close-emptied :
      (w : Writer) → w.closed ≡ false → ((close p w).0.held ≡ []) × ((close p w).0.pending ≡ [])
  unfolding close close_file
  close-emptied w off =
      if_elim (λ (res : Writer × List WriteError). (res.0.held ≡ []) × (res.0.pending ≡ []))
        w.closed (λ on. absurd (cc)) (λ _. rw (write_held_lem p) (drop-length w.held, refl))

  -- Close hands everything that was held or pending to pcapgo.
  pub close_complete :
      (w : Writer)
      → w.closed ≡ false
      → (epbs (close p w).0.calls ≡ packets w) × (dsb_bytes (close p w).0.calls ≡ secrets w)
  unfolding packets secrets terminate
  close_complete w off =
      let (held, pending) = close-emptied w off in
      let k = close-Kept p w in
      let cs = (close p w).0.calls in
      (
        sym (ap (λ hs. epbs cs ++ map packet_call hs) held ∙ append-nil (epbs cs)) ∙ k.packets_of,
        sym (ap (λ ls. dsb_bytes cs ++ terminate ls) pending ∙ append-nil (dsb_bytes cs))
            ∙ k.secrets_of,
      )

-- A run of a new writer, and a Close that finds the file still open: the packets handed to pcapgo
-- are those of a prefix of the history, in order, its secrets are that prefix's lines, each ended by
-- a newline, and the prefix is the whole history unless capture stopped at its room. So none is left
-- in memory, handed on twice or out of order, whatever calls fail; and unless a call on pcapgo or the
-- file fails, which loses what it was to write, the calls that succeed hold the same.
pub run-close :
    (p : Pcapgo) (path : Bytes) (o : Options) (es : List Event) {w : Writer} {calls : List Stop}
    → run p (new_writer p path o) es ≡ some (w, calls)
    → w.closed ≡ false
    → (before after : List Event) × (es ≡ before ++ after)
      × (epbs (close p w).0.calls ≡ offered before)
      × (dsb_bytes (close p w).0.calls ≡ terminate (offered_lines before))
      × Landed p (close p w).0.calls (offered before) (terminate (offered_lines before))
      × ((w.stopped ≡ true) ⊎ (after ≡ []))
unfolding new_writer packets secrets epbs dsb_bytes terminate
run-close p path o es {w = w} h open_file =
    let pre = run-Prefix p (new_writer p path o) es refl h in
    let done = close_complete p w open_file in
    (
      pre.before,
      pre.after,
      pre.split,
      done.0 ∙ pre.packets_of,
      done.1 ∙ pre.secrets_of,
      handed-Landed p _ _ _ (done.0 ∙ pre.packets_of) (done.1 ∙ pre.secrets_of),
      elim pre.ending [ inl (_, all, _) ↦ inr all | inr (on, _, _) ↦ inl on ],
    )

-- OnStop is called at most once in the life of a writer, and only when capture has stopped. What it
-- is told is the file's path and the bytes admitted, which no later packet or line adds to.
pub run-on_stop :
    (p : Pcapgo) (path : Bytes) (o : Options) (es : List Event) {w : Writer} {calls : List Stop}
    → run p (new_writer p path o) es ≡ some (w, calls)
    → ((w.stopped ≡ false) × (calls ≡ []))
      ⊎ ((w.stopped ≡ true)
          × (n : ℤ) × (calls ≡ (
              if o.on_stop then record { path = path; bytes = w.admitted; room = n } ∷ [] else [])))
unfolding new_writer
run-on_stop p path o es h =
    let pre = run-Prefix p (new_writer p path o) es refl h in
    elim pre.ending [ inl (off, _, none_called) ↦ inl (off, none_called) | inr end ↦ inr end ]
