-- ===== src/Proxy/Splice/Tests.antt =====
-- A connection where the client sends two bytes and is done, and the server then answers with three.
use Prim.Native.Nat.{ℕ}
use go_e_bpf_proxy.Base.{◌+◌, ◌*◌, ◌≤◌, ◌≡◌, refl, ◌⊎◌, true, [], ◌∷◌}
use go_e_bpf_proxy.Proxy.Splice.{
  Splice, Kinds, eof, read_last, write_last, half_close, done, wait, close_upstream, close_client,
  copy_to_client, copy_to_upstream, returned, Reach, start, later,
}
use go_e_bpf_proxy.Proxy.Splice.Piped.{Piped, Reach-Piped}
use go_e_bpf_proxy.Proxy.Splice.Closed.{Released, Reach-Released}
use go_e_bpf_proxy.Proxy.Splice.Ends.{CanStep, Reach-ends}

abbrev both_tcp : Kinds
both_tcp = record { client_tcp = true; upstream_tcp = true }

abbrev Done : ℕ → ℕ → Type 0
Done n r = (s : Splice) × Reach both_tcp n r s

-- The request: two bytes with io.EOF, half-closed while the answer has not begun.
abbrev request : Done 4 1
request = (
  _,
  later
      (later
        (later (later start (copy_to_upstream (read_last (1 ∷ 2 ∷ []) {e = eof})))
          (copy_to_upstream write_last))
        (copy_to_upstream (half_close refl)))
      (copy_to_upstream done),
)

-- The answer, which comes after the client has ended its side, and the two closes.
abbrev whole : Done 11 2
whole = (
  _,
  later
      (later
        (later
          (later
            (later
              (later (later request.1 (copy_to_client (read_last (7 ∷ 8 ∷ 9 ∷ []) {e = eof})))
                (copy_to_client write_last))
              (copy_to_client (half_close refl)))
            (copy_to_client done))
          (wait refl refl refl))
        (close_upstream refl))
      (close_client refl),
)

-- The client's side is over, and what the server sends is still relayed.
answered_late : whole.0.to_client.given ≡ 7 ∷ 8 ∷ 9 ∷ []
answered_late = refl

Reach-Piped_example :
    Piped true whole.0.to_client whole.0.at_client
    × Piped true whole.0.to_upstream whole.0.at_upstream
Reach-Piped_example = Reach-Piped whole.1

Reach-Released_example : Released whole.0
Reach-Released_example = Reach-Released whole.1

Reach-ends_example : (11 ≤ 2 * 2 + 9) × ((whole.0.waiter ≡ returned) ⊎ CanStep both_tcp whole.0)
Reach-ends_example = Reach-ends whole.1
