-- ===== src/Keylog/Server/Guarded.antt =====
-- What a server of the keylog leaves open, and where it listens.
use Prim.Native.Nat.{ℕ}
use go_e_bpf_proxy.Base.{
  suc, ◌/◌, ◌%◌, ◌<◌, ◌≡◌, refl, Bool, true, false, List, [], ◌∷◌, ◌++◌, arith, Bool-cases, inl,
  inr,
}
use go_e_bpf_proxy.Keylog.Server.{
  DirStat, mode, no_dir, stat_failed, has_bit, is_exposed, check_socket_dir, Effect, dir_made,
  stale_removed, listened, socket_chmodded, keylog_opened, listener_closed, keylog_closed,
  new_socket_server, close,
}

-- How often a listener is opened and closed, and the keylog.
abbrev pub listens : List Effect → ℕ
listens [] = 0
listens (listened ∷ es) = suc (listens es)
listens (_ ∷ es) = listens es

abbrev pub listener_closes : List Effect → ℕ
listener_closes [] = 0
listener_closes (listener_closed ∷ es) = suc (listener_closes es)
listener_closes (_ ∷ es) = listener_closes es

abbrev pub keylog_opens : List Effect → ℕ
keylog_opens [] = 0
keylog_opens (keylog_opened ∷ es) = suc (keylog_opens es)
keylog_opens (_ ∷ es) = keylog_opens es

abbrev pub keylog_closes : List Effect → ℕ
keylog_closes [] = 0
keylog_closes (keylog_closed ∷ es) = suc (keylog_closes es)
keylog_closes (_ ∷ es) = keylog_closes es

abbrev pub IsBalanced : List Effect → Type 0
IsBalanced es = (listens es ≡ listener_closes es) × (keylog_opens es ≡ keylog_closes es)

-- A directory that neither its group nor others may read or write: at most the search bit is set
-- in the octal digit of each.
abbrev pub IsPrivate : DirStat → Type 0
IsPrivate (mode perm) = (perm / 8 % 8 < 2) × (perm % 8 < 2)
IsPrivate no_dir = Unit {0}
IsPrivate stat_failed = ⊥

exposed-IsPrivate : (perm : ℕ) → is_exposed perm ≡ false → (perm / 8 % 8 < 2) × (perm % 8 < 2)
unfolding is_exposed has_bit
exposed-IsPrivate perm h = (ground arith, ground arith)

allowed-IsPrivate : (stat : DirStat) → check_socket_dir stat ≡ true → IsPrivate stat
unfolding check_socket_dir
allowed-IsPrivate (mode perm) h = exposed-IsPrivate perm (ground arith)
allowed-IsPrivate no_dir h = tt
allowed-IsPrivate stat_failed h = cc

module _ (fails : Effect → Bool) where
  -- As NewSocketServer may end.
  pub data Served (stat : DirStat) : List Effect × Bool → Type 0 where
    gave_up :
        (es : List Effect)
        → listens es ≡ listener_closes es
        → keylog_opens es ≡ 0
        → keylog_closes es ≡ 0
        → (0 < listens es → IsPrivate stat)
        → Served stat (es, false)
    serves :
        (es : List Effect)
        → listens es ≡ 1
        → keylog_opens es ≡ 1
        → IsBalanced (es ++ close)
        → IsPrivate stat
        → Served stat (es, true)

  -- NewSocketServer fails, and closes a listener that it opened and opens no keylog; or it succeeds,
  -- has opened one listener and one keylog, and Close closes both. Either way it listens only if the
  -- directory, unless it is gone, lets neither its group nor others read or write.
  pub new_socket_server-Served : (stat : DirStat) → Served stat (new_socket_server fails stat)
  unfolding new_socket_server close
  new_socket_server-Served stat = elim (Bool-cases (fails dir_made)) [
    | inl f ↦ rw f (gave_up [] refl refl refl (λ lt. absurd (omega arith)))
    | inr a ↦ elim (Bool-cases (check_socket_dir stat)) [
      | inr shut ↦
          rw (a, shut) (gave_up (dir_made ∷ []) refl refl refl (λ lt. absurd (omega arith)))
      | inl ok ↦ elim (Bool-cases (fails stale_removed)) [
        | inl f ↦
            rw (a, ok, f) (gave_up (dir_made ∷ []) refl refl refl (λ lt. allowed-IsPrivate stat ok))
        | inr b ↦ elim (Bool-cases (fails listened)) [
          | inl f ↦ rw (a, ok, b, f) (gave_up _ refl refl refl (λ lt. allowed-IsPrivate stat ok))
          | inr c ↦ elim (Bool-cases (fails socket_chmodded)) [
            | inl f ↦
                rw (a, ok, b, c, f) (gave_up _ refl refl refl (λ lt. allowed-IsPrivate stat ok))
            | inr d ↦ elim (Bool-cases (fails keylog_opened)) [
              | inl f ↦
                  rw (a, ok, b, c, d, f)
                    (gave_up _ refl refl refl (λ lt. allowed-IsPrivate stat ok))
              | inr e ↦
                  rw (a, ok, b, c, d, e)
                    (serves _ refl refl (refl, refl) (allowed-IsPrivate stat ok))
            ]
          ]
        ]
      ]
    ]
  ]
