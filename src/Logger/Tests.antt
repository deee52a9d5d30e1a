-- ===== src/Logger/Tests.antt =====
-- A limiter of two records in ten nanoseconds, with a window that started at 95, and a key.
use Prim.Native.Nat.{ℕ}
use go_e_bpf_proxy.Base.{
  ◌-◌, ◌*◌, ◌≤◌, ◌≡◌, refl, true, false, List, [], ◌∷◌, arith, ◌++◌, inl, inr, codes, length, pos,
  pos_part, Bytes,
}
use go_e_bpf_proxy.Keylog.Nss.{label_name, exporter_secret}
use go_e_bpf_proxy.Logger.Redact.{is_sensitive}
use go_e_bpf_proxy.Logger.Redact.Labels.{
  IsSpelling, done, separator_left, separator_right, equal_byte, lower_right,
  is_sensitive-label_name, client_random_is_sensitive,
}
use go_e_bpf_proxy.Logger.Attrs.{
  Instant, int_kind, composite, prints, mute, Opaque, object, text, integer, any, Attrs, no_attrs,
  leaf, group, handled,
}
use go_e_bpf_proxy.Logger.Attrs.Hidden.{ended, same, secret_key, content, grouped, handled-Alike}
use go_e_bpf_proxy.Logger.Limit.{Limiter, LogCall, logs}
use go_e_bpf_proxy.Logger.Limit.Rate.{logs-Within}

abbrev limiter : Limiter
limiter = record { interval = pos 10; burst = pos 2; start = 95; kept = 1; dropped = 4 }

abbrev at : ℕ → LogCall
at n = record { enabled = true; now = n }

abbrev calls : List LogCall
calls =
    at 100 ∷ at 101 ∷ record { enabled = false; now = 102 } ∷ at 105 ∷ at 106 ∷ at 107 ∷ at 109 ∷ []

logs-Within_example :
    (length (logs limiter calls).1 ≤ 2 * pos_part limiter.burst)
    × (100 ≤ limiter.start → length (logs limiter calls).1 ≤ pos_part limiter.burst - limiter.kept)
logs-Within_example = logs-Within 100 10 limiter calls refl (omega arith)

-- "exporter-Secret7"
spelled : IsSpelling (label_name exporter_secret) (codes "exporterSecret-")
spelled = lower_right b'E' (omega arith) (
    lower_right b'X' (omega arith) (
      lower_right b'P' (omega arith) (
        lower_right b'O' (omega arith) (
          lower_right b'R' (omega arith) (
            lower_right b'T' (omega arith) (
              lower_right b'E' (omega arith) (
                lower_right b'R' (omega arith) (
                  separator_left b'_' (inl refl) (
                    equal_byte b'S' (
                      lower_right b'E' (omega arith) (
                        lower_right b'C' (omega arith) (
                          lower_right b'R' (omega arith) (
                            lower_right b'E' (omega arith) (
                              lower_right b'T' (omega arith)
                                (separator_right b'-' (inr refl) done)))))))))))))))

is_sensitive-label_name_example : is_sensitive (codes "exporterSecret-" ++ codes "7") ≡ true
is_sensitive-label_name_example =
    is_sensitive-label_name exporter_secret (codes "exporterSecret-") (codes "7") spelled
      (omega arith)

-- A group with a client random and a map in it.
abbrev attrs : Bytes → Bytes → Attrs
attrs secret json = leaf (codes "lines") (integer (pos 3)) (
    group (codes "conn")
      (leaf (codes "client_random") (text secret)
        (leaf (codes "headers") (any (object mute (composite json))) no_attrs))
      no_attrs)

abbrev noon : Instant
noon = record { nanoseconds = 43_200; offset = pos 3600 }

abbrev info_level : Opaque
info_level = object (prints (codes "INFO")) (int_kind (pos 0))

handled-Alike_example :
    handled noon info_level (codes "m") (attrs (codes "aa") (codes "{}"))
    ≡ handled noon info_level (codes "m") (attrs (codes "bbb") (codes "{1}"))
handled-Alike_example =
    handled-Alike noon info_level (codes "m") (attrs (codes "aa") (codes "{}"))
      (attrs (codes "bbb") (codes "{1}"))
      (same (codes "lines") (integer (pos 3)) (
        grouped (codes "conn")
          (secret_key (codes "client_random") (text (codes "aa")) (text (codes "bbb"))
            client_random_is_sensitive (content (codes "headers") (codes "{}") (codes "{1}") ended))
          ended))
