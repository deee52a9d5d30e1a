-- ===== src/Keylog/Append/Adds.antt =====
-- What one call of Append adds to a keylog that has a gate.
use go_e_bpf_proxy.Base.{
  ◌≡◌, refl, sym, inl, inr, Bool, true, false, none, List, [], ◌∷◌, ◌++◌, append-nil, arith, Bytes,
  if◌then◌else◌, Bool-cases, Option-cases,
}
use go_e_bpf_proxy.Keylog.Fields.{fields}
use go_e_bpf_proxy.Keylog.Nss.{validate_line}
use go_e_bpf_proxy.Keylog.Append.{KeylogWriter, key_of, contains, append_valid, append}

pub data Adds (k : KeylogWriter) (line : Bytes) (open_now : Bool) : KeylogWriter → Type 0 where
  left : Adds k line open_now k
  added :
      (k' : KeylogWriter)
      → open_now ≡ true
      → validate_line line ≡ none
      → k'.file ≡ k.file ++ line ∷ []
      → k'.sunk ≡ k.sunk ++ (if k.has_sink then line ∷ [] else [])
      → k'.gated ≡ k.gated
      → k'.has_sink ≡ k.has_sink
      → Adds k line open_now k'

if_append :
    (b : Bool) (ls : List Bytes) (l : Bytes)
    → (if b then ls ++ l ∷ [] else ls) ≡ ls ++ (if b then l ∷ [] else [])
if_append true ls l = refl
if_append false ls l = sym (append-nil ls)

-- If the gate is closed, nothing; otherwise perhaps the line, which is valid then.
pub append-Adds :
    (k : KeylogWriter) (line : Bytes) (open_now fails : Bool)
    → k.gated ≡ true
    → Adds k line open_now (append k line open_now fails).0
unfolding append append_valid
append-Adds k line open_now fails g = elim (Option-cases (validate_line line)) [
  | inr (e, bad) ↦ stays (ground arith)
  | inl good ↦ elim (Bool-cases open_now) [
    | inr shut ↦ stays (ground arith)
    | inl through ↦ elim (Bool-cases (contains k.seen (key_of (fields line)))) [
      | inl again ↦ stays (ground arith)
      | inr fresh ↦ elim (Bool-cases fails) [
        | inl failed ↦ stays (ground arith)
        | inr worked ↦
            let grown : (append k line open_now fails).0 ≡ with_line = ground arith in
            rw grown
              (added with_line through good refl (if_append k.has_sink k.sunk line) refl refl)
      ]
    ]
  ]
]
  where
    stays :
        (append k line open_now fails).0 ≡ k → Adds k line open_now (append k line open_now fails).0
    stays e = rw e left

    with_line : KeylogWriter
    with_line = record k {
      file = k.file ++ line ∷ [];
      seen = k.seen ++ key_of (fields line) ∷ [];
      sunk = if k.has_sink then k.sunk ++ line ∷ [] else k.sunk;
    }
