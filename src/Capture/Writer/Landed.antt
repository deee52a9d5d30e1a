-- ===== src/Capture/Writer/Landed.antt =====
-- Which calls of the Writer of internal/capture/pcapng.go on pcapgo and the file succeed. writeHeld
-- takes a packet or line from memory whether its call succeeds or not.
use go_e_bpf_proxy.Base.{
  ◌≡◌, refl, ap, ◌∙◌, ◌⊎◌, inl, inr, Bool, true, false, ◌||◌, List, [], ◌∷◌, ◌++◌, Bytes,
  Bool-cases, if◌then◌else◌,
}
use go_e_bpf_proxy.Capture.Packet.{Call, Pcapgo}
use go_e_bpf_proxy.Capture.Writer.Content.{epbs, dsb_bytes}

module _ (p : Pcapgo) where
  -- The calls that succeed, of calls behind `earlier` ones.
  unfoldable pub landed : List Call → List Call → List Call
  landed earlier [] = []
  landed earlier (c ∷ cs) =
      let rest = landed (earlier ++ c ∷ []) cs in if p.fails earlier c then rest else c ∷ rest

  unfoldable pub any_fails : List Call → List Call → Bool
  any_fails earlier [] = false
  any_fails earlier (c ∷ cs) = p.fails earlier c || any_fails (earlier ++ c ∷ []) cs

  landed_all : (earlier cs : List Call) → (any_fails earlier cs ≡ true) ⊎ (landed earlier cs ≡ cs)
  unfolding landed any_fails
  landed_all earlier [] = inr refl
  landed_all earlier (c ∷ cs) = elim (Bool-cases (p.fails earlier c)) [
    | inl fails ↦ inl (rw fails refl)
    | inr lands ↦ elim (landed_all (earlier ++ c ∷ []) cs) [
      | inl later ↦ inl (rw (lands, later) refl)
      | inr all ↦ inr (rw lands (ap (◌∷◌ c) all))
    ]
  ]

  -- A file none of whose calls failed holds the packets and secrets that it was handed.
  abbrev pub Landed : List Call → List Call → Bytes → Type 0
  Landed cs pkts lines =
      (any_fails [] cs ≡ true) ⊎ ((epbs (landed [] cs) ≡ pkts) × (dsb_bytes (landed [] cs) ≡ lines))

  pub handed-Landed :
      (cs pkts : List Call) (lines : Bytes)
      → epbs cs ≡ pkts
      → dsb_bytes cs ≡ lines
      → Landed cs pkts lines
  handed-Landed cs pkts lines e d = elim (landed_all [] cs) [
    | inl fails ↦ inl fails
    | inr all ↦ inr (ap epbs all ∙ e, ap dsb_bytes all ∙ d)
  ]
