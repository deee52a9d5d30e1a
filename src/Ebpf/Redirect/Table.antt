-- ===== src/Ebpf/Redirect/Table.antt =====
-- A map that drops nothing, for the tests of the eBPF programs.
use go_e_bpf_proxy.Base.{◌≡◌, refl, sym, ◌∙◌, Option, none, some}
use go_e_bpf_proxy.Ebpf.Redirect.{LruHash}
use go_e_bpf_proxy.Ebpf.Redirect.History.{IsLruHash}
use go_e_bpf_proxy.Ebpf.Redirect.Join.{KeepsOthers}

-- One value if a decision is yes, the other if it is no.
abbrev pub chosen : {A V : Type 0} → Dec A → V → V → V
chosen (yes a) v w = v
chosen (no na) v w = w

chosen_yes : {A V : Type 0} (d : Dec A) (v w : V) → A → chosen d v w ≡ v
chosen_yes (yes a) v w h = refl
chosen_yes (no na) v w h = absurd (na h)

chosen_no : {A V : Type 0} (d : Dec A) (v w : V) → ¬ A → chosen d v w ≡ w
chosen_no (yes a) v w h = absurd (h a)
chosen_no (no na) v w h = refl

module _ {K V : Type 0} (d : Discrete K) where
  abbrev pub table : LruHash K V
  table = record {
    Map = K → Option V;
    lookup = λ m. m;
    update = λ m k v j. chosen (d j k) (some v) (m j);
    delete = λ m k j. chosen (d j k) none (m j);
  }

  pub table-IsLruHash : IsLruHash table
  table-IsLruHash = record {
    lookup-update_self = λ m k v. chosen_yes (d k k) (some v) (m k) refl;
    lookup-update_other = λ m k v j ne h. sym (chosen_no (d j k) (some v) (m j) ne) ∙ h;
    lookup-delete_self = λ m k. chosen_yes (d k k) none (m k) refl;
    lookup-delete_other = λ m k j. chosen_no (d j k) none (m j);
  }

  pub table-KeepsOthers : KeepsOthers table
  table-KeepsOthers m k v j = chosen_no (d j k) (some v) (m j)
