-- ===== src/Capture/Retention/Tests.antt =====
-- Retention on a directory with an old capture of 50 bytes, this run's and another file.
use mathlib.Core.List.{Memᴰ}
use go_e_bpf_proxy.Base.{
  ◌+◌, ◌-◌, ◌^◌, ◌≤◌, ◌<◌, ◌≡◌, ◌↔◌, refl, sym, true, false, some, List, [], ◌∷◌, arith, min,
  sum_of, Bytes, codes, pos, pos_part, ◌≤ℤ◌,
}
use go_e_bpf_proxy.Capture.Writer.{header_size, link_type}
use go_e_bpf_proxy.Capture.Writer.Tests.{disk, options, history, final, ran, disk-SizesAsDocumented}
use go_e_bpf_proxy.Capture.Retention.{
  Info, Entry, listed, Retention, removed, join, digits_then, literal_then, owned, is_run,
  finished_info, finished_entries, finished, total_from, owned_bytes, room, enforce,
}
use go_e_bpf_proxy.Capture.Retention.Owned.{IsOwnedName, owned_iff}
use go_e_bpf_proxy.Capture.Retention.Expiry.{IsFinished, enforce_iff}
use go_e_bpf_proxy.Capture.Retention.Total.{file_bytes, captures-MaxBytes}

abbrev stem : Bytes
stem = codes "dump"

abbrev ext : Bytes
ext = codes ".pcapng"

abbrev old_name : Bytes
old_name = codes "dump-7-2.pcapng"

abbrev pub retention : Retention
retention = record {
  dir = codes "/var";
  stem = stem;
  ext = ext;
  run = some (codes "/var/dump-9.pcapng");
  max_bytes = pos 250;
  max_age = pos 100;
  retain = false;
}

abbrev pub entries : List Entry
entries =
    record { name = old_name; info = some (record { regular = true; size = 50; mod_time = 3 }) }
    ∷ record {
      name = codes "dump-9.pcapng";
      info = some (record { regular = true; size = 9; mod_time = 4 });
    }
    ∷ record {
      name = codes "notes";
      info = some (record { regular = true; size = 5; mod_time = 0 });
    }
    ∷ []

owned_iff_example : (owned stem ext old_name ≡ true) ↔ IsOwnedName stem ext old_name
owned_iff_example = owned_iff stem ext old_name

enforce_iff_example :
    Memᴰ
      (codes "/var/dump-7-2.pcapng")
      (enforce retention (listed entries) 200 (λ path. removed)).0.0
    ↔ ((pos 1 ≤ℤ retention.max_age)
        × (e : Entry) × (i : Info) × Memᴰ e entries
        × IsFinished retention e i
        × (codes "/var/dump-7-2.pcapng" ≡ join retention.dir e.name)
        × (pos_part retention.max_age < min (200 - i.mod_time) (2 ^ 63 - 1)))
enforce_iff_example =
    enforce_iff retention entries 200 (λ path. removed) (codes "/var/dump-7-2.pcapng")

pub one_finished : sum_of file_bytes (finished retention (listed entries)).0 ≡ 50
unfolding finished finished_entries finished_info is_run join owned digits_then literal_then
one_finished = refl

pub left_room : (room retention (listed entries)).0 ≡ pos 200
unfolding room owned_bytes total_from finished finished_entries finished_info is_run join owned
    digits_then literal_then
left_room = refl

header : header_size disk options ≡ 136
unfolding header_size
header = refl

captures-MaxBytes_example :
    disk.file_size (link_type disk options) final.calls
      + sum_of file_bytes (finished retention (listed entries)).0
    ≤ 249 + 1
captures-MaxBytes_example =
    captures-MaxBytes retention (listed entries) 249 disk [] options history disk-SizesAsDocumented
      refl (omega arith) (omega (arith, one_finished)) (sym left_room) (omega (arith, header))
      (rw header (omega arith)) (omega arith) ran
