-- ===== src/Capture/Tests.antt =====
-- CreateRunCapture where the bare name and the first suffix are taken.
use go_e_bpf_proxy.Base.{Bytes, codes, if◌then◌else◌, bytes_eq, ◌||◌}
use go_e_bpf_proxy.Capture.RunName.{Created, opened, name_taken}

abbrev dir : Bytes
dir = codes "/var"

abbrev stem : Bytes
stem = codes "dump"

abbrev ext : Bytes
ext = codes ".pcapng"

abbrev creates : Bytes → Created
creates path =
    if bytes_eq path (codes "/var/dump-70.pcapng") || bytes_eq path (codes "/var/dump-70-1.pcapng")
    then name_taken
    else opened
