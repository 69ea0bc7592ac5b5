-- ===== src/Disk/Tests.antt =====
-- Witnesses for kern/disk.c, with a controller of two small drives.
use creeks_old.Base.{ℕ, ◌+◌, ◌*◌, ◌%◌, ◌≡◌, refl, arith}
use creeks_old.Libc.{Bytes}
use creeks_old.Disk.{Port, disk_read}
use creeks_old.Disk.Transfer.{sector, selected, IsController, disk_read_lem}

abbrev pub drives : ℕ → Bytes
drives drive a = (a + drive) % 0x100

abbrev pub drives_port : Port
drives_port c idx =
    drives (selected c) (512 * sector c + 2 * idx)
    + 0x100 * drives (selected c) (512 * sector c + 2 * idx + 1)

pub drives_port-IsController : IsController drives_port drives
drives_port-IsController = record { bytes = λ drive a. omega arith; words = λ c idx h. refl }

disk_read_example : disk_read drives_port 1 1000 0x5000 100 (λ i. 7) 0x5010 ≡ 0xF9
disk_read_example =
    disk_read_lem drives_port drives drives_port-IsController 1 1000 0x5000 100 (λ i. 7) 0x5010
      (omega arith) (omega arith) (omega arith)
