-- ===== src/Disk/Writing.antt =====
-- What `disk_write` of kern/disk.c sends to the controller.
use creeks_old.Base.{
  ℕ, ◌+◌, ◌-◌, ◌*◌, ◌/◌, ◌%◌, ◌^◌, ◌<◌, ◌≡◌, List, get_or, length, ◌==◌, ◌&&◌, leb, if◌then◌else◌,
}
use creeks_old.Libc.{Bytes}
use creeks_old.Disk.{Controller}
use creeks_old.Disk.Transfer.{sector, selected, sectors, block_count}

-- The byte number `j` of the words sent.
unfoldable pub sent : List ℕ → ℕ → ℕ
sent words j =
    if j % 2 == 0 then get_or words (j / 2) 0 % 0x100 else get_or words (j / 2) 0 / 2 ^ 8 % 0x100

-- What is sent for the byte number `j`: the char in front of it is sign-extended over it.
abbrev pub sent_for : Bytes → ℕ → ℕ
sent_for buf j = if (j % 2 == 1) && leb 0x80 (buf (j - 1)) then 0xFF else buf j

-- What is asked of the controller and its words.
abbrev Writes : (drive offset buf count : ℕ) → Bytes → Controller × List ℕ → Type 0
Writes drive offset buf count m (c, words) =
    (sector c ≡ offset / 512)
    × ((selected c ≡ drive)
        × ((sectors c ≡ block_count offset count)
            × ((2 * length words ≡ 512 * sectors c)
                × ((k : ℕ)
                    → k < count
                    → sent words (offset + k - 512 * sector c)
                      ≡ sent_for (λ i. m (buf + i)) (offset % 512 + k)))))
