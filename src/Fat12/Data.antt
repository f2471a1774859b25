-- ===== src/Fat12/Data.antt =====
-- File contents in src/fat12.c: `fat12_read` and `fat12_write`. Their loops over clusters are on
-- fuel, and an outer `none` is a loop that has used it up; an inner one is the return value -1. A
-- count is told before its conversion to `int`.
pub mod Bounded
use sant_os.Prelude.{
  ℕ, zero, suc, ◌+◌, ◌-◌, ◌*◌, ◌/◌, Mem, Bool, true, false, ◌&&◌, ◌||◌, Option, none, some, ◌==◌,
  ltb, leb, if◌then◌else◌, u8, u16, u32,
}
use Prim.Native.Nat.{min}
use sant_os.Fat12.Table.{get_fat_entry, set_fat_entry, find_free_cluster}
use sant_os.Fat12.Chain.{in_chain}
use sant_os.Fat12.Disk.{Disk}
use sant_os.Fat12.Files.{File, Fs, Driver, BootSector, write_fat_table}

-- The loop that extends a run of consecutive clusters, up to 250: its length, and the cluster
-- behind it. `left` is 250 less the length so far.
unfoldable pub extend_run : ℕ → Mem → ℕ → ℕ → ℕ → ℕ × ℕ
extend_run zero table current next run_len = (run_len, next)
extend_run (suc left) table current next run_len =
    let rest = extend_run left table next (get_fat_entry table next) (run_len + 1) in
    if next == current + 1 && in_chain next then rest else (run_len, next)

-- `n` bytes put at an index of a buffer.
abbrev pub put_bytes : Mem → ℕ → ℕ → Mem → Mem
put_bytes m base n src i = if leb base i && ltb i (base + n) then src (i - base) else m i

-- The sector at which a cluster begins.
abbrev pub cluster_sector : {Drive : Type 0} → Fs Drive → ℕ → ℕ
cluster_sector fs cluster =
    fs.data_start_sector + (cluster - 2) * fs.boot_sector.sectors_per_cluster

-- A full sector from the `to_write` bytes at `at`, with zeros behind.
abbrev pub sector_of : Mem → ℕ → ℕ → Mem
sector_of buffer at to_write j = if ltb j to_write then buffer (at + j) else 0

module _ (D : Disk) where
  unfoldable pub read_from : ℕ → Driver D → ℕ → Mem → ℕ → ℕ → Option (Driver D × Mem × Option ℕ)
  read_from zero fs size buffer bytes_read cluster = none
  read_from (suc fuel) fs size buffer bytes_read cluster =
      let (run_len, next) =
        extend_run 249 fs.fat_buffer cluster (get_fat_entry fs.fat_buffer cluster) 1 in
      let bytes_remaining = size - bytes_read in
      let needed_sectors = u32 (bytes_remaining + 511) / 512 in
      let total_sectors = min (run_len * fs.boot_sector.sectors_per_cluster) needed_sectors in
      let (d, got) = D.read_sectors fs.drive (cluster_sector fs cluster) (u8 total_sectors) in
      let fs' : Driver D = record fs { drive = d } in
      let read_amount = min (total_sectors * 512) bytes_remaining in
      if ltb bytes_read size && in_chain cluster
      then elim got [
        | none ↦ some (fs', buffer, none)
        | some sectors ↦
            read_from fuel fs' size (put_bytes buffer bytes_read (u8 total_sectors * 512) sectors)
              (bytes_read + read_amount) next
      ]
      else some (fs, buffer, some bytes_read)

  -- The buffer, also where a read has failed, and the count of bytes. What the call that failed has
  -- put into the buffer itself is left out.
  unfoldable pub fat12_read : ℕ → Driver D → File → Mem → ℕ → Option (Driver D × Mem × Option ℕ)
  fat12_read fuel fs file buffer size =
      read_from fuel fs (if ltb file.size size then file.size else size) buffer 0
        (u16 file.first_cluster)

  -- The sectors of one cluster; the count of bytes written after them.
  unfoldable pub write_cluster : ℕ → ℕ → Driver D → Mem → ℕ → ℕ → Driver D × Option ℕ
  write_cluster zero sector fs buffer size bytes_written = (fs, some bytes_written)
  write_cluster (suc left) sector fs buffer size bytes_written =
      let to_write = min (size - bytes_written) 512 in
      let (d, ok) = D.write_sectors fs.drive sector 1 (sector_of buffer bytes_written to_write) in
      let fs' : Driver D = record fs { drive = d } in
      if ltb bytes_written size
      then elim ok [
        | true ↦ write_cluster left (sector + 1) fs' buffer size (bytes_written + to_write)
        | false ↦ (fs', none)
      ]
      else (fs, some bytes_written)

  -- A new cluster behind the last one of a chain: `none` if there is none or the table cannot be
  -- written.
  unfoldable pub append_cluster : Driver D → ℕ → Driver D × Option ℕ
  append_cluster fs cluster =
      let new = find_free_cluster fs.fat_buffer in
      let linked : Driver D = record fs {
        fat_buffer = set_fat_entry (set_fat_entry fs.fat_buffer cluster new) new 0xFFF;
      } in
      let (fs', ok) = write_fat_table D linked in
      if new == 0 then (fs, none) else if ok then (fs', some new) else (fs', none)

  unfoldable pub next_cluster : Driver D → ℕ → ℕ → ℕ → Driver D × Option ℕ
  next_cluster fs cluster size bytes_written =
      let next = get_fat_entry fs.fat_buffer cluster in
      if ltb bytes_written size && (leb 0xFF8 next || next == 0)
      then append_cluster fs cluster
      else (fs, some next)

  unfoldable pub write_from : ℕ → Driver D → Mem → ℕ → ℕ → ℕ → Option (Driver D × Option ℕ)
  write_from zero fs buffer size bytes_written cluster = none
  write_from (suc fuel) fs buffer size bytes_written cluster =
      let (fs1, written) =
        write_cluster fs.boot_sector.sectors_per_cluster (cluster_sector fs cluster) fs buffer size
          bytes_written in
      if ltb bytes_written size && in_chain cluster
      then elim written [
        | none ↦ some (fs1, none)
        | some n ↦
            let (fs2, next) = next_cluster fs1 cluster size n in
            elim next [ none ↦ some (fs2, none) | some c ↦ write_from fuel fs2 buffer size n c ]
      ]
      else some (fs, some bytes_written)

  unfoldable pub fat12_write : ℕ → Driver D → File → Mem → ℕ → Option (Driver D × Option ℕ)
  fat12_write fuel fs file buffer size = write_from fuel fs buffer size 0 (u16 file.first_cluster)
