-- ===== src/Fat16.antt =====
-- The FAT16 driver, src/fat16.c, over the disk that it reads sectors from. The entries of a
-- directory, their names and the loop over the entries of a sector are those of src/fat12.c.
pub mod Reading
mod Tests
use sant_os.Prelude.{
  ℕ, zero, suc, ◌+◌, ◌-◌, ◌*◌, ◌/◌, ◌^◌, Mem, Bool, true, false, ◌&&◌, ◌||◌, not, Option, none,
  some, List, [], ◌∷◌, ◌++◌, ◌==◌, ltb, leb, if◌then◌else◌, bit_and, nonzero, u16, u32, take,
}
use Prim.Native.Nat.{min}
use sant_os.Fat12.Table.{load16}
use sant_os.Fat12.Name.{Name83, pad, format_filename}
use sant_os.Fat12.Disk.{Disk}
use sant_os.Fat12.Dir.{
  first_char, attributes, first_cluster_low, file_size, deleted_char, Scan, found, ended,
  next_sector, scan,
}
use sant_os.Fat12.Files.{BootSector, File, Slot, entry_name}
use sant_os.Fat12.Listing.{Line, line}
use sant_os.Fat12.Data.{put_bytes}

pub record Volume (Drive : Type 0) : Type 0 where
  pub boot_sector : BootSector
  pub fat_start_sector : ℕ
  pub root_dir_start_sector : ℕ
  pub data_start_sector : ℕ
  pub drive : Drive

unfoldable pub boot_fields : Mem → BootSector
boot_fields buf = record {
  bytes_per_sector = load16 buf 11;
  sectors_per_cluster = buf 13;
  reserved_sectors = load16 buf 14;
  num_fats = buf 16;
  root_entries = load16 buf 17;
  sectors_per_fat = load16 buf 22;
}

unfoldable pub is_fat : Mem → Bool
is_fat buf = (buf 54 == b'F') && ((buf 55 == b'A') && (buf 56 == b'T'))

-- The name without a change of case, and what follows it.
unfoldable pub take_stem : ℕ → List ℕ → List ℕ × List ℕ
take_stem zero s = ([], s)
take_stem (suc room) [] = ([], [])
take_stem (suc room) (c ∷ s) =
    let rest = take_stem room s in if c == b'.' then ([], c ∷ s) else (c ∷ rest.0, rest.1)

unfoldable pub take_ext : List ℕ → List ℕ
take_ext [] = []
take_ext (c ∷ s) = if c == b'.' then take 3 s else []

unfoldable pub name_83 : List ℕ → Name83
name_83 filename =
    let word = take_stem 8 filename in record { stem = pad 8 word.0; ext = pad 3 (take_ext word.1) }

-- An entry that the listing passes over. The second test covers the first.
unfoldable pub passes_over : Mem → ℕ → Bool
passes_over buf idx =
    deleted_char (first_char buf idx)
    || (nonzero (bit_and (attributes buf idx) 0x08) || nonzero (bit_and (attributes buf idx) 0x0F))

-- The lines of a sector, and whether the directory ends in it. `hidden` is the test that the
-- driver has for an entry that it passes over.
unfoldable pub list_entries : (Mem → ℕ → Bool) → Mem → ℕ → ℕ → List Line × Bool
list_entries hidden buf zero idx = ([], false)
list_entries hidden buf (suc left) idx =
    let rest = list_entries hidden buf left (idx + 1) in
    if first_char buf idx == 0
    then ([], true)
    else if hidden buf idx
    then rest
    else (line buf idx ∷ rest.0, rest.1)

module _ (D : Disk) where
  abbrev pub Fat16 : Type 0
  Fat16 = Volume D.Drive

  -- `none` is a division by the bytes of a sector where these are 0.
  unfoldable pub init_volume : Fat16 → Mem → Option (Fat16 × Bool)
  init_volume fs buf =
      let b = boot_fields buf in
      let root = u32 (b.reserved_sectors + b.num_fats * b.sectors_per_fat) in
      let sectors = (b.root_entries * 32 + (b.bytes_per_sector - 1)) / b.bytes_per_sector in
      let read : Fat16 = record fs { boot_sector = b } in
      if not (is_fat buf)
      then some (read, false)
      else if b.bytes_per_sector == 0
      then none
      else some (
        record read {
          fat_start_sector = b.reserved_sectors;
          root_dir_start_sector = root;
          data_start_sector = u32 (root + sectors);
        },
        true,
      )

  unfoldable pub fat16_init : Fat16 → Option (Fat16 × Bool)
  fat16_init fs =
      let (d, got) = D.read_sectors fs.drive 0 1 in
      let fs' : Fat16 = record fs { drive = d } in
      elim got [ none ↦ some (fs', false) | some buf ↦ init_volume fs' buf ]

  abbrev pub total_sectors : Fat16 → ℕ
  total_sectors fs = (fs.boot_sector.root_entries * 32 + 511) / 512

  unfoldable pub list_root_from : ℕ → ℕ → Fat16 → Fat16 × List Line × Bool
  list_root_from zero sector fs = (fs, [], true)
  list_root_from (suc left) sector fs =
      let (d, got) = D.read_sectors fs.drive (fs.root_dir_start_sector + sector) 1 in
      let fs' : Fat16 = record fs { drive = d } in
      let rest = list_root_from left (sector + 1) fs' in
      elim got [
        | none ↦ (fs', [], false)
        | some buf ↦
            let here = list_entries passes_over buf 16 0 in
            if here.1 then (fs', here.0, true) else (rest.0, here.0 ++ rest.1, rest.2)
      ]

  -- The lines that are printed, and whether the call returns 0.
  unfoldable pub fat16_list_root : Fat16 → Fat16 × List Line × Bool
  fat16_list_root fs = list_root_from (total_sectors fs) 0 fs

  unfoldable pub search_root : Name83 → ℕ → ℕ → Fat16 → Fat16 × Option Slot
  search_root name zero sector fs = (fs, none)
  search_root name (suc left) sector fs =
      let (d, got) = D.read_sectors fs.drive (fs.root_dir_start_sector + sector) 1 in
      let fs' : Fat16 = record fs { drive = d } in
      elim got [
        | none ↦ (fs', none)
        | some buf ↦ elim (scan deleted_char name buf) [
          | found i ↦ (fs', some (record { sector = sector; idx = i; buffer = buf }))
          | ended ↦ (fs', none)
          | next_sector ↦ search_root name left (sector + 1) fs'
        ]
      ]

  unfoldable pub fat16_open : Fat16 → List ℕ → Fat16 × Option File
  fat16_open fs filename =
      let (fs', slot) = search_root (name_83 filename) (total_sectors fs) 0 fs in
      elim slot [
        | none ↦ (fs', none)
        | some s ↦ (
          fs',
          some (record {
            name = format_filename (entry_name s.buffer s.idx);
            size = file_size s.buffer s.idx;
            first_cluster = first_cluster_low s.buffer s.idx;
            is_directory = nonzero (bit_and (attributes s.buffer s.idx) 0x10);
          }),
        )
      ]

  -- The first sector of a cluster, in words of 32 bits.
  unfoldable pub first_sector : Fat16 → ℕ → ℕ
  first_sector fs cluster =
      u32 (fs.data_start_sector + u32 (cluster + 2 ^ 32 - 2) * fs.boot_sector.sectors_per_cluster)

  -- The loop over the sectors of a cluster that begins at `sector`, from the one numbered `i` on, of
  -- which `left` are left.
  unfoldable pub read_cluster : ℕ → ℕ → ℕ → D.Drive → ℕ → Mem → ℕ → D.Drive × Option (Mem × ℕ)
  read_cluster zero i sector d size buffer bytes_read = (d, some (buffer, bytes_read))
  read_cluster (suc left) i sector d size buffer bytes_read =
      let (d', got) = D.read_sectors d (u32 (sector + i)) 1 in
      let to_copy = min 512 (size - bytes_read) in
      elim (ltb bytes_read size) [
        | false ↦ (d, some (buffer, bytes_read))
        | true ↦ elim got [
          | none ↦ (d', none)
          | some read ↦
              read_cluster left (i + 1) sector d' size (put_bytes buffer bytes_read to_copy read)
                (bytes_read + to_copy)
        ]
      ]

  -- The loop goes round once, since it sets the cluster to the end of the chain. The count is told
  -- before its conversion to `int`. The buffer of a failed read is left out.
  unfoldable pub fat16_read : Fat16 → File → Mem → ℕ → Fat16 × Option (Mem × ℕ)
  fat16_read fs file buffer size =
      let limit = if ltb file.size size then file.size else size in
      let cluster = u16 file.first_cluster in
      let (d, read) =
        read_cluster fs.boot_sector.sectors_per_cluster 0 (first_sector fs cluster) fs.drive limit
          buffer 0 in
      if ltb 0 limit && ltb cluster 0xFFF8
      then (record fs { drive = d }, read)
      else (fs, some (buffer, 0))
