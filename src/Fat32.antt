-- ===== src/Fat32.antt =====
-- The FAT32 driver, src/fat32.c. The disk is a parameter, as for FAT16. The walks along a chain of
-- clusters are on fuel, and an outer `none` is a walk that has used it up.
pub mod Chain
mod Tests
use sant_os.Prelude.{
  ℕ, zero, suc, ◌+◌, ◌-◌, ◌*◌, ◌/◌, ◌%◌, ◌^◌, Mem, Bool, true, false, ◌&&◌, ◌||◌, not, Option, none,
  some, List, [], ◌∷◌, ◌++◌, ◌==◌, ltb, leb, if◌then◌else◌, bit_and, nonzero, u16, u32,
}
use mathlib.Core.Option.{map}
use sant_os.Fat12.Table.{load16}
use sant_os.Fat12.Name.{Name83, format_filename}
use sant_os.Fat12.Disk.{Disk}
use sant_os.Fat12.Dir.{
  entry_at, load32, first_char, attributes, first_cluster_low, file_size, deleted_cast, Scan, found,
  ended, next_sector, scan,
}
use sant_os.Fat12.Files.{File, Slot, entry_name}
use sant_os.Fat12.Listing.{Line, Walk, hit, missing, go_on}
use sant_os.Fat16.{name_83, list_entries, read_cluster}

pub record Volume (Drive : Type 0) : Type 0 where
  pub sectors_per_cluster : ℕ
  pub fat_start_sector : ℕ
  pub data_start_sector : ℕ
  pub root_cluster : ℕ
  pub drive : Drive

unfoldable pub is_fat : Mem → Bool
is_fat buf = (buf 82 == b'F') && ((buf 83 == b'A') && (buf 84 == b'T'))

unfoldable pub passes_over : Mem → ℕ → Bool
passes_over buf idx =
    deleted_cast (first_char buf idx)
    || (nonzero (bit_and (attributes buf idx) 0x08) || attributes buf idx == 0x0F)

-- Is a cluster one that the loops go on with?
unfoldable pub in_chain : ℕ → Bool
in_chain cluster = leb 2 cluster && ltb cluster 0x0FFFFFF8

-- `first_cluster_high << 16 | first_cluster_low`, whose bits do not overlap.
unfoldable pub entry_cluster : Mem → ℕ → ℕ
entry_cluster buf idx = load16 buf (entry_at idx + 20) * 2 ^ 16 + first_cluster_low buf idx

-- Where the table has the entry of a cluster, and its 28 bits.
abbrev pub entry_sector : ℕ → ℕ → ℕ
entry_sector fat_start cluster = u32 (fat_start + u32 (cluster * 4) / 512)

abbrev pub entry_value : Mem → ℕ → ℕ
entry_value buf cluster = load32 buf (u32 (cluster * 4) % 512) % 2 ^ 28

module _ (D : Disk) where
  abbrev pub Fat32 : Type 0
  Fat32 = Volume D.Drive

  unfoldable pub get_fat_entry : Fat32 → ℕ → Fat32 × ℕ
  get_fat_entry fs cluster =
      let (d, got) = D.read_sectors fs.drive (entry_sector fs.fat_start_sector cluster) 1 in
      (record fs { drive = d }, elim got [ none ↦ 0x0FFFFFFF | some buf ↦ entry_value buf cluster ])

  unfoldable pub fat32_init : Fat32 → Fat32 × Bool
  fat32_init fs =
      let (d, got) = D.read_sectors fs.drive 0 1 in
      let fs' : Fat32 = record fs { drive = d } in
      elim got [
        | none ↦ (fs', false)
        | some buf ↦
            let read : Fat32 = record fs' { sectors_per_cluster = buf 13 } in
            let reserved = load16 buf 14 in
            if not (is_fat buf) then (read, false) else (
              record read {
                fat_start_sector = reserved;
                data_start_sector = u32 (reserved + u32 (buf 16 * load32 buf 36));
                root_cluster = load32 buf 44;
              },
              true,
            )
      ]

  unfoldable pub first_sector : Fat32 → ℕ → ℕ
  first_sector fs cluster =
      u32 (fs.data_start_sector + u32 (cluster + 2 ^ 32 - 2) * fs.sectors_per_cluster)

  -- The sectors of a cluster of the root directory: the lines, and `none` for a failed read, else
  -- whether the directory has ended.
  unfoldable pub list_cluster : ℕ → ℕ → ℕ → D.Drive → D.Drive × List Line × Option Bool
  list_cluster zero s sector d = (d, [], some false)
  list_cluster (suc left) s sector d =
      let (d', got) = D.read_sectors d (u32 (sector + s)) 1 in
      let rest = list_cluster left (s + 1) sector d' in
      elim got [
        | none ↦ (d', [], none)
        | some buf ↦
            let here = list_entries passes_over buf 16 0 in
            if here.1 then (d', here.0, some true) else (rest.0, here.0 ++ rest.1, rest.2)
      ]

  -- The lines that are printed, and whether the call returns 0.
  unfoldable pub list_chain : ℕ → ℕ → Fat32 → Option (Fat32 × List Line × Bool)
  list_chain zero cluster fs = none
  list_chain (suc fuel) cluster fs =
      let (d, lines, end) =
        list_cluster fs.sectors_per_cluster 0 (first_sector fs cluster) fs.drive in
      let fs' : Fat32 = record fs { drive = d } in
      let (fs2, next) = get_fat_entry fs' cluster in
      elim (in_chain cluster) [
        | false ↦ some (fs, [], true)
        | true ↦ elim end [
          | none ↦ some (fs', lines, false)
          | some stop ↦ elim stop [
            | true ↦ some (fs', lines, true)
            | false ↦ map (λ r. (r.0, lines ++ r.1, r.2)) (list_chain fuel next fs2)
          ]
        ]
      ]

  unfoldable pub fat32_list_root : ℕ → Fat32 → Option (Fat32 × List Line × Bool)
  fat32_list_root fuel fs = list_chain fuel fs.root_cluster fs

  -- The search in a cluster. A failed read and the end of the directory both return -1.
  unfoldable pub search_cluster : Name83 → ℕ → ℕ → ℕ → D.Drive → D.Drive × Walk
  search_cluster name zero s sector d = (d, go_on)
  search_cluster name (suc left) s sector d =
      let (d', got) = D.read_sectors d (u32 (sector + s)) 1 in
      elim got [
        | none ↦ (d', missing)
        | some buf ↦ elim (scan deleted_cast name buf) [
          | found i ↦ (d', hit (record { sector = sector + s; idx = i; buffer = buf }))
          | ended ↦ (d', missing)
          | next_sector ↦ search_cluster name left (s + 1) sector d'
        ]
      ]

  unfoldable pub search_chain : Name83 → ℕ → ℕ → Fat32 → Option (Fat32 × Option Slot)
  search_chain name zero cluster fs = none
  search_chain name (suc fuel) cluster fs =
      let (d, walk) =
        search_cluster name fs.sectors_per_cluster 0 (first_sector fs cluster) fs.drive in
      let fs' : Fat32 = record fs { drive = d } in
      let (fs2, next) = get_fat_entry fs' cluster in
      elim (in_chain cluster) [
        | false ↦ some (fs, none)
        | true ↦ elim walk [
          | hit s ↦ some (fs', some s)
          | missing ↦ some (fs', none)
          | go_on ↦ search_chain name fuel next fs2
        ]
      ]

  unfoldable pub open_slot : Fat32 × Option Slot → Fat32 × Option File
  open_slot (fs, none) = (fs, none)
  open_slot (fs, some s) = (
    fs,
    some (record {
      name = format_filename (entry_name s.buffer s.idx);
      size = file_size s.buffer s.idx;
      first_cluster = entry_cluster s.buffer s.idx;
      is_directory = nonzero (bit_and (attributes s.buffer s.idx) 0x10);
    }),
  )

  unfoldable pub fat32_open : ℕ → Fat32 → List ℕ → Option (Fat32 × Option File)
  fat32_open fuel fs filename =
      map open_slot (search_chain (name_83 filename) fuel fs.root_cluster fs)

  unfoldable pub read_chain : ℕ → ℕ → Fat32 → ℕ → Mem → ℕ → Option (Fat32 × Option (Mem × ℕ))
  read_chain zero cluster fs size buffer bytes_read = none
  read_chain (suc fuel) cluster fs size buffer bytes_read =
      let (d, got) =
        read_cluster D fs.sectors_per_cluster 0 (first_sector fs cluster) fs.drive size buffer
          bytes_read in
      let fs' : Fat32 = record fs { drive = d } in
      let (fs2, next) = get_fat_entry fs' cluster in
      elim (ltb bytes_read size && in_chain cluster) [
        | false ↦ some (fs, some (buffer, bytes_read))
        | true ↦ elim got [
          | none ↦ some (fs', none)
          | some r ↦ read_chain fuel next fs2 size r.0 r.1
        ]
      ]

  -- The count is told before its conversion to `int`. The buffer of a failed read is left out.
  unfoldable pub fat32_read : ℕ → Fat32 → File → Mem → ℕ → Option (Fat32 × Option (Mem × ℕ))
  fat32_read fuel fs file buffer size =
      let limit = if ltb file.size size then file.size else size in
      read_chain fuel file.first_cluster fs limit buffer 0
