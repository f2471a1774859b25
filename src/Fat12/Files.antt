-- ===== src/Fat12/Files.antt =====
-- The operations of src/fat12.c that walk the root directory: `fat12_init`, `fat12_open`,
-- `fat12_create`, `fat12_update_size`, `fat12_delete` and `write_fat_table`. A function returns
-- the state that it leaves, on its error paths too; `none` and `false` are the return value -1.
pub mod Writing
pub mod Delete
use sant_os.Prelude.{
  ℕ, zero, suc, ◌+◌, ◌-◌, ◌*◌, ◌/◌, Mem, store, Bool, true, false, ◌||◌, Option, none, some, List,
  [], ◌∷◌, ◌==◌, if◌then◌else◌, bit_and, nonzero, u8,
}
use sant_os.Fat12.Table.{load16, set_fat_entry, find_free_cluster}
use sant_os.Fat12.Chain.{free_chain}
use sant_os.Fat12.Name.{Name83, to_83, format_filename}
use sant_os.Fat12.Disk.{Disk}
use sant_os.Fat12.Dir.{
  entry_at, attributes, first_cluster_low, file_size, deleted_cast, deleted_char, Scan, found,
  ended, next_sector, scan, free_entry, store32, fill_entry,
}

-- The fields of `fat12_boot_sector_t` that the driver reads.
pub record BootSector : Type 0 where
  pub bytes_per_sector : ℕ
  pub sectors_per_cluster : ℕ
  pub reserved_sectors : ℕ
  pub num_fats : ℕ
  pub root_entries : ℕ
  pub sectors_per_fat : ℕ

-- The packed structure at its offsets in the sector.
unfoldable pub parse_boot_sector : Mem → BootSector
unfolding load16
parse_boot_sector buf = record {
  bytes_per_sector = load16 buf 11;
  sectors_per_cluster = buf 13;
  reserved_sectors = load16 buf 14;
  num_fats = buf 16;
  root_entries = load16 buf 17;
  sectors_per_fat = load16 buf 22;
}

-- `fat12_file_t`
pub record File : Type 0 where
  pub name : List ℕ
  pub size : ℕ
  pub first_cluster : ℕ
  pub is_directory : Bool

-- The driver's variables, and the drive that it talks to.
pub record Fs (Drive : Type 0) : Type 0 where
  pub boot_sector : BootSector
  pub fat_start_sector : ℕ
  pub root_dir_start_sector : ℕ
  pub data_start_sector : ℕ
  pub fat_buffer : Mem
  pub drive : Drive

-- A directory entry that a search has found: its sector, its index, and the sector's bytes.
pub record Slot : Type 0 where
  pub sector : ℕ
  pub idx : ℕ
  pub buffer : Mem

-- More rounds than a table has entries.
abbrev pub chain_fuel : ℕ
chain_fuel = 4096

-- `for (int k = 0; k < 8; k++) name[k] = entries[idx].filename[k];`
unfoldable pub read_chars : ℕ → Mem → ℕ → List ℕ
read_chars zero buf i = []
read_chars (suc n) buf i = buf i ∷ read_chars n buf (i + 1)

unfoldable pub entry_name : Mem → ℕ → Name83
unfolding read_chars
entry_name buf idx = record {
  stem = read_chars 8 buf (entry_at idx);
  ext = read_chars 3 buf (entry_at idx + 8);
}

-- `((boot_sector.root_entries * 32) + 511) / 512`
abbrev pub root_sectors : BootSector → ℕ
root_sectors b = (b.root_entries * 32 + 511) / 512

module _ (D : Disk) where
  abbrev pub Driver : Type 0
  Driver = Fs D.Drive

  -- The loop over the sectors of the root directory, with the scan of each as `look`.
  unfoldable pub find_root : (Mem → Scan) → Driver → ℕ → ℕ → Driver × Option Slot
  find_root look fs zero sector = (fs, none)
  find_root look fs (suc left) sector =
      let (d, got) = D.read_sectors fs.drive (fs.root_dir_start_sector + sector) 1 in
      let fs' : Driver = record fs { drive = d } in
      elim got [
        | none ↦ (fs', none)
        | some buf ↦ elim (look buf) [
          | found i ↦ (fs', some (record { sector = sector; idx = i; buffer = buf }))
          | ended ↦ (fs', none)
          | next_sector ↦ find_root look fs' left (sector + 1)
        ]
      ]

  -- `fdc_write_sectors(root_dir_start_sector + sector, 1, buffer)`
  unfoldable pub write_dir : Driver → ℕ → Mem → Driver × Bool
  write_dir fs sector buf =
      let (d, ok) = D.write_sectors fs.drive (fs.root_dir_start_sector + sector) 1 buf in
      (record fs { drive = d }, ok)

  unfoldable pub write_fat_from : Driver → ℕ → ℕ → Driver × Bool
  write_fat_from fs zero i = (fs, true)
  write_fat_from fs (suc left) i =
      let (d, ok) =
        D.write_sectors fs.drive (fs.fat_start_sector + i) 1 (λ j. fs.fat_buffer (i * 512 + j)) in
      let fs' : Driver = record fs { drive = d } in
      elim ok [ true ↦ write_fat_from fs' left (i + 1) | false ↦ (fs', false) ]

  unfoldable pub write_fat_table : Driver → Driver × Bool
  unfolding write_fat_from
  write_fat_table fs = write_fat_from fs fs.boot_sector.sectors_per_fat 0

  -- `fat12_init` with the boot sector's bytes. `sectors_per_fat` is cut to the `uint8_t` that
  -- `fdc_read_sectors` takes. A failed read of the table is not said to change `fat_buffer`.
  unfoldable pub init_from : Driver → Mem → Driver × Bool
  unfolding parse_boot_sector
  init_from fs buf =
      let b = parse_boot_sector buf in
      let root = b.reserved_sectors + b.num_fats * b.sectors_per_fat in
      let dir = (b.root_entries * 32 + (b.bytes_per_sector - 1)) / b.bytes_per_sector in
      let (d, got) = D.read_sectors fs.drive b.reserved_sectors (u8 b.sectors_per_fat) in
      let fs' : Driver = record {
        boot_sector = b;
        fat_start_sector = b.reserved_sectors;
        root_dir_start_sector = root;
        data_start_sector = root + dir;
        fat_buffer = fs.fat_buffer;
        drive = d;
      } in
      if b.bytes_per_sector == 0 || b.sectors_per_cluster == 0
      then (record fs { boot_sector = b }, false)
      else elim got [ none ↦ (fs', false) | some table ↦ (record fs' { fat_buffer = table }, true) ]

  unfoldable pub fat12_init : Driver → Driver × Bool
  unfolding init_from
  fat12_init fs =
      let (d, got) = D.read_sectors fs.drive 0 1 in
      elim got [
        | none ↦ (record fs { drive = d }, false)
        | some buf ↦ init_from (record fs { drive = d }) buf
      ]

  unfoldable pub fat12_open : Driver → List ℕ → Driver × Option File
  unfolding find_root
  fat12_open fs filename =
      let name = to_83 filename in
      let (fs', slot) = find_root (scan deleted_char name) fs (root_sectors fs.boot_sector) 0 in
      elim slot [
        | none ↦ (fs', none)
        | some s ↦ (
          fs',
          some (record {
            name = format_filename (entry_name s.buffer s.idx);
            size = file_size s.buffer s.idx;
            first_cluster = first_cluster_low s.buffer s.idx;
            is_directory = nonzero (bit_and (attributes s.buffer s.idx) 0x10);
          }),
        )
      ]

  unfoldable pub fat12_update_size : Driver → List ℕ → ℕ → Driver × Bool
  unfolding find_root write_dir
  fat12_update_size fs filename new_size =
      let name = to_83 filename in
      let (fs', slot) = find_root (scan deleted_cast name) fs (root_sectors fs.boot_sector) 0 in
      elim slot [
        | none ↦ (fs', false)
        | some s ↦ write_dir fs' s.sector (store32 s.buffer (entry_at s.idx + 28) new_size)
      ]

  -- What `fat12_create` does once it has an entry: the cluster, the table, then the directory.
  unfoldable pub create_at : Driver → Name83 → Slot → Driver × Option File
  unfolding write_fat_table write_dir
  create_at fs name s =
      let cluster = find_free_cluster fs.fat_buffer in
      if cluster == 0
      then (fs, none)
      else let linked : Driver = record fs {
        fat_buffer = set_fat_entry fs.fat_buffer cluster 0xFFF;
      } in
        let (fs1, table_ok) = write_fat_table linked in
        let (fs2, dir_ok) = write_dir fs1 s.sector (fill_entry name cluster s.buffer s.idx) in
        let made : File = record {
          name = name.stem;
          size = 0;
          first_cluster = cluster;
          is_directory = false;
        } in
        if table_ok then (if dir_ok then (fs2, some made) else (fs2, none)) else (fs1, none)

  unfoldable pub fat12_create : Driver → List ℕ → Driver × Option File
  unfolding find_root create_at
  fat12_create fs filename =
      let (fs', slot) = find_root free_entry fs (root_sectors fs.boot_sector) 0 in
      elim slot [ none ↦ (fs', none) | some s ↦ create_at fs' (to_83 filename) s ]

  -- What `fat12_delete` does with the entry that it has found. The first case is a loop that has
  -- used up its fuel.
  unfoldable pub delete_at : Driver → Slot → Driver × Bool
  unfolding write_fat_table write_dir
  delete_at fs s = elim (free_chain chain_fuel fs.fat_buffer (first_cluster_low s.buffer s.idx)) [
    | none ↦ (fs, false)
    | some table ↦
        let (fs1, table_ok) = write_fat_table (record fs { fat_buffer = table }) in
        let (fs2, dir_ok) = write_dir fs1 s.sector (store s.buffer (entry_at s.idx) 0xE5) in
        if table_ok then (fs2, dir_ok) else (fs1, false)
  ]

  unfoldable pub fat12_delete : Driver → List ℕ → Driver × Bool
  unfolding find_root delete_at
  fat12_delete fs filename =
      let name = to_83 filename in
      let (fs', slot) = find_root (scan deleted_cast name) fs (root_sectors fs.boot_sector) 0 in
      elim slot [ none ↦ (fs', false) | some s ↦ delete_at fs' s ]
