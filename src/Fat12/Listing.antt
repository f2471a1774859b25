-- ===== src/Fat12/Listing.antt =====
-- Directories in src/fat12.c: `fat12_list_root`, `fat12_list_dir` and `fat12_find_entry`. The
-- walk along the clusters of a subdirectory is on fuel, and an outer `none` is a walk that has
-- used it up.
pub mod Shown
use sant_os.Prelude.{
  ℕ, zero, suc, ◌+◌, ◌-◌, ◌*◌, ◌/◌, Mem, Bool, true, false, ◌&&◌, ◌||◌, not, Option, none, some,
  List, [], ◌∷◌, ◌++◌, ◌==◌, ltb, leb, if◌then◌else◌, bit_and, nonzero,
}
use sant_os.Fat12.Table.{get_fat_entry}
use sant_os.Fat12.Chain.{in_chain}
use sant_os.Fat12.Name.{Name83, to_83, format_filename}
use sant_os.Fat12.Disk.{Disk}
use sant_os.Fat12.Dir.{
  first_char, attributes, first_cluster_low, file_size, deleted_char, Scan, found, ended,
  next_sector, scan,
}
use sant_os.Fat12.Data.{cluster_sector}
use sant_os.Fat12.Files.{Fs, Driver, BootSector, Slot, entry_name, root_sectors, find_root}

-- A line that is printed: a name, and a size unless it is a directory.
pub record Line : Type 0 where
  pub name : List ℕ
  pub size : Option ℕ

unfoldable pub line : Mem → ℕ → Line
line buf idx = record {
  name = format_filename (entry_name buf idx);
  size = if nonzero (bit_and (attributes buf idx) 0x10) then none else some (file_size buf idx);
}

-- Is an entry passed over? `dots` is whether names that begin with a dot are.
unfoldable pub is_hidden : Bool → Mem → ℕ → Bool
is_hidden dots buf idx =
    deleted_char (first_char buf idx)
    || nonzero (bit_and (attributes buf idx) 0x08)
    || attributes buf idx == 0x0F
    || (dots && first_char buf idx == b'.')

-- The loop over the entries of a sector: the lines, and whether the directory has ended.
unfoldable pub list_sector : Bool → Mem → ℕ → ℕ → List Line × Bool
list_sector dots buf zero idx = ([], false)
list_sector dots buf (suc left) idx =
    let (lines, stop) = list_sector dots buf left (idx + 1) in
    if first_char buf idx == 0
    then ([], true)
    else if is_hidden dots buf idx
    then (lines, stop)
    else (line buf idx ∷ lines, stop)

-- What a search of the sectors of one cluster gives.
pub data Walk : Type 0 where
  hit : Slot → Walk
  missing : Walk
  go_on : Walk

module _ (D : Disk) where
  -- The sectors from `sector` on: the lines printed, and `none` for a failed read, else whether the
  -- directory has ended.
  unfoldable pub list_sectors : Bool → ℕ → ℕ → Driver D → Driver D × List Line × Option Bool
  list_sectors dots zero sector fs = (fs, [], some false)
  list_sectors dots (suc left) sector fs =
      let (d, got) = D.read_sectors fs.drive sector 1 in
      let fs' : Driver D = record fs { drive = d } in
      elim got [
        | none ↦ (fs', [], none)
        | some buf ↦
            let (lines, stop) = list_sector dots buf 16 0 in
            let (fs2, later, end) = list_sectors dots left (sector + 1) fs' in
            elim stop [ true ↦ (fs', lines, some true) | false ↦ (fs2, lines ++ later, end) ]
      ]

  -- `true` is the return value 0.
  unfoldable pub fat12_list_root : Driver D → Driver D × List Line × Bool
  fat12_list_root fs =
      let (fs', lines, end) =
        list_sectors false (root_sectors fs.boot_sector) fs.root_dir_start_sector fs in
      elim end [ none ↦ (fs', lines, false) | some stop ↦ (fs', lines, true) ]

  unfoldable pub list_chain : ℕ → Driver D → ℕ → Option (Driver D × List Line × Bool)
  list_chain zero fs cluster = none
  list_chain (suc fuel) fs cluster =
      let (fs1, lines, end) =
        list_sectors true fs.boot_sector.sectors_per_cluster (cluster_sector fs cluster) fs in
      let rest = list_chain fuel fs1 (get_fat_entry fs1.fat_buffer cluster) in
      if in_chain cluster
      then elim end [
        | none ↦ some (fs1, lines, false)
        | some true ↦ some (fs1, lines, true)
        | some false ↦ elim rest [
          | none ↦ none
          | some r ↦ let (fs2, later, ok) = r in some (fs2, lines ++ later, ok)
        ]
      ]
      else some (fs, [], true)

  unfoldable pub fat12_list_dir : ℕ → Driver D → ℕ → Option (Driver D × List Line × Bool)
  fat12_list_dir fuel fs cluster =
      if cluster == 0 then some (fat12_list_root fs) else list_chain fuel fs cluster

  unfoldable pub find_sectors : Name83 → ℕ → ℕ → Driver D → Driver D × Walk
  find_sectors name zero sector fs = (fs, go_on)
  find_sectors name (suc left) sector fs =
      let (d, got) = D.read_sectors fs.drive sector 1 in
      let fs' : Driver D = record fs { drive = d } in
      elim got [
        | none ↦ (fs', missing)
        | some buf ↦ elim (scan deleted_char name buf) [
          | found i ↦ (fs', hit (record { sector = sector; idx = i; buffer = buf }))
          | ended ↦ (fs', missing)
          | next_sector ↦ find_sectors name left (sector + 1) fs'
        ]
      ]

  unfoldable pub find_chain : Name83 → ℕ → Driver D → ℕ → Option (Driver D × Option Slot)
  find_chain name zero fs cluster = none
  find_chain name (suc fuel) fs cluster =
      let (fs1, walk) =
        find_sectors name fs.boot_sector.sectors_per_cluster (cluster_sector fs cluster) fs in
      let rest = find_chain name fuel fs1 (get_fat_entry fs1.fat_buffer cluster) in
      if in_chain cluster
      then elim walk [ hit s ↦ some (fs1, some s) | missing ↦ some (fs1, none) | go_on ↦ rest ]
      else some (fs, none)

  -- The cluster and whether it is a directory; 0 and no answer to that if nothing is found.
  unfoldable pub entry_found : Option Slot → ℕ × Option Bool
  entry_found none = (0, none)
  entry_found (some s) =
      (first_cluster_low s.buffer s.idx, some (nonzero (bit_and (attributes s.buffer s.idx) 0x10)))

  unfoldable pub fat12_find_entry :
      ℕ → Driver D → ℕ → List ℕ → Option (Driver D × (ℕ × Option Bool))
  fat12_find_entry fuel fs dir_cluster name =
      let (fs1, slot) =
        find_root D (scan deleted_char (to_83 name)) fs (root_sectors fs.boot_sector) 0 in
      if dir_cluster == 0
      then some (fs1, entry_found slot)
      else elim (find_chain (to_83 name) fuel fs dir_cluster) [
        | none ↦ none
        | some r ↦ some (r.0, entry_found r.1)
      ]
