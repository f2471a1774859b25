-- ===== src/Fat12/Tests.antt =====
-- Tests of the model of src/fat12.c, and the theorems at concrete inputs.
use sant_os.Prelude.{
  ℕ, ◌+◌, ◌/◌, ◌%◌, Mem, store, true, List, [], ◌∷◌, some, ◌≡◌, refl, arith, if◌then◌else◌, ◌==◌,
  map,
}
use sant_os.Fat12.Table.{get_fat_entry, set_fat_entry, find_free_cluster}
use sant_os.Fat12.Table.Entries.{IsBytes}
use sant_os.Fat12.Table.Map.{get_fat_entry-set_fat_entry, set_fat_entry-IsBytes}
use sant_os.Fat12.Table.Free.{IsLeastFree, find_free_cluster-IsLeastFree}
use sant_os.Fat12.Chain.{free_chain, has, Chain}
use sant_os.Fat12.Chain.Length.{free_chain_total, used-le}
use sant_os.Fat12.Chain.Freed.{free_chain_lem}
use sant_os.Fat12.Name.{Name83, to_83, format_filename, upcase}
use sant_os.Fat12.Name.RoundTrip.{to_83-format_filename, to_83-map, padded}
use sant_os.Fat12.Dir.{
  scan, matches, deleted_cast, deleted_char, found, fill_entry, attributes, first_cluster_low,
  file_size,
}
use sant_os.Fat12.Dir.Scanning.{scan-deleted_char, scan-Finds, Finds}
use sant_os.Fat12.Dir.Filling.{scan-fill_entry}
use sant_os.Fat12.Disk.{Disk, IsReliable}
use sant_os.Fat12.Files.{Fs, Slot, BootSector, write_fat_table, delete_at}
use sant_os.Fat12.Files.{File}
use sant_os.Fat12.Data.{fat12_read, fat12_write}
use sant_os.Fat12.Data.Bounded.{AtMost, fat12_read_total, fat12_write_total}
use sant_os.Fat12.Listing.{is_hidden}
use sant_os.Fat12.Listing.Shown.{is_hidden_lem}
use sant_os.Prelude.{false, Option, bit_and, nonzero}
use sant_os.Prelude.{false}
use sant_os.Fat12.Files.Writing.{WritesWork, write_fat_table_lem, in_table, table_sector}
use sant_os.Fat12.Files.Delete.{delete_at_lem, delete_at_outcome}

abbrev ramp : Mem
ramp i = i % 256

ramp-IsBytes : IsBytes ramp
ramp-IsBytes i = omega arith

abbrev empty : Mem
empty i = 0

empty-IsBytes : IsBytes empty
empty-IsBytes i = omega arith

-- Cluster 2 leads to 3, and 3 back to 2.
abbrev looped : Mem
looped = set_fat_entry (set_fat_entry empty 2 3) 3 2

looped-IsBytes : IsBytes looped
looped-IsBytes =
    set_fat_entry-IsBytes (set_fat_entry empty 2 3) 3 2
      (set_fat_entry-IsBytes empty 2 3 empty-IsBytes)

-- Cluster 2 leads to 3, which ends the chain; 4 is another file.
abbrev chained : Mem
chained = set_fat_entry (set_fat_entry (set_fat_entry empty 2 3) 3 0xFFF) 4 0xFFF

chained-IsBytes : IsBytes chained
chained-IsBytes = set_fat_entry-IsBytes (set_fat_entry (set_fat_entry empty 2 3) 3 0xFFF) 4 0xFFF (
    set_fat_entry-IsBytes (set_fat_entry empty 2 3) 3 0xFFF
      (set_fat_entry-IsBytes empty 2 3 empty-IsBytes))

chained-Chain : Chain chained 2 (2 ∷ 3 ∷ [])
unfolding get_fat_entry set_fat_entry store
chained-Chain = (refl, refl, refl, (refl, refl, refl, refl))

packed_entries : (get_fat_entry chained 3 ≡ 0xFFF) × (chained 4 ≡ 0xF0) × (chained 5 ≡ 0xFF)
unfolding get_fat_entry set_fat_entry store
packed_entries = (refl, refl, refl)

first_free_cluster : find_free_cluster chained ≡ 5
unfolding find_free_cluster get_fat_entry set_fat_entry store
first_free_cluster = refl

get_fat_entry-set_fat_entry_example :
    get_fat_entry (set_fat_entry ramp 3 0xABC) 2 ≡ get_fat_entry ramp 2
get_fat_entry-set_fat_entry_example = get_fat_entry-set_fat_entry ramp 3 2 0xABC ramp-IsBytes

find_free_cluster-IsLeastFree_example : IsLeastFree chained 2 0xFF0 (find_free_cluster chained)
find_free_cluster-IsLeastFree_example = find_free_cluster-IsLeastFree chained

free_chain_total_example : (r : Mem) × (free_chain 4096 looped 2 ≡ some r)
free_chain_total_example =
    free_chain_total 4096 looped 2 looped-IsBytes (omega (arith, used-le 0xFF8 looped))

free_chain_lem_example :
    (r : Mem) × (free_chain 10 chained 2 ≡ some r)
    × ((d : ℕ) → get_fat_entry r d ≡ (if has d (2 ∷ 3 ∷ []) then 0 else get_fat_entry chained d))
free_chain_lem_example =
    free_chain_lem 10 chained 2 (2 ∷ 3 ∷ []) chained-IsBytes chained-Chain (omega arith)

-- "SEDIT.C" and "readme.txt"
abbrev sedit : List ℕ
sedit = b'S' ∷ b'E' ∷ b'D' ∷ b'I' ∷ b'T' ∷ []

abbrev c_ext : List ℕ
c_ext = b'C' ∷ []

abbrev a_txt : List ℕ
a_txt = b'a' ∷ b'.' ∷ b't' ∷ b'x' ∷ b't' ∷ []

converts : to_83 a_txt ≡ padded (b'A' ∷ []) (b'T' ∷ b'X' ∷ b'T' ∷ [])
unfolding to_83
converts = refl

to_83-format_filename_example : to_83 (format_filename (padded sedit c_ext)) ≡ padded sedit c_ext
unfolding upcase
to_83-format_filename_example =
    to_83-format_filename sedit (omega arith) (omega arith) (omega arith) c_ext (omega arith)
      (omega arith)

to_83-map_case : to_83 (map upcase a_txt) ≡ to_83 a_txt
to_83-map_case = to_83-map a_txt

-- An 11-character entry "A       TXT" in entry 1, behind a deleted one.
abbrev a_83 : Name83
a_83 = padded (b'A' ∷ []) (b'T' ∷ b'X' ∷ b'T' ∷ [])

abbrev directory : Mem
directory = store (fill_entry a_83 7 empty 1) 0 0xE5

scans : (scan deleted_cast a_83 directory ≡ found 1) × (scan deleted_char a_83 directory ≡ found 1)
unfolding scan matches fill_entry store
scans = (refl, refl)

scan-deleted_char_case : scan deleted_char a_83 directory ≡ scan deleted_cast a_83 directory
scan-deleted_char_case = scan-deleted_char a_83 directory (omega arith)

scan-Finds_example : Finds deleted_char a_83 directory 0 16 (scan deleted_char a_83 directory)
scan-Finds_example = scan-Finds deleted_char a_83 directory (refl, refl)

scan-fill_entry_example :
    let new = fill_entry a_83 9 empty 0 in
    (scan deleted_cast a_83 new ≡ found 0)
    × (attributes new 0 ≡ 0x20)
    × (first_cluster_low new 0 ≡ 9)
    × (file_size new 0 ≡ 0)
scan-fill_entry_example =
    scan-fill_entry a_83 9 empty 0 (refl, refl) (omega arith) (omega arith) (omega arith)
      (λ j p q. absurd (omega arith))

-- A drive that always works: the medium by sectors.
abbrev ram_disk : Disk
ram_disk = record {
  Drive = ℕ → Mem;
  read_sectors = λ d lba n. (d, some (if n == 1 then d lba else λ j. d (lba + j / 512) (j % 512)));
  write_sectors = λ d lba n buf. (λ l. if l == lba then buf else d l, true);
}

abbrev ram_sector : (ℕ → Mem) → ℕ → Mem
ram_sector d l = d l

ram_disk-IsReliable : IsReliable ram_disk ram_sector
ram_disk-IsReliable = record {
  read_gives = λ d lba e. cc;
  read_keeps = λ d lba n. refl;
  write_puts = λ d lba buf ok l. refl;
}

abbrev floppy : BootSector
floppy = record {
  bytes_per_sector = 512;
  sectors_per_cluster = 1;
  reserved_sectors = 1;
  num_fats = 2;
  root_entries = 224;
  sectors_per_fat = 9;
}

abbrev mounted : Fs (ℕ → Mem)
mounted = record {
  boot_sector = floppy;
  fat_start_sector = 1;
  root_dir_start_sector = 19;
  data_start_sector = 33;
  fat_buffer = chained;
  drive = λ l. empty;
}

-- The entry of a file at cluster 2.
abbrev slot : Slot
slot = record { sector = 0; idx = 0; buffer = fill_entry a_83 2 empty 0 }

write_fat_table_lem_case :
    ((write_fat_table ram_disk mounted).0.fat_buffer ≡ chained)
    × ((l : ℕ)
        → (write_fat_table ram_disk mounted).0.drive l
          ≡ (if in_table mounted 0 9 l then table_sector mounted l else empty))
unfolding write_fat_table
write_fat_table_lem_case = write_fat_table_lem ram_disk ram_sector ram_disk-IsReliable mounted refl

slot-Chain : Chain chained (first_cluster_low slot.buffer slot.idx) (2 ∷ 3 ∷ [])
unfolding get_fat_entry set_fat_entry store fill_entry
slot-Chain = (refl, refl, refl, (refl, refl, refl, refl))

delete_at_lem_example :
    let fs' = (delete_at ram_disk mounted slot).0 in
    ((d : ℕ)
      → get_fat_entry fs'.fat_buffer d
        ≡ (if has d (2 ∷ 3 ∷ []) then 0 else get_fat_entry chained d))
    × (fs'.drive 19 ≡ store slot.buffer 0 0xE5)
unfolding delete_at write_fat_table free_chain get_fat_entry set_fat_entry store fill_entry
delete_at_lem_example =
    delete_at_lem ram_disk ram_sector ram_disk-IsReliable mounted slot (2 ∷ 3 ∷ []) chained-IsBytes
      slot-Chain refl

is_hidden_lem_case :
    is_hidden false slot.buffer 0 ≡ nonzero (bit_and (attributes slot.buffer 0) 0x08)
is_hidden_lem_case = is_hidden_lem slot.buffer 0

-- A file of 700 bytes whose chain is a cycle of two clusters.
abbrev cyclic : Fs (ℕ → Mem)
cyclic = record mounted { fat_buffer = looped }

abbrev two_clusters : File
two_clusters = record { name = a_txt; size = 700; first_cluster = 2; is_directory = false }

fat12_read_total_example :
    (r : Fs (ℕ → Mem) × Mem × Option ℕ) × (fat12_read ram_disk 701 cyclic two_clusters empty 2000
      ≡ some r)
    × AtMost 700 r.2
fat12_read_total_example =
    fat12_read_total ram_disk 701 cyclic two_clusters empty 2000 (omega arith) (omega arith)
      (omega arith)

fat12_write_total_example :
    (r : Fs (ℕ → Mem) × Option ℕ) × (fat12_write ram_disk 1501 cyclic two_clusters ramp 1500
      ≡ some r)
    × AtMost 1500 r.1
fat12_write_total_example =
    fat12_write_total ram_disk 1501 cyclic two_clusters ramp 1500 (omega arith) (omega arith)

delete_at_outcome_example :
    ((d : ℕ)
      → get_fat_entry (delete_at ram_disk mounted slot).0.fat_buffer d
        ≡ (if has d (2 ∷ 3 ∷ []) then 0 else get_fat_entry chained d))
    × (WritesWork ram_disk → (delete_at ram_disk mounted slot).1 ≡ true)
delete_at_outcome_example =
    delete_at_outcome ram_disk mounted slot (2 ∷ 3 ∷ []) chained-IsBytes slot-Chain
