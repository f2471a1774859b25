-- ===== src/Fat12/Files/Delete.antt =====
-- `fat12_delete` of src/fat12.c, once it has found the entry.
use sant_os.Prelude.{
  ℕ, suc, ◌+◌, Mem, store, Bool, true, some, if◌then◌else◌, ◌==◌, ◌≡◌, List, arith, refl, length,
  ◌∙◌, ap, sym, Bool-cases, inl, inr,
}
use sant_os.Fat12.Table.{get_fat_entry}
use sant_os.Fat12.Table.Entries.{IsBytes}
use sant_os.Fat12.Chain.{free_chain, has, Chain}
use sant_os.Fat12.Chain.Length.{free_chain_enough}
use sant_os.Fat12.Chain.Freed.{free_chain_lem}
use sant_os.Fat12.Disk.{Disk, IsReliable}
use sant_os.Fat12.Dir.{entry_at, first_cluster_low}
use sant_os.Fat12.Files.{Fs, Slot, chain_fuel, write_dir, write_fat_table, delete_at}
use sant_os.Fat12.Files.Writing.{write_fat_table_keeps, WritesWork, write_fat_table_works}

module _ (D : Disk) where
  abbrev pub after_table : Fs D.Drive → Mem → Fs D.Drive × Bool
  after_table fs table = write_fat_table D (record fs { fat_buffer = table })

  delete_at_parts :
      (fs : Fs D.Drive) (s : Slot) {table : Mem}
      → free_chain chain_fuel fs.fat_buffer (first_cluster_low s.buffer s.idx) ≡ some table
      → (delete_at D fs s).1 ≡ true
      → let done = after_table fs table in
        (done.1 ≡ true)
        × (delete_at D fs s ≡ write_dir D done.0 s.sector (store s.buffer (entry_at s.idx) 0xE5))
  unfolding delete_at
  delete_at_parts fs s {table} e h = ground arith

  module _ (sector : D.Drive → ℕ → Mem) (works : IsReliable D sector) where
    write_dir_puts :
        (fs : Fs D.Drive) (i : ℕ) (buf : Mem)
        → (write_dir D fs i buf).1 ≡ true
        → ((write_dir D fs i buf).0.fat_buffer ≡ fs.fat_buffer)
          × (sector (write_dir D fs i buf).0.drive (fs.root_dir_start_sector + i) ≡ buf)
    unfolding write_dir
    write_dir_puts fs i buf ok =
        let l = fs.root_dir_start_sector + i in
        let put = works.write_puts fs.drive l buf ok l in
        let self : (l == l) ≡ true = ground arith in (refl, rw (put, self))

    -- On a drive that works and a table of bytes, where deleting the entry of a file whose chain is
    -- well formed succeeds, it frees the chain: every cluster of the chain reads 0 in the new table
    -- and every other entry reads as before. The directory sector is written back with 0xE5 as the
    -- entry's first byte, and no other change.
    pub delete_at_lem :
        (fs : Fs D.Drive) (s : Slot) (xs : List ℕ)
        → IsBytes fs.fat_buffer
        → Chain fs.fat_buffer (first_cluster_low s.buffer s.idx) xs
        → (delete_at D fs s).1 ≡ true
        → let fs' = (delete_at D fs s).0 in
          ((d : ℕ)
            → get_fat_entry fs'.fat_buffer d
              ≡ (if has d xs then 0 else get_fat_entry fs.fat_buffer d))
          × (sector fs'.drive (fs.root_dir_start_sector + s.sector)
              ≡ store s.buffer (entry_at s.idx) 0xE5)
    delete_at_lem fs s xs bytes chain ok =
        let c = first_cluster_low s.buffer s.idx in
        let (table, ends, freed) =
          free_chain_lem (suc (length xs)) fs.fat_buffer c xs bytes chain (omega arith) in
        let enough = free_chain_enough (suc (length xs)) fs.fat_buffer c bytes ends in
        let (table_ok, same) = delete_at_parts fs s enough ok in
        let linked : Fs D.Drive = record fs { fat_buffer = table } in
        let keeps = write_fat_table_keeps D linked in
        let buf = store s.buffer (entry_at s.idx) 0xE5 in
        let wrote = ap (λ (r : Fs D.Drive × Bool). r.1) (sym same) ∙ ok in
        let (fat, put) = write_dir_puts (write_fat_table D linked).0 s.sector buf wrote in
        let root = ap (λ (f : Fs D.Drive). f.root_dir_start_sector) keeps in
        let table_kept = ap (λ (f : Fs D.Drive). f.fat_buffer) keeps in
        (
          λ d. rw same (ap (λ (m : Mem). get_fat_entry m d) (fat ∙ table_kept) ∙ freed d),
          rw same (rw root at put),
        )

  dir_works : WritesWork D → (fs : Fs D.Drive) (i : ℕ) (buf : Mem) → (write_dir D fs i buf).1 ≡ true
  unfolding write_dir
  dir_works ok fs i buf = ok fs.drive (fs.root_dir_start_sector + i) buf

  -- Writing a directory sector changes the drive alone.
  write_dir_keeps :
      (fs : Fs D.Drive) (i : ℕ) (buf : Mem) → (write_dir D fs i buf).0.fat_buffer ≡ fs.fat_buffer
  unfolding write_dir
  write_dir_keeps fs i buf = refl

  -- Whatever the disk does with the writes, the table in memory is the one with the chain freed.
  delete_at_table :
      (fs : Fs D.Drive) (s : Slot) {table : Mem}
      → free_chain chain_fuel fs.fat_buffer (first_cluster_low s.buffer s.idx) ≡ some table
      → (delete_at D fs s).0.fat_buffer ≡ table
  unfolding delete_at
  delete_at_table fs s {table} ends =
      let linked : Fs D.Drive = record fs { fat_buffer = table } in
      let kept = ap (λ (f : Fs D.Drive). f.fat_buffer) (write_fat_table_keeps D linked) in
      let buf = store s.buffer (entry_at s.idx) 0xE5 in
      elim (Bool-cases (write_fat_table D linked).1) [
        | inl wrote ↦
            rw (delete_at, ends, wrote)
              (write_dir_keeps (write_fat_table D linked).0 s.sector buf ∙ kept)
        | inr failed ↦ rw (delete_at, ends, failed) kept
      ]

  -- Of a table of bytes and an entry whose chain is well formed, deleting frees the chain in memory in
  -- every outcome, the failures of a write included: every cluster of the chain reads 0 and every
  -- other entry as before, though -1 may be returned. It returns 0 where no write fails.
  pub delete_at_outcome :
      (fs : Fs D.Drive) (s : Slot) (xs : List ℕ)
      → IsBytes fs.fat_buffer
      → Chain fs.fat_buffer (first_cluster_low s.buffer s.idx) xs
      → ((d : ℕ)
          → get_fat_entry (delete_at D fs s).0.fat_buffer d
            ≡ (if has d xs then 0 else get_fat_entry fs.fat_buffer d))
        × (WritesWork D → (delete_at D fs s).1 ≡ true)
  unfolding delete_at
  delete_at_outcome fs s xs bytes chain =
      let c = first_cluster_low s.buffer s.idx in
      let (table, ends, freed) =
        free_chain_lem (suc (length xs)) fs.fat_buffer c xs bytes chain (omega arith) in
      let enough = free_chain_enough (suc (length xs)) fs.fat_buffer c bytes ends in
      let linked : Fs D.Drive = record fs { fat_buffer = table } in
      (
        λ d. ap (λ (m : Mem). get_fat_entry m d) (delete_at_table fs s enough) ∙ freed d,
        λ ok.
            let wrote = write_fat_table_works D ok linked in
            rw (delete_at, enough, wrote)
              (dir_works ok (write_fat_table D linked).0 s.sector
                (store s.buffer (entry_at s.idx) 0xE5)),
      )
