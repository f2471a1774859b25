-- ===== src/Fat12/Files/Writing.antt =====
-- `write_fat_table` of src/fat12.c on a drive that works.
use sant_os.Prelude.{
  ℕ, zero, suc, ◌+◌, ◌-◌, ◌*◌, Mem, Bool, true, false, ◌&&◌, ◌==◌, leb, ltb, if◌then◌else◌, ◌≡◌,
  arith, refl, ap, ◌∙◌, Bool-cases, inl, inr,
}
use sant_os.Fat12.Disk.{Disk, IsReliable}
use sant_os.Fat12.Files.{Fs, write_fat_from, write_fat_table}

-- The table's bytes that belong to the sector `l` of the first copy of the table.
abbrev pub table_sector : {Drive : Type 0} → Fs Drive → ℕ → Mem
table_sector fs l = λ j. fs.fat_buffer ((l - fs.fat_start_sector) * 512 + j)

abbrev pub in_table : {Drive : Type 0} → Fs Drive → ℕ → ℕ → ℕ → Bool
in_table fs lo n l = leb (fs.fat_start_sector + lo) l && ltb l (fs.fat_start_sector + lo + n)

module _ (D : Disk) (sector : D.Drive → ℕ → Mem) (works : IsReliable D sector) where
  open works use {write_puts}

  abbrev write_one : Fs D.Drive → ℕ → D.Drive × Bool
  write_one fs i =
      D.write_sectors fs.drive (fs.fat_start_sector + i) 1 (λ j. fs.fat_buffer (i * 512 + j))

  abbrev after_one : Fs D.Drive → ℕ → Fs D.Drive
  after_one fs i = record fs { drive = (write_one fs i).0 }

  write_step :
      (fs : Fs D.Drive) (left i : ℕ)
      → (write_one fs i).1 ≡ true
      → write_fat_from D fs (suc left) i ≡ write_fat_from D (after_one fs i) left (i + 1)
  unfolding write_fat_from
  write_step fs left i ok = ground arith

  write_fails :
      (fs : Fs D.Drive) (left i : ℕ)
      → (write_one fs i).1 ≡ false
      → (write_fat_from D fs (suc left) i).1 ≡ false
  unfolding write_fat_from
  write_fails fs left i failed = ground arith

  -- A write of one sector of the table, and then of those behind it.
  in_table_step :
      (fs : Fs D.Drive) (left i l : ℕ)
      → (write_one fs i).1 ≡ true
      → (if in_table fs (i + 1) left l then table_sector fs l else sector (after_one fs i).drive l)
        ≡ (if in_table fs i (suc left) l then table_sector fs l else sector fs.drive l)
  in_table_step fs left i l ok =
      let put =
        write_puts fs.drive (fs.fat_start_sector + i) (λ j. fs.fat_buffer (i * 512 + j)) ok l in
      elim (Bool-cases (l == fs.fat_start_sector + i)) [
        | inl here ↦
            let e : i ≡ l - fs.fat_start_sector = ground arith in
            let same = ap (λ (k : ℕ). let m : Mem = λ j. fs.fat_buffer (k * 512 + j) in m) e in
            rw (put, here, same) (ground arith)
        | inr other ↦ rw (put, other) (ground arith)
      ]

  write_fat_from_lem :
      (fs : Fs D.Drive) (left i : ℕ)
      → (write_fat_from D fs left i).1 ≡ true
      → ((write_fat_from D fs left i).0.fat_buffer ≡ fs.fat_buffer)
        × ((l : ℕ)
            → sector (write_fat_from D fs left i).0.drive l
              ≡ (if in_table fs i left l then table_sector fs l else sector fs.drive l))
  unfolding write_fat_from
  write_fat_from_lem fs zero i h = (refl, λ l. ground arith)
  write_fat_from_lem fs (suc left) i h = elim (Bool-cases (write_one fs i).1) [
    | inl ok ↦
        let step = write_step fs left i ok in
        let h' : (write_fat_from D (after_one fs i) left (i + 1)).1 ≡ true = rw step at h in
        let (same, rest) = write_fat_from_lem (after_one fs i) left (i + 1) h' in
        (rw step same, λ l. rw step (rest l ∙ in_table_step fs left i l ok))
    | inr failed ↦ cc (write_fails fs left i failed)
  ]

  -- On a drive that works, a `write_fat_table` that succeeds leaves the table in memory as it was
  -- and puts it into the `sectors_per_fat` sectors from `fat_start_sector` on, its first copy on
  -- the medium; every other sector keeps what it held, the second copy too.
  pub write_fat_table_lem :
      (fs : Fs D.Drive)
      → (write_fat_table D fs).1 ≡ true
      → ((write_fat_table D fs).0.fat_buffer ≡ fs.fat_buffer)
        × ((l : ℕ)
            → sector (write_fat_table D fs).0.drive l ≡ (
                if in_table fs 0 fs.boot_sector.sectors_per_fat l
                then table_sector fs l
                else sector fs.drive l))
  unfolding write_fat_table
  write_fat_table_lem fs h = write_fat_from_lem fs fs.boot_sector.sectors_per_fat 0 h

module _ (D : Disk) where
  -- Whether it succeeds or not, writing the table changes the drive alone.
  write_fat_from_keeps :
      (fs : Fs D.Drive) (left i : ℕ)
      → (write_fat_from D fs left i).0 ≡ record fs { drive = (write_fat_from D fs left i).0.drive }
  unfolding write_fat_from
  write_fat_from_keeps fs zero i = refl
  write_fat_from_keeps fs (suc left) i =
      let one =
        D.write_sectors fs.drive (fs.fat_start_sector + i) 1 (λ j. fs.fat_buffer (i * 512 + j)) in
      let fs' : Fs D.Drive = record fs { drive = one.0 } in
      ground (arith, write_fat_from_keeps fs' left (i + 1))

  pub write_fat_table_keeps :
      (fs : Fs D.Drive)
      → (write_fat_table D fs).0 ≡ record fs { drive = (write_fat_table D fs).0.drive }
  unfolding write_fat_table
  write_fat_table_keeps fs = write_fat_from_keeps fs fs.boot_sector.sectors_per_fat 0

  -- No write fails.
  abbrev pub WritesWork : Type 0
  WritesWork = (d : D.Drive) (lba : ℕ) (buf : Mem) → (D.write_sectors d lba 1 buf).1 ≡ true

  write_fat_from_works :
      WritesWork → (fs : Fs D.Drive) (left i : ℕ) → (write_fat_from D fs left i).1 ≡ true
  unfolding write_fat_from
  write_fat_from_works ok fs zero i = refl
  write_fat_from_works ok fs (suc left) i =
      let buf : Mem = λ j. fs.fat_buffer (i * 512 + j) in
      let one = D.write_sectors fs.drive (fs.fat_start_sector + i) 1 buf in
      let fs' : Fs D.Drive = record fs { drive = one.0 } in
      rw (write_fat_from, ok fs.drive (fs.fat_start_sector + i) buf)
        (write_fat_from_works ok fs' left (i + 1))

  pub write_fat_table_works : WritesWork → (fs : Fs D.Drive) → (write_fat_table D fs).1 ≡ true
  unfolding write_fat_table
  write_fat_table_works ok fs = write_fat_from_works ok fs fs.boot_sector.sectors_per_fat 0
