-- ===== src/Fat32/Chain.antt =====
-- `fat32_read` of src/fat32.c along a chain of clusters.
use sant_os.Prelude.{
  ℕ, zero, suc, ◌+◌, ◌-◌, ◌*◌, ◌<◌, ◌≤◌, Mem, true, false, Option, some, ltb, if◌then◌else◌, u32,
  ◌≡◌, refl, arith, ap, ◌∙◌, Bool-cases, inl, inr, subst, sym,
}
use Prim.Native.Nat.{min}
use sant_os.Fat12.Disk.{Disk, IsReliable}
use sant_os.Fat12.Files.{File}
use sant_os.Fat12.Data.{put_bytes}
use sant_os.Fat16.{read_cluster}
use sant_os.Fat16.Reading.{
  Filled, Fails, Reads, none-Filled, read_cluster-Reads, read_cluster_keeps,
}
use sant_os.Fat32.{
  Fat32, in_chain, entry_sector, entry_value, get_fat_entry, first_sector, read_chain, fat32_read,
}

-- The sectors of a file, from the one numbered `base` on until they hold `size` bytes, lie in the
-- clusters of a chain that begins at `cluster`.
pub data Along (disk : ℕ → Mem) (first : ℕ → ℕ) (next : ℕ → ℕ) (per_cluster size : ℕ)
    (sectors : ℕ → Mem) : ℕ → ℕ → Type 0 where
  whole :
      {cluster base : ℕ}
      → size ≤ base * 512
      → Along disk first next per_cluster size sectors cluster base
  link :
      {cluster base : ℕ}
      → in_chain cluster ≡ true
      → ((j : ℕ) → j < per_cluster → disk (u32 (first cluster + j)) ≡ sectors (base + j))
      → Along disk first next per_cluster size sectors (next cluster) (base + per_cluster)
      → Along disk first next per_cluster size sectors cluster base

-- The cluster that the table names as the next.
abbrev pub next_of : (ℕ → Mem) → ℕ → ℕ → ℕ
next_of disk fat_start cluster = entry_value (disk (entry_sector fat_start cluster)) cluster

module _ (D : Disk) (sector : D.Drive → ℕ → Mem) (ok : IsReliable D sector)
    (works : (d : D.Drive) (lba : ℕ) → (buf : Mem) × ((D.read_sectors d lba 1).1 ≡ some buf)) where
  read_cluster_works :
      (left i first : ℕ) (d : D.Drive) (size : ℕ) (buffer : Mem) (done : ℕ)
      → (r : Mem × ℕ) × ((read_cluster D left i first d size buffer done).1 ≡ some r)
  unfolding read_cluster
  read_cluster_works zero i first d size buffer done = ((buffer, done), refl)
  read_cluster_works (suc left) i first d size buffer done =
      let r = D.read_sectors d (u32 (first + i)) 1 in
      let n = min 512 (size - done) in
      elim (Bool-cases (ltb done size)) [
        | inr all ↦ ((buffer, done), rw (all, read_cluster) refl)
        | inl more ↦
            let (buf, got) = works d (u32 (first + i)) in
            let (rest, reads) =
              read_cluster_works left (i + 1) first r.0 size (put_bytes buffer done n buf)
                (done + n) in
            (rest, rw (more, got, read_cluster) reads)
      ]

  get_fat_entry_lem :
      (fs : Fat32 D) (cluster : ℕ)
      → get_fat_entry D fs cluster ≡ (
        record fs {
          drive = (D.read_sectors fs.drive (entry_sector fs.fat_start_sector cluster) 1).0;
        },
        next_of (sector fs.drive) fs.fat_start_sector cluster,
      )
  unfolding get_fat_entry
  get_fat_entry_lem fs cluster =
      let (buf, got) = works fs.drive (entry_sector fs.fat_start_sector cluster) in
      let held = ok.read_gives fs.drive (entry_sector fs.fat_start_sector cluster) got in
      rw (got, held) refl

  -- A call that returns all bytes up to `size`.
  abbrev pub ReadsAll : (ℕ → Mem) → ℕ → Mem → Option (Fat32 D × Option (Mem × ℕ)) → Type 0
  ReadsAll sectors size old result =
      (r : Fat32 D × Mem) × (result ≡ some (r.0, some (r.1, size))) × Filled sectors size old r.1

  finished :
      (fuel cluster : ℕ) (fs : Fat32 D) (size : ℕ) (sectors : ℕ → Mem) (old buffer : Mem) (done : ℕ)
      → done ≡ size
      → Filled sectors done old buffer
      → ReadsAll sectors size old (read_chain D (suc fuel) cluster fs size buffer done)
  unfolding read_chain
  finished fuel cluster fs size sectors old buffer done all filled =
      let stop : ltb done size ≡ false = ground (arith, all) in
      (
        (fs, buffer),
        rw (stop, read_chain) (ap (λ (n : ℕ). some (fs, some (buffer, n))) all),
        rw all at filled,
      )

  read_chain_round :
      (fuel cluster : ℕ) (fs : Fat32 D) (size : ℕ) (buffer : Mem) (done : ℕ) {r : Mem × ℕ}
      → ltb done size ≡ true
      → in_chain cluster ≡ true
      → (read_cluster D fs.sectors_per_cluster 0
          (first_sector D fs cluster)
          fs.drive
          size
          buffer
          done).1
        ≡ some r
      → read_chain D (suc fuel) cluster fs size buffer done ≡ (
          let d =
            (read_cluster D fs.sectors_per_cluster 0
              (first_sector D fs cluster)
              fs.drive
              size
              buffer
              done).0 in
          let next = get_fat_entry D (record fs { drive = d }) cluster in
          read_chain D fuel next.1 next.0 size r.0 r.1)
  unfolding read_chain
  read_chain_round fuel cluster fs size buffer done more inside got =
      rw (more, inside, got, read_chain) refl

  -- The next round, once the table has been read, on a disk that has not changed.
  next_round :
      (fuel cluster : ℕ) (fs : Fat32 D) (d : D.Drive) (size : ℕ) (buffer : Mem) (done : ℕ)
      → sector d ≡ sector fs.drive
      → (let next = get_fat_entry D (record fs { drive = d }) cluster in
          read_chain D fuel next.1 next.0 size buffer done)
        ≡ read_chain D fuel
            (next_of (sector fs.drive) fs.fat_start_sector cluster)
            (record fs {
              drive = (D.read_sectors d (entry_sector fs.fat_start_sector cluster) 1).0;
            })
            size
            buffer
            done
  next_round fuel cluster fs d size buffer done same =
      let d' = (D.read_sectors d (entry_sector fs.fat_start_sector cluster) 1).0 in
      ap (λ (r : Fat32 D × ℕ). read_chain D fuel r.1 r.0 size buffer done)
        (get_fat_entry_lem (record fs { drive = d }) cluster)
      ∙ ap
          (λ (s : ℕ → Mem).
            read_chain D fuel (next_of s fs.fat_start_sector cluster) (record fs { drive = d' })
              size buffer done)
          same

  read_chain-ReadsAll :
      (fuel : ℕ) (fs : Fat32 D) (d : D.Drive) {cluster base : ℕ} (size : ℕ) (sectors : ℕ → Mem)
      → (old buffer : Mem) (done : ℕ) → 1 ≤ fs.sectors_per_cluster
      → size < fuel + done
      → sector d ≡ sector fs.drive
      → done ≡ min (base * 512) size
      → Filled sectors done old buffer
      → Along
          (sector fs.drive)
          (first_sector D fs)
          (next_of (sector fs.drive) fs.fat_start_sector)
          fs.sectors_per_cluster
          size
          sectors
          cluster
          base
      → ReadsAll sectors size old
          (read_chain D fuel cluster (record fs { drive = d }) size buffer done)
  unfolding first_sector
  read_chain-ReadsAll zero fs d size sectors old buffer done spc enough same at filled along =
      ground (arith, at)
  read_chain-ReadsAll (suc fuel) fs d {cluster} size sectors old buffer done spc enough same at
        filled (whole le) =
      finished fuel cluster (record fs { drive = d }) size sectors old buffer done
        (ground (arith, at)) filled
  read_chain-ReadsAll (suc fuel) fs d {cluster} {base} size sectors old buffer done spc enough same
        at filled (link inside held along) =
      let first = first_sector D fs cluster in
      let per = fs.sectors_per_cluster in
      elim (Bool-cases (ltb done size)) [
        | inr all ↦
            finished fuel cluster (record fs { drive = d }) size sectors old buffer done
              (ground (arith, at)) filled
        | inl more ↦
            let ((buf, n), got) = read_cluster_works per 0 first d size buffer done in
            let d1 = (read_cluster D per 0 first d size buffer done).0 in
            let same1 : sector d1 ≡ sector fs.drive =
              read_cluster_keeps D sector ok per 0 first d size buffer done ∙ same in
            let disk = λ (j : ℕ) (lt : j < 0 + per).
              ap (λ (s : ℕ → Mem). s (u32 (first + j))) same ∙ held j (omega (arith, lt)) in
            let failure = Fails D sector ok first per (sector d) in
            let reads : Reads failure sectors (min ((base + 0 + per) * 512) size) old
                (some (buf, n)) =
              subst (Reads failure sectors (min ((base + 0 + per) * 512) size) old) got (
                read_cluster-Reads D sector ok per 0 first base per d (sector d) size old buffer
                  done sectors (omega arith) refl disk (omega (arith, at)) filled) in
            let grown : n ≡ min ((base + 0 + per) * 512) size = reads.0 in
            let d2 = (D.read_sectors d1 (entry_sector fs.fat_start_sector cluster) 1).0 in
            let kept = ok.read_keeps d1 (entry_sector fs.fat_start_sector cluster) 1 in
            let progress : size < fuel + n = ground (arith, grown, at, more) in
            let rest =
              read_chain-ReadsAll fuel fs d2 size sectors old buf n spc progress (kept ∙ same1)
                (omega (arith, grown)) reads.1 along in
            let round =
              read_chain_round fuel cluster (record fs { drive = d }) size buffer done more inside
                got in
            let next = next_round fuel cluster fs d1 size buf n same1 in
            subst (ReadsAll sectors size old) (sym (round ∙ next)) rest
      ]

  -- On a disk that does not fail, a read returns all the bytes asked for that the file has, in the
  -- order of the sectors of the file, if these lie along the chain that the table holds from the
  -- first cluster on. The buffer is unchanged behind them. A cluster has at least one sector, and the
  -- fuel is larger than the count of bytes.
  pub fat32_read-ReadsAll :
      (fuel : ℕ) (fs : Fat32 D) (file : File) (buffer : Mem) (size : ℕ) (sectors : ℕ → Mem)
      → 1 ≤ fs.sectors_per_cluster
      → min size file.size < fuel
      → Along
          (sector fs.drive)
          (first_sector D fs)
          (next_of (sector fs.drive) fs.fat_start_sector)
          fs.sectors_per_cluster
          (min size file.size)
          sectors
          file.first_cluster
          0
      → ReadsAll sectors (min size file.size) buffer (fat32_read D fuel fs file buffer size)
  unfolding fat32_read
  fat32_read-ReadsAll fuel fs file buffer size sectors spc enough along =
      let limit : (if ltb file.size size then file.size else size) ≡ min size file.size =
        ground arith in
      let filled = λ (k : ℕ). none-Filled sectors buffer k in
      rw limit (
        read_chain-ReadsAll fuel fs fs.drive (min size file.size) sectors buffer buffer 0 spc
          (omega (arith, enough)) refl (omega arith) filled along)
