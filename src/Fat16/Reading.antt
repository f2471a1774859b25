-- ===== src/Fat16/Reading.antt =====
-- What `fat16_read` of src/fat16.c reads.
use sant_os.Prelude.{
  ℕ, zero, suc, ◌+◌, ◌-◌, ◌*◌, ◌/◌, ◌%◌, ◌<◌, ◌≤◌, Mem, true, false, ◌&&◌, Option, none, some, ltb,
  leb, if◌then◌else◌, u16, u32, ◌≡◌, refl, arith, ap, ◌∙◌, Option-cases, Bool-cases, inl, inr,
}
use Prim.Native.Nat.{min}
use sant_os.Fat12.Disk.{Disk, IsReliable}
use sant_os.Fat12.Files.{File}
use sant_os.Fat12.Data.{put_bytes}
use sant_os.Fat16.{Fat16, first_sector, read_cluster, fat16_read}

-- The first `n` bytes of a buffer are those of sectors, and the others are old.
abbrev pub Filled : (ℕ → Mem) → ℕ → Mem → Mem → Type 0
Filled sectors n old buffer =
    (k : ℕ) → buffer k ≡ (if ltb k n then sectors (k / 512) (k % 512) else old k)

more-Filled :
    (sectors : ℕ → Mem) (i done n : ℕ) (old buffer read : Mem)
    → done ≡ i * 512
    → n ≤ 512
    → read ≡ sectors i
    → Filled sectors done old buffer
    → Filled sectors (done + n) old (put_bytes buffer done n read)
more-Filled sectors i done n old buffer read at fits got before k =
    let was : buffer k ≡ (if ltb k done then sectors (k / 512) (k % 512) else old k) = before k in
    elim (Bool-cases (leb done k && ltb k (done + n))) [
      | inr outside ↦
          let same : ltb k (done + n) ≡ ltb k done = ground arith in rw (outside, same) was
      | inl inside ↦
          let below : ltb k (done + n) ≡ true = ground arith in
          let here : k / 512 ≡ i = ground (arith, at) in
          let byte : k % 512 ≡ k - done = ground (arith, at) in
          rw (inside, below, here, byte) (ap (λ (m : Mem). m (k - done)) got)
    ]

-- What comes of a cluster: a failure, or the bytes up to a limit.
abbrev pub Reads : Type 0 → (ℕ → Mem) → ℕ → Mem → Option (Mem × ℕ) → Type 0
Reads Failure sectors limit old none = Failure
Reads Failure sectors limit old (some (buffer, n)) = (n ≡ limit) × Filled sectors n old buffer

pub none-Filled : (sectors : ℕ → Mem) (buffer : Mem) → Filled sectors 0 buffer buffer
none-Filled sectors buffer k = let none_below : ltb k 0 ≡ false = ground arith in rw none_below refl

module _ (D : Disk) (sector : D.Drive → ℕ → Mem) (ok : IsReliable D sector) where
  -- A disk error: a read of one of the `count` sectors from `first` on fails, in a state of the drive
  -- in which the medium holds `held`.
  pub record Fails (first count : ℕ) (held : ℕ → Mem) : Type 0 where
    pub number : ℕ
    pub inside : number < count
    pub drive : D.Drive
    pub same : sector drive ≡ held
    pub fails : (D.read_sectors drive (u32 (first + number)) 1).1 ≡ none

  -- The loop over a cluster, which is the sectors of the file from `base` on.
  pub read_cluster-Reads :
      (left i first base per : ℕ) (d : D.Drive) (held : ℕ → Mem) (size : ℕ) (old buffer : Mem)
      (done : ℕ) (sectors : ℕ → Mem)
      → i + left ≤ per
      → sector d ≡ held
      → ((j : ℕ) → j < i + left → sector d (u32 (first + j)) ≡ sectors (base + j))
      → done ≡ min ((base + i) * 512) size
      → Filled sectors done old buffer
      → Reads
          (Fails first per held)
          sectors
          (min ((base + i + left) * 512) size)
          old
          (read_cluster D left i first d size buffer done).1
  unfolding read_cluster
  read_cluster-Reads zero i first base per d held size old buffer done sectors part same disk at
        before =
      (omega (arith, at), before)
  read_cluster-Reads (suc left) i first base per d held size old buffer done sectors part same disk
        at before =
      let r = D.read_sectors d (u32 (first + i)) 1 in
      let n = min 512 (size - done) in
      elim (Bool-cases (ltb done size)) [
        | inr all ↦ rw (all, read_cluster) (ground (arith, at), before)
        | inl more ↦ elim (Option-cases r.1) [
          | inl failed ↦
              rw (more, failed, read_cluster)
                record { number = i; inside = omega arith; drive = d; same = same; fails = failed }
          | inr (buf, got) ↦
              let here : done ≡ (base + i) * 512 = ground (arith, at) in
              let read : buf ≡ sectors (base + i) =
                ok.read_gives d (u32 (first + i)) got ∙ disk i (omega arith) in
              let grown =
                more-Filled sectors (base + i) done n old buffer buf here (omega arith) read
                  before in
              let count : base + (i + 1) + left ≡ base + i + suc left = omega arith in
              let kept = ok.read_keeps d (u32 (first + i)) 1 in
              let disk' = λ (j : ℕ) (lt : j < i + 1 + left).
                ap (λ (s : ℕ → Mem). s (u32 (first + j))) kept ∙ disk j (omega (arith, lt)) in
              let rest =
                read_cluster-Reads left (i + 1) first base per r.0 held size old
                  (put_bytes buffer done n buf) (done + n) sectors (omega arith) (kept ∙ same) disk'
                  (ground (arith, here)) grown in
              rw (more, got, read_cluster) (rw count at rest)
        ]
      ]

  pub read_cluster_keeps :
      (left i first : ℕ) (d : D.Drive) (size : ℕ) (buffer : Mem) (done : ℕ)
      → sector (read_cluster D left i first d size buffer done).0 ≡ sector d
  unfolding read_cluster
  read_cluster_keeps zero i first d size buffer done = refl
  read_cluster_keeps (suc left) i first d size buffer done =
      let r = D.read_sectors d (u32 (first + i)) 1 in
      let n = min 512 (size - done) in
      let kept = ok.read_keeps d (u32 (first + i)) 1 in
      elim (Bool-cases (ltb done size)) [
        | inr all ↦ rw (all, read_cluster) refl
        | inl more ↦ elim (Option-cases r.1) [
          | inl failed ↦ rw (more, failed, read_cluster) kept
          | inr (buf, got) ↦
              rw (more, got, read_cluster)
                (read_cluster_keeps left (i + 1) first r.0 size (put_bytes buffer done n buf)
                    (done + n)
                  ∙ kept)
        ]
      ]

  -- A read of at least one byte, of a cluster that is no end of a chain, fails only where
  -- the disk fails to read a sector of that cluster; else it comes to the bytes of that one cluster, in
  -- the order of its sectors: as many as were asked for, but no more than the file and the cluster
  -- have. The buffer is unchanged behind them.
  pub fat16_read-Reads :
      (fs : Fat16 D) (file : File) (buffer : Mem) (size : ℕ)
      → 0 < min size file.size
      → file.first_cluster < 0xFFF8
      → Reads
          (Fails
            (first_sector D fs file.first_cluster)
            fs.boot_sector.sectors_per_cluster
            (sector fs.drive))
          (λ i. sector fs.drive (u32 (first_sector D fs file.first_cluster + i)))
          (min (fs.boot_sector.sectors_per_cluster * 512) (min size file.size))
          buffer
          (fat16_read D fs file buffer size).1
  unfolding fat16_read
  fat16_read-Reads fs file buffer size some_bytes cluster =
      let limit : (if ltb file.size size then file.size else size) ≡ min size file.size =
        ground arith in
      let word : u16 file.first_cluster ≡ file.first_cluster = omega arith in
      let asked : ltb 0 (min size file.size) ≡ true = ground arith in
      let in_chain : ltb file.first_cluster 0xFFF8 ≡ true = ground arith in
      let at = λ (i : ℕ). sector fs.drive (u32 (first_sector D fs file.first_cluster + i)) in
      let first = λ (k : ℕ). none-Filled at buffer k in
      let all =
        read_cluster-Reads fs.boot_sector.sectors_per_cluster 0
          (first_sector D fs file.first_cluster) 0 fs.boot_sector.sectors_per_cluster fs.drive
          (sector fs.drive) (min size file.size) buffer buffer 0 at (omega arith) refl
          (λ j lt. ap at (omega arith)) (omega arith) first in
      let count : 0 + 0 + fs.boot_sector.sectors_per_cluster ≡ fs.boot_sector.sectors_per_cluster =
        omega arith in
      rw (limit, word, asked, in_chain) (rw count at all)
