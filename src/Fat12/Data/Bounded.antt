-- ===== src/Fat12/Data/Bounded.antt =====
-- The loops of `fat12_read` and `fat12_write` in src/fat12.c end, whatever the table holds, and
-- do not go past the size asked for.
use sant_os.Prelude.{
  ℕ, zero, suc, ◌+◌, ◌-◌, ◌*◌, ◌/◌, ◌<◌, ◌≤◌, ◌^◌, Mem, Bool, true, ◌&&◌, Option, none, some, ◌==◌,
  ltb, leb, if◌then◌else◌, u8, u32, u16, ◌≡◌, arith, refl, Bool-cases, Option-cases, inl, inr, ◌∙◌,
  ◌||◌, ap, subst, sym,
}
use Prim.Native.Nat.{min}
use native.Mathlib.Nat.{mul-le-mul_left}
use sant_os.Fat12.Table.{get_fat_entry, set_fat_entry, find_free_cluster}
use sant_os.Fat12.Chain.{in_chain}
use sant_os.Fat12.Disk.{Disk}
use sant_os.Fat12.Files.{File, Driver, BootSector, write_fat_table}
use sant_os.Fat12.Files.Writing.{write_fat_table_keeps}
use sant_os.Fat12.Data.{
  extend_run, cluster_sector, put_bytes, sector_of, read_from, fat12_read, write_cluster,
  append_cluster, next_cluster, write_from, fat12_write,
}

-- A count that is returned is at most `limit`.
abbrev pub AtMost : ℕ → Option ℕ → Type 0
AtMost limit none = Unit {0}
AtMost limit (some n) = n ≤ limit

extend_run-pos : (left : ℕ) (t : Mem) (c next n : ℕ) → 1 ≤ n → 1 ≤ (extend_run left t c next n).0
unfolding extend_run
extend_run-pos zero t c next n h = h
extend_run-pos (suc left) t c next n h = elim (Bool-cases (next == c + 1 && in_chain next)) [
  | inl longer ↦ rw longer (extend_run-pos left t next (get_fat_entry t next) (n + 1) (omega arith))
  | inr done ↦ rw done h
]

pos-mul : (a b : ℕ) → 1 ≤ a → 1 ≤ b → 1 ≤ a * b
pos-mul a b ha hb = omega (arith, mul-le-mul_left a hb)

module _ (D : Disk) where
  read_from_total :
      (fuel : ℕ) (fs : Driver D) (size : ℕ) (buffer : Mem) (done c : ℕ)
      → 1 ≤ fs.boot_sector.sectors_per_cluster
      → size + 511 < 2 ^ 32
      → done ≤ size
      → size - done < fuel
      → (r : Driver D × Mem × Option ℕ) × (read_from D fuel fs size buffer done c ≡ some r)
        × AtMost size r.2
  unfolding read_from
  read_from_total zero fs size buffer done c spc small le enough = absurd (omega arith)
  read_from_total (suc fuel) fs size buffer done c spc small le enough =
      elim (Bool-cases (ltb done size && in_chain c)) [
        | inr stop ↦ ((fs, buffer, some done), rw stop refl, le)
        | inl go_on ↦
            let run = extend_run 249 fs.fat_buffer c (get_fat_entry fs.fat_buffer c) 1 in
            let total =
              min (run.0 * fs.boot_sector.sectors_per_cluster) (u32 (size - done + 511) / 512) in
            let got = D.read_sectors fs.drive (cluster_sector fs c) (u8 total) in
            let fs' : Driver D = record fs { drive = got.0 } in
            let long =
              extend_run-pos 249 fs.fat_buffer c (get_fat_entry fs.fat_buffer c) 1 (omega arith) in
            let some_sectors = pos-mul run.0 fs.boot_sector.sectors_per_cluster long spc in
            let amount = min (total * 512) (size - done) in
            let left : done < size = ground arith in
            let progress : 1 ≤ amount = omega (arith, some_sectors) in
            elim (Option-cases got.1) [
              | inl failed ↦ ((fs', buffer, none), rw (go_on, failed) refl, tt)
              | inr (sectors, worked) ↦
                  let (r, runs, most) =
                    read_from_total fuel fs' size (put_bytes buffer done (u8 total * 512) sectors)
                      (done + amount) run.1 spc small (omega arith) (omega (arith, progress)) in
                  (r, rw (go_on, worked) runs, most)
            ]
      ]

  -- On a volume with at least one sector to a cluster, with more rounds than the smaller of the
  -- size asked for and the size of the file, itself less than 2 ^ 32 - 511, `fat12_read` returns
  -- on every table, also one with a cycle, and a count that it returns is at most that size.
  pub fat12_read_total :
      (fuel : ℕ) (fs : Driver D) (file : File) (buffer : Mem) (size : ℕ)
      → 1 ≤ fs.boot_sector.sectors_per_cluster
      → min size file.size + 511 < 2 ^ 32
      → min size file.size < fuel
      → (r : Driver D × Mem × Option ℕ) × (fat12_read D fuel fs file buffer size ≡ some r)
        × AtMost (min size file.size) r.2
  unfolding fat12_read
  fat12_read_total fuel fs file buffer size spc small enough =
      let e : (if ltb file.size size then file.size else size) ≡ min size file.size =
        ground arith in
      rw e (
        read_from_total fuel fs (min size file.size) buffer 0 (u16 file.first_cluster) spc small
          (omega arith) (omega arith))

  -- What the sectors of a cluster do to the count.
  abbrev Advances : Bool → ℕ → ℕ → Option ℕ → Type 0
  Advances strictly done size none = Unit {0}
  Advances strictly done size (some n) = (done ≤ n) × (n ≤ size) × (strictly ≡ true → done < n)

  write_cluster-Advances :
      (left sector : ℕ) (fs : Driver D) (buffer : Mem) (size done : ℕ)
      → done ≤ size
      → ((write_cluster D left sector fs buffer size done).0.boot_sector ≡ fs.boot_sector)
        × Advances
            (leb 1 left && ltb done size)
            done
            size
            (write_cluster D left sector fs buffer size done).1
  unfolding write_cluster
  write_cluster-Advances zero sector fs buffer size done le = (refl, (omega arith, le, λ h. cc))
  write_cluster-Advances (suc left) sector fs buffer size done le =
      elim (Bool-cases (ltb done size)) [
        | inr stop ↦
            let one : leb 1 (suc left) ≡ true = ground arith in
            rw (stop, one) (refl, (omega arith, le, λ h. cc))
        | inl more ↦
            let amount = min (size - done) 512 in
            let put = D.write_sectors fs.drive sector 1 (sector_of buffer done amount) in
            let fs' : Driver D = record fs { drive = put.0 } in
            elim (Bool-cases put.1) [
              | inr failed ↦ rw (more, failed) (refl, tt)
              | inl worked ↦
                  let lt : done < size = ground arith in
                  let (same, rest) =
                    write_cluster-Advances left (sector + 1) fs' buffer size (done + amount)
                      (omega arith) in
                  let later = write_cluster D left (sector + 1) fs' buffer size (done + amount) in
                  let one : leb 1 (suc left) ≡ true = ground arith in
                  rw (more, worked, one)
                    (
                      same,
                      further (leb 1 left && ltb (done + amount) size) done size amount later.1
                          (omega arith) rest,
                    )
            ]
      ]
    where
      further :
          (b : Bool) (done size amount : ℕ) (r : Option ℕ)
          → 1 ≤ amount
          → Advances b (done + amount) size r
          → Advances true done size r
      further b done size amount none pos h = tt
      further b done size amount (some n) pos h =
          let (up, most, strict) = h in (omega arith, most, λ e. omega arith)

  append_cluster_keeps :
      (fs : Driver D) (c : ℕ) → (append_cluster D fs c).0.boot_sector ≡ fs.boot_sector
  unfolding append_cluster
  append_cluster_keeps fs c =
      let new = find_free_cluster fs.fat_buffer in
      let linked : Driver D = record fs {
        fat_buffer = set_fat_entry (set_fat_entry fs.fat_buffer c new) new 0xFFF;
      } in
      let same = ap (λ (t : Driver D). t.boot_sector) (write_fat_table_keeps D linked) in
      elim (Bool-cases (new == 0)) [
        | inl full ↦ rw full refl
        | inr room ↦ elim (Bool-cases (write_fat_table D linked).1) [
          | inl worked ↦ rw (room, worked) same
          | inr failed ↦ rw (room, failed) same
        ]
      ]

  next_cluster_keeps :
      (fs : Driver D) (c size done : ℕ)
      → (next_cluster D fs c size done).0.boot_sector ≡ fs.boot_sector
  unfolding next_cluster
  next_cluster_keeps fs c size done =
      let next = get_fat_entry fs.fat_buffer c in
      elim (Bool-cases (ltb done size && (leb 0xFF8 next || next == 0))) [
        | inl end ↦ rw end (append_cluster_keeps fs c)
        | inr more ↦ rw more refl
      ]

  write_from_total :
      (fuel : ℕ) (fs : Driver D) (buffer : Mem) (size done c : ℕ)
      → 1 ≤ fs.boot_sector.sectors_per_cluster
      → done ≤ size
      → size - done < fuel
      → (r : Driver D × Option ℕ) × (write_from D fuel fs buffer size done c ≡ some r)
        × AtMost size r.1
  unfolding write_from
  write_from_total zero fs buffer size done c spc le enough = absurd (omega arith)
  write_from_total (suc fuel) fs buffer size done c spc le enough =
      let k = fs.boot_sector.sectors_per_cluster in
      let w = write_cluster D k (cluster_sector fs c) fs buffer size done in
      let (same, moved) = write_cluster-Advances k (cluster_sector fs c) fs buffer size done le in
      elim (Bool-cases (ltb done size && in_chain c)) [
        | inr stop ↦ ((fs, some done), rw stop refl, le)
        | inl go_on ↦ elim (Option-cases w.1) [
          | inl failed ↦ ((w.0, none), rw (go_on, failed) refl, tt)
          | inr (n, worked) ↦
              let (up, most, strict) =
                subst (Advances (leb 1 k && ltb done size) done size) worked moved in
              let lt : done < n = strict (ground arith) in
              let nc = next_cluster D w.0 c size n in
              elim (Option-cases nc.1) [
                | inl full ↦ ((nc.0, none), rw (go_on, worked, full) refl, tt)
                | inr (c', linked) ↦
                    let same' = next_cluster_keeps w.0 c size n ∙ same in
                    let spc' : 1 ≤ nc.0.boot_sector.sectors_per_cluster =
                      subst (λ (t : BootSector). 1 ≤ t.sectors_per_cluster) (sym same') spc in
                    let (r, runs, bound) =
                      write_from_total fuel nc.0 buffer size n c' spc' most (omega (arith, lt)) in
                    (r, rw (go_on, worked, linked) runs, bound)
              ]
        ]
      ]

  -- On a volume with at least one sector to a cluster, with more rounds than there are bytes to
  -- write, `fat12_write` returns on every table, and a count that it returns is at most the size.
  pub fat12_write_total :
      (fuel : ℕ) (fs : Driver D) (file : File) (buffer : Mem) (size : ℕ)
      → 1 ≤ fs.boot_sector.sectors_per_cluster
      → size < fuel
      → (r : Driver D × Option ℕ) × (fat12_write D fuel fs file buffer size ≡ some r)
        × AtMost size r.1
  unfolding fat12_write
  fat12_write_total fuel fs file buffer size spc enough =
      write_from_total fuel fs buffer size 0 (u16 file.first_cluster) spc (omega arith)
        (omega arith)
