-- ===== src/Syscall/Files.antt =====
-- SYSCALL_READ_FILE of src/syscall.c: that it returns, and how much.
use sant_os.Prelude.{
  ℕ, zero, suc, ◌+◌, ◌^◌, ◌<◌, ◌≤◌, Mem, Option, none, some, List, if◌then◌else◌, ltb, ◌≡◌, ◌⊎◌,
  inl, inr, refl, arith, ap, Option-cases, Bool-cases, subst, sym,
}
use Prim.Native.Nat.{min}
use mathlib.Core.Option.{map}
use sant_os.Fat12.Disk.{Disk}
use sant_os.Fat12.Name.{to_83}
use sant_os.Fat12.Dir.{Scan, found, ended, next_sector, scan, deleted_char}
use sant_os.Fat12.Files.{Driver, Slot, find_root, root_sectors, fat12_open}
use sant_os.Fat12.Data.Bounded.{fat12_read_total, AtMost}
use sant_os.Syscall.{minus_one, State, read_file, read_call}

module _ (D : Disk) where
  look_boot :
      (s : Scan) (sector : ℕ) (buf : Mem) (fs fs' : Driver D) (rest : Driver D × Option Slot)
      → fs'.boot_sector ≡ fs.boot_sector
      → rest.0.boot_sector ≡ fs.boot_sector
      → (elim s as (λ _. Driver D × Option Slot) [
        | found i ↦ (fs', some (record { sector = sector; idx = i; buffer = buf }))
        | ended ↦ (fs', none)
        | next_sector ↦ rest
      ]).0.boot_sector
        ≡ fs.boot_sector
  look_boot (found i) sector buf fs fs' rest same h = same
  look_boot ended sector buf fs fs' rest same h = same
  look_boot next_sector sector buf fs fs' rest same h = h

  find_root_boot :
      (look : Mem → Scan) (fs : Driver D) (left sector : ℕ)
      → (find_root D look fs left sector).0.boot_sector ≡ fs.boot_sector
  unfolding find_root
  find_root_boot look fs zero sector = refl
  find_root_boot look fs (suc left) sector =
      let r = D.read_sectors fs.drive (fs.root_dir_start_sector + sector) 1 in
      let fs' : Driver D = record fs { drive = r.0 } in
      elim (Option-cases r.1) [
        | inl failed ↦ rw (failed, find_root) refl
        | inr (buf, got) ↦
            rw (got, find_root)
              (look_boot (look buf) sector buf fs fs' _ refl
                (find_root_boot look fs' left (sector + 1)))
      ]

  open_boot :
      (fs : Driver D) (name : List ℕ) → (fat12_open D fs name).0.boot_sector ≡ fs.boot_sector
  unfolding fat12_open
  open_boot fs name =
      let look = scan deleted_char (to_83 name) in
      let left = root_sectors fs.boot_sector in
      let kept = find_root_boot look fs left 0 in
      elim (Option-cases (find_root D look fs left 0).1) [
        | inl nothing ↦ rw (nothing, fat12_open) kept
        | inr (s, there) ↦ rw (there, fat12_open) kept
      ]

  -- What the caller of SYSCALL_READ_FILE gets: -1, or no more bytes than its buffer has.
  abbrev pub Fits : ℕ → State D × ℕ → Type 0
  Fits buf_size r = (r.1 ≡ minus_one) ⊎ (r.1 ≤ buf_size)

  read_call-Fits :
      (k : State D) (buf buf_size limit : ℕ) (r : Driver D × Mem × Option ℕ)
      → limit ≤ buf_size
      → AtMost limit r.2
      → Fits buf_size (read_call D k buf r)
  unfolding read_call
  read_call-Fits k buf buf_size limit (fs, buffer, none) le most = inl refl
  read_call-Fits k buf buf_size limit (fs, buffer, some n) le most =
      elim (Bool-cases (ltb n (2 ^ 31))) [
        | inl small ↦ rw small (inr (omega (arith, most)))
        | inr large ↦ rw large (inl refl)
      ]

  -- On a volume with at least one sector to a cluster, SYSCALL_READ_FILE returns, whatever the table
  -- and the directory hold, with -1 or with a count that is at most the size of the caller's buffer.
  -- That size is below 2 ^ 32 - 511, and the fuel is larger than it.
  pub read_file-Fits :
      (fuel : ℕ) (k : State D) (fname : List ℕ) (buf buf_size : ℕ)
      → 1 ≤ k.fs.boot_sector.sectors_per_cluster
      → buf_size + 511 < 2 ^ 32
      → buf_size < fuel
      → (r : State D × ℕ) × (read_file D fuel k fname buf buf_size ≡ some r) × Fits buf_size r
  unfolding read_file
  read_file-Fits fuel k fname buf buf_size spc small enough =
      let fs = (fat12_open D k.fs fname).0 in
      elim (Option-cases (fat12_open D k.fs fname).1) [
        | inl nothing ↦ ((record k { fs = fs }, minus_one), rw (nothing, read_file) refl, inl refl)
        | inr (file, there) ↦
            let to_read = if ltb file.size buf_size then file.size else buf_size in
            let short : to_read ≤ buf_size = ground arith in
            let spc' : 1 ≤ fs.boot_sector.sectors_per_cluster =
              subst (λ b. 1 ≤ b.sectors_per_cluster) (sym (open_boot k.fs fname)) spc in
            let (r, runs, most) =
              fat12_read_total D fuel fs file (λ i. k.heap.bytes (buf + i)) to_read spc'
                (omega (arith, short)) (omega (arith, short)) in
            (
              read_call D k buf r,
              rw (there, read_file)
                  (ap (λ (o : Option (Driver D × Mem × Option ℕ)). map (λ x. read_call D k buf x) o)
                    runs),
              read_call-Fits k buf buf_size (min to_read file.size) r (omega (arith, short)) most,
            )
      ]
