-- ===== src/Fdc/Geometry.antt =====
-- The geometry of the disk in src/fdc.c: 80 cylinders of 2 heads of 18 sectors.
use sant_os.Prelude.{ℕ, ◌+◌, ◌-◌, ◌*◌, ◌/◌, ◌%◌, ◌^◌, ◌<◌, ◌≤◌, ◌≡◌, arith}
use sant_os.Fdc.{lba_to_chs}

-- The sector number that a place on the disk has.
abbrev pub place : ℕ × ℕ × ℕ → ℕ
place (c, h, s) = (c * 2 + h) * 18 + (s - 1)

-- A place that the disk has.
abbrev pub OnDisk : ℕ × ℕ × ℕ → Type 0
OnDisk (c, h, s) = (c < 80) × (h < 2) × (1 ≤ s) × (s ≤ 18)

pub sector_bounds : (lba : ℕ) → let chs = lba_to_chs lba in (1 ≤ chs.2) × (chs.2 ≤ 18)
unfolding lba_to_chs
sector_bounds lba = (omega arith, omega arith)

-- Of the 2,880 sectors, `lba_to_chs` takes each to a place on the disk, and to the one whose number
-- it is.
pub place-lba_to_chs :
    (lba : ℕ) → lba < 2880 → OnDisk (lba_to_chs lba) × (place (lba_to_chs lba) ≡ lba)
unfolding lba_to_chs
place-lba_to_chs lba h = ((omega arith, omega arith, omega arith, omega arith), omega arith)

-- Each place on the disk is the one that `lba_to_chs` gives for its number.
pub lba_to_chs-place : (c h s : ℕ) → OnDisk (c, h, s) → lba_to_chs (place (c, h, s)) ≡ (c, h, s)
unfolding lba_to_chs
lba_to_chs-place c h s on =
    let (hc, hh, hs, hs') = on in
    let n = (c * 2 + h) * 18 + (s - 1) in
    let cyl : n / (2 * 18) % 2 ^ 8 ≡ c = omega arith in
    let head : n / 18 % 2 % 2 ^ 8 ≡ h = omega arith in
    let sec : (n % 18 + 1) % 2 ^ 8 ≡ s = omega arith in cc (cyl, head, sec)
