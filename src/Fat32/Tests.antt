-- ===== src/Fat32/Tests.antt =====
-- Tests of the model of src/fat32.c, and the theorem at a concrete input.
use sant_os.Prelude.{
  ℕ, ◌+◌, ◌<◌, Mem, true, false, some, [], ◌∷◌, ◌==◌, if◌then◌else◌, u32, ◌≡◌, refl, arith, subst,
}
use Prim.Native.Nat.{min}
use sant_os.Fat12.Table.{load16}
use sant_os.Fat12.Dir.{load32}
use sant_os.Fat12.Disk.{Disk, IsReliable}
use sant_os.Fat12.Files.{File}
use sant_os.Fat32.{Fat32, in_chain, first_sector, is_fat, fat32_init, fat32_read}
use sant_os.Fat32.Chain.{Along, whole, link, next_of, ReadsAll, fat32_read-ReadsAll}

abbrev medium : Disk
medium = record {
  Drive = ℕ → Mem;
  read_sectors = λ d lba n. (d, some (d lba));
  write_sectors = λ d lba n buf. ((λ l. if l == lba then buf else d l), true);
}

abbrev contents : (ℕ → Mem) → ℕ → Mem
contents d = d

medium-IsReliable : IsReliable medium contents
medium-IsReliable = record {
  read_gives = λ d lba got. cc;
  read_keeps = λ d lba n. refl;
  write_puts = λ d lba buf done l. refl;
}

medium_works : (d : ℕ → Mem) (lba : ℕ) → (buf : Mem) × ((medium.read_sectors d lba 1).1 ≡ some buf)
medium_works d lba = (d lba, refl)

-- Cluster 3 is followed by cluster 5. The other sectors hold their numbers.
abbrev layout : ℕ → Mem
layout l i = if l == 32 then (if i == 12 then 5 else 0) else l

abbrev volume : Fat32 medium
volume = record {
  sectors_per_cluster = 1;
  fat_start_sector = 32;
  data_start_sector = 100;
  root_cluster = 2;
  drive = layout;
}

abbrev two_clusters : File
two_clusters = record { name = b'a' ∷ []; size = 700; first_cluster = 3; is_directory = false }

abbrev two_sectors : ℕ → Mem
two_sectors i = if i == 0 then layout 101 else layout 103

no_fat : (fs : Fat32 medium) × (fat32_init medium volume ≡ (fs, false))
unfolding fat32_init is_fat
no_fat = (_, refl)

only_zero : (j : ℕ) → j < 1 → 0 ≡ j
only_zero j lt = omega (arith, lt)

two_clusters-Along :
    Along layout (first_sector medium volume) (next_of layout 32) 1 (min 1000 700) two_sectors 3 0
unfolding in_chain first_sector load32 load16
two_clusters-Along =
    link refl
      (λ j lt.
        subst (λ (i : ℕ). layout (u32 (first_sector medium volume 3 + i)) ≡ two_sectors (0 + i))
          (only_zero j lt) refl)
      (link refl
        (λ j lt.
          subst (λ (i : ℕ). layout (u32 (first_sector medium volume 5 + i)) ≡ two_sectors (1 + i))
            (only_zero j lt) refl)
        (whole (omega arith)))

fat32_read-ReadsAll_example :
    ReadsAll medium contents medium-IsReliable medium_works two_sectors
      (min 1000 700)
      (λ i. 0)
      (fat32_read medium 800 volume two_clusters (λ i. 0) 1000)
fat32_read-ReadsAll_example =
    fat32_read-ReadsAll medium contents medium-IsReliable medium_works 800 volume two_clusters
      (λ i. 0) 1000 two_sectors (omega arith) (omega arith) two_clusters-Along
