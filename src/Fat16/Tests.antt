-- ===== src/Fat16/Tests.antt =====
-- Tests of the model of src/fat16.c, and the theorem at a concrete input.
use sant_os.Prelude.{
  ℕ, ◌+◌, ◌*◌, u32, Mem, true, false, some, [], ◌∷◌, ◌==◌, if◌then◌else◌, ◌≡◌, refl, arith,
}
use Prim.Native.Nat.{min}
use sant_os.Fat12.Name.{pad}
use sant_os.Fat12.Disk.{Disk, IsReliable}
use sant_os.Fat12.Files.{File}
use sant_os.Fat16.{
  Fat16, is_fat, take_stem, take_ext, name_83, first_sector, init_volume, fat16_init, fat16_read,
}
use sant_os.Fat16.Reading.{Fails, Reads, fat16_read-Reads}

abbrev medium : Disk
medium = record {
  Drive = ℕ → Mem;
  read_sectors = λ d lba n. (d, some (d lba));
  write_sectors = λ d lba n buf. ((λ l. if l == lba then buf else d l), true);
}

abbrev contents : (ℕ → Mem) → ℕ → Mem
contents d = d

medium-IsReliable : IsReliable medium contents
medium-IsReliable = record {
  read_gives = λ d lba got. cc;
  read_keeps = λ d lba n. refl;
  write_puts = λ d lba buf done l. refl;
}

-- The disk holds its sector numbers; clusters have two sectors.
abbrev volume : Fat16 medium
volume = record {
  boot_sector = record {
    bytes_per_sector = 512;
    sectors_per_cluster = 2;
    reserved_sectors = 1;
    num_fats = 2;
    root_entries = 16;
    sectors_per_fat = 9;
  };
  fat_start_sector = 1;
  root_dir_start_sector = 19;
  data_start_sector = 20;
  drive = λ l i. l;
}

abbrev big_file : File
big_file = record { name = b'a' ∷ []; size = 3000; first_cluster = 5; is_directory = false }

no_fat : (fs : Fat16 medium) × (fat16_init medium volume ≡ some (fs, false))
unfolding fat16_init init_volume is_fat
no_fat = (_, refl)

lower_case_kept :
    name_83 (b'a' ∷ b'.' ∷ b'b' ∷ []) ≡ record { stem = pad 8 (b'a' ∷ []); ext = pad 3 (b'b' ∷ []) }
unfolding name_83 take_stem take_ext
lower_case_kept = refl

fat16_read-Reads_example :
    Reads
      (Fails medium contents medium-IsReliable
        (first_sector medium volume 5)
        2
        (contents volume.drive))
      (λ i. contents volume.drive (u32 (first_sector medium volume 5 + i)))
      (min (2 * 512) (min 2000 3000))
      (λ i. 0)
      (fat16_read medium volume big_file (λ i. 0) 2000).1
fat16_read-Reads_example =
    fat16_read-Reads medium contents medium-IsReliable volume big_file (λ i. 0) 2000 (omega arith)
      (omega arith)
