-- ===== src/Fat12/Table/Free.antt =====
-- `find_free_cluster` of src/fat12.c: the least free cluster below 0xFF0.
use sant_os.Prelude.{
  ℕ, zero, suc, ◌+◌, ◌-◌, ◌<◌, ◌≤◌, Mem, ◌==◌, ◌≡◌, ◌≢◌, inl, inr, arith, refl, Bool-cases,
}
use sant_os.Fat12.Table.{get_fat_entry, find_free_from, find_free_cluster}

-- `found` is the least cluster from `lo` on, below `hi`, whose entry is free; it is 0 exactly
-- when there is none.
pub data IsLeastFree (buf : Mem) (lo hi : ℕ) : ℕ → Type 0 where
  least :
      (found : ℕ)
      → lo ≤ found
      → found < hi
      → get_fat_entry buf found ≡ 0
      → ((c : ℕ) → lo ≤ c → c < found → get_fat_entry buf c ≢ 0)
      → IsLeastFree buf lo hi found
  full : ((c : ℕ) → lo ≤ c → c < hi → get_fat_entry buf c ≢ 0) → IsLeastFree buf lo hi 0

widen :
    (buf : Mem) (lo : ℕ) {hi r : ℕ}
    → get_fat_entry buf lo ≢ 0
    → IsLeastFree buf (lo + 1) hi r
    → IsLeastFree buf lo hi r
widen buf lo {hi} ne (least found a b e before) =
    least found (omega arith) b e λ c p q. at_least c p (before c) q
  where
    at_least :
        (c : ℕ)
        → lo ≤ c
        → (lo + 1 ≤ c → c < found → get_fat_entry buf c ≢ 0)
        → c < found
        → get_fat_entry buf c ≢ 0
    at_least c p rest q e = ground (arith, rest)
widen buf lo {hi} ne (full none_free) = full λ c p q e. ground (arith, none_free c)

find_free_from-IsLeastFree :
    (buf : Mem) (left cluster hi : ℕ)
    → cluster + left ≡ hi
    → IsLeastFree buf cluster hi (find_free_from buf left cluster)
unfolding find_free_from
find_free_from-IsLeastFree buf zero cluster hi e = full λ c p q. absurd (omega arith)
find_free_from-IsLeastFree buf (suc left) cluster hi e =
    let rest = find_free_from-IsLeastFree buf left (cluster + 1) hi (omega arith) in
    elim (Bool-cases (get_fat_entry buf cluster == 0)) [
      | inl free ↦
          rw free (
            least cluster (omega arith) (omega arith) (ground arith)
              (λ c p q. absurd (omega arith)))
      | inr used ↦ rw used (widen buf cluster (ground arith) rest)
    ]

-- `find_free_cluster` returns the least cluster from 2 up to 0xFEF whose entry is 0, and returns
-- 0 only when all of these are in use.
pub find_free_cluster-IsLeastFree : (buf : Mem) → IsLeastFree buf 2 0xFF0 (find_free_cluster buf)
unfolding find_free_cluster
find_free_cluster-IsLeastFree buf = find_free_from-IsLeastFree buf (0xFF0 - 2) 2 0xFF0 refl
