-- ===== src/Paging/Map.antt =====
-- paging.c: paging_map, paging_map_range, paging_map_to and paging_align_address.
use native.Mathlib.Decide.{ℕ_discrete}
use libre_win.Prelude.{
  ℕ, zero, suc, ◌+◌, ◌*◌, ◌/◌, ◌%◌, ◌^◌, ◌<◌, ◌≡◌, ◌≢◌, ◌⊎◌, inl, inr, refl, bit_or, arith, ◌==◌,
  if◌then◌else◌,
}
use libre_win.Prelude.Int.{pos}
use libre_win.Prelude.Bits.{bit_or-add}
use libre_win.Config.{minus, einvarg, sub32, u32}
use libre_win.Memory.{Mem}
use libre_win.Paging.{
  paging_set, paging_map, map_range_loop, paging_map_range, paging_map_to, paging_align_address,
}
use libre_win.Paging.Walk.{page_entry, IsDirectory, paging_set_lem}

-- The least multiple of the page size that is not below the address, if it is below 2 ^ 32.
pub paging_align_address_lem :
    (ptr : ℕ) → ptr + 4095 < 2 ^ 32 → paging_align_address ptr ≡ (ptr + 4095) / 4096 * 4096
unfolding paging_align_address
paging_align_address_lem ptr h = ground arith

paging_map_rejects :
    (m : Mem) (directory virt phys flags : ℕ)
    → (virt % 4096 ≢ 0) ⊎ (phys % 4096 ≢ 0)
    → paging_map m directory virt phys flags ≡ (minus einvarg, m)
unfolding paging_map
paging_map_rejects m directory virt phys flags h = ground arith

paging_map-paging_set :
    (m : Mem) (directory virt phys flags : ℕ)
    → virt % 4096 ≡ 0
    → phys % 4096 ≡ 0
    → paging_map m directory virt phys flags ≡ paging_set m directory virt (bit_or phys flags)
unfolding paging_map
paging_map-paging_set m directory virt phys flags p q = ground arith

paging_map-ok :
    (m : Mem) (directory virt phys flags : ℕ)
    → virt % 4096 ≡ 0
    → phys % 4096 ≡ 0
    → paging_map m directory virt phys flags
      ≡ (pos 0, (paging_set m directory virt (bit_or phys flags)).1)
unfolding paging_map paging_set
paging_map-ok m directory virt phys flags p q = ground arith

map_range_loop_rejects :
    (left : ℕ) (m : Mem) (directory virt phys flags : ℕ)
    → (virt % 4096 ≢ 0) ⊎ (phys % 4096 ≢ 0)
    → map_range_loop left directory virt phys flags (minus einvarg, m) ≡ (minus einvarg, m)
unfolding map_range_loop
map_range_loop_rejects zero m directory virt phys flags h = refl
map_range_loop_rejects (suc left) m directory virt phys flags h =
    rw (paging_map_rejects m directory virt phys flags h) (
      map_range_loop_rejects left m directory (u32 (virt + 4096)) (u32 (phys + 4096)) flags
        (elim h [ inl a ↦ inl (omega arith) | inr a ↦ inr (omega arith) ]))

-- However many pages are asked for, if any, paging_map_range does what paging_map does for the first of them, and no
-- more: its loop ends where a page was mapped.
pub paging_map_range-paging_map :
    (m : Mem) (directory virt phys count flags : ℕ)
    → 0 < count
    → paging_map_range m directory virt phys count flags ≡ paging_map m directory virt phys flags
unfolding paging_map_range map_range_loop
paging_map_range-paging_map m directory virt phys zero flags h = absurd (omega arith)
paging_map_range-paging_map m directory virt phys (suc left) flags h =
    elim (ℕ_discrete (virt % 4096) 0) [
      | no p ↦ rw (paging_map_rejects m directory virt phys flags (inl p)) (
          map_range_loop_rejects left m directory (u32 (virt + 4096)) (u32 (phys + 4096)) flags
            (inl (omega arith)))
      | yes p ↦ elim (ℕ_discrete (phys % 4096) 0) [
        | no q ↦ rw (paging_map_rejects m directory virt phys flags (inr q)) (
            map_range_loop_rejects left m directory (u32 (virt + 4096)) (u32 (phys + 4096)) flags
              (inr (omega arith)))
        | yes q ↦ rw (paging_map-ok m directory virt phys flags p q)
      ]
    ]

-- paging_map on aligned addresses succeeds, and the processor then finds the physical page with the
-- flags at the virtual page, and what it found before at every other page.
pub paging_map_lem :
    (m : Mem) (directory virt phys flags : ℕ)
    → IsDirectory m directory
    → virt % 4096 ≡ 0
    → virt < 2 ^ 32
    → phys % 4096 ≡ 0
    → phys < 2 ^ 32
    → flags < 4096
    → let (res, m') = paging_map m directory virt phys flags in
      (res ≡ pos 0)
      × IsDirectory m' directory
      × ((w : ℕ)
          → w % 4096 ≡ 0
          → w < 2 ^ 32
          → page_entry m' directory w
            ≡ (if w == virt then phys + flags else page_entry m directory w))
paging_map_lem m directory virt phys flags v pv bv pp bp bf =
    let sum : bit_or phys flags ≡ phys + flags =
      ground (arith, bit_or-add 12 (phys / 4096) flags bf) in
    rw (paging_map-paging_set m directory virt phys flags pv pp, sum)
      (paging_set_lem m directory v virt (phys + flags) (omega arith) pv bv)

-- paging_map_to refuses a page, a frame or an end that is not aligned, and an end below the start, with
-- -EINVARG, and then the memory is as before.
pub paging_map_to_rejects :
    (m : Mem) (directory virt phys phys_end flags : ℕ)
    → ((virt % 4096 ≢ 0) ⊎ (phys % 4096 ≢ 0)) ⊎ ((phys_end % 4096 ≢ 0) ⊎ (phys_end < phys))
    → paging_map_to m directory virt phys phys_end flags ≡ (minus einvarg, m)
unfolding paging_map_to
paging_map_to_rejects m directory virt phys phys_end flags h = ground arith

paging_map_to-paging_map :
    (m : Mem) (directory virt phys phys_end flags : ℕ)
    → virt % 4096 ≡ 0
    → phys % 4096 ≡ 0
    → phys_end % 4096 ≡ 0
    → phys < phys_end
    → phys_end < 2 ^ 32
    → paging_map_to m directory virt phys phys_end flags ≡ paging_map m directory virt phys flags
unfolding paging_map_to
paging_map_to-paging_map m directory virt phys phys_end flags pv pp pe lt be = ground (
  arith,
  paging_map_range-paging_map m directory virt phys (sub32 phys_end phys / 4096) flags
      (omega arith),
)

-- In such a directory as paging_set needs (IsDirectory), for an aligned range of one page or more and flags in the lower
-- 12 bits, paging_map_to answers success and maps its first page only: the processor finds the same as before at every
-- other page, those of the range included.
pub paging_map_to_first_page :
    (m : Mem) (directory virt phys phys_end flags : ℕ)
    → IsDirectory m directory
    → virt % 4096 ≡ 0
    → virt < 2 ^ 32
    → phys % 4096 ≡ 0
    → phys_end % 4096 ≡ 0
    → phys < phys_end
    → phys_end < 2 ^ 32
    → flags < 4096
    → let (res, m') = paging_map_to m directory virt phys phys_end flags in
      (res ≡ pos 0)
      × IsDirectory m' directory
      × ((w : ℕ)
          → w % 4096 ≡ 0
          → w < 2 ^ 32
          → page_entry m' directory w
            ≡ (if w == virt then phys + flags else page_entry m directory w))
paging_map_to_first_page m directory virt phys phys_end flags v pv bv pp pe lt be bf =
    rw (paging_map_to-paging_map m directory virt phys phys_end flags pv pp pe lt be)
      (paging_map_lem m directory virt phys flags v pv bv pp (omega arith) bf)
