-- ===== src/Ageing/Endless.antt =====
-- With more holes than pages the punching does not end.
use native.Mathlib.Nat.{mod-lt}
use gogeta_fs_ae.Common.{
  ℕ, zero, suc, ◌+◌, ◌%◌, ◌≤◌, ◌<◌, ◌≡◌, refl, ◌∙◌, Bool, true, false, some, List, ◌==◌, length,
  get_elem?, get_elem?-lt, set, length-set, replicate, length-replicate, err, out_of_fuel, >>=-err,
  arith,
}
use gogeta_fs_ae.Ageing.{holes, punch_hole, punch, punch_holes, Aged, Kernel, total, punch_phase}
use gogeta_fs_ae.Ageing.Punched.{
  punched_count, punched_count-set, punched_count-le, punch-recorded, punch-new,
}

module _ (rand : ℕ → ℕ) (fallocate_works : ℕ → Bool) (total_4K_blks : ℕ)
    (some_blks : 1 ≤ total_4K_blks) where
  punch-endless :
      (f calls h : ℕ) (records : List Bool) (file : List ℕ)
      → length records ≡ total_4K_blks
      → total_4K_blks < punched_count records + h
      → punch rand fallocate_works total_4K_blks f calls records h file ≡ err out_of_fuel
  unfolding punch
  punch-endless f calls zero records file size many =
      absurd (omega (arith, size, many, punched_count-le records))
  punch-endless zero calls (suc h) records file size many = refl
  punch-endless (suc f) calls (suc h) records file size many =
      let pos : ℕ = rand calls % total_4K_blks in
      let (x, at) = get_elem?-lt records pos (omega (arith, size, mod-lt (rand calls) some_blks)) in
      drawn x at (punch-endless f (suc calls) (suc h) records file size many) (λ new.
        punch-endless f (suc calls) h (set records pos true)
          (punch_hole rand fallocate_works total_4K_blks pos file)
          (length-set records pos true ∙ size)
          (omega (arith, many, punched_count-set records pos new)))
    where
      nonzero : (total_4K_blks == 0) ≡ false
      nonzero = ground (arith, some_blks)

      drawn :
          (x : Bool)
          → get_elem? records (rand calls % total_4K_blks) ≡ some x
          → punch rand fallocate_works total_4K_blks f (suc calls) records (suc h) file
            ≡ err out_of_fuel
          → (get_elem? records (rand calls % total_4K_blks) ≡ some false
              → punch rand fallocate_works total_4K_blks f
                  (suc calls)
                  (set records (rand calls % total_4K_blks) true)
                  h
                  (punch_hole rand fallocate_works total_4K_blks (rand calls % total_4K_blks) file)
                ≡ err out_of_fuel)
          → punch rand fallocate_works total_4K_blks (suc f) calls records (suc h) file
            ≡ err out_of_fuel
      drawn true at rest new =
          punch-recorded rand fallocate_works total_4K_blks f calls h records file nonzero at ∙ rest
      drawn false at rest new =
          punch-new rand fallocate_works total_4K_blks f calls h records file nonzero at ∙ new at

-- Where the holes asked for are more than the pages, of which there is at least one, the second phase
-- does not end, whatever the numbers drawn and however many.
pub punch_phase-endless :
    (k : Kernel) (fuel size_gib block_size hole_percent : ℕ) (files : Aged)
    → 1 ≤ total k fuel size_gib block_size hole_percent
    → total k fuel size_gib block_size hole_percent
      < holes (total k fuel size_gib block_size hole_percent) hole_percent
    → punch_phase k fuel size_gib block_size hole_percent files ≡ err out_of_fuel
unfolding punch_phase punch_holes
punch_phase-endless k fuel size_gib block_size hole_percent files some_blks many =
    let n = total k fuel size_gib block_size hole_percent in
    >>=-err _ (
      punch-endless k.rand k.fallocate_works n some_blks fuel 0 (holes n hole_percent)
        (replicate n false) files.file1 (length-replicate n false) (omega (arith, many)))
