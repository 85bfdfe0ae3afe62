-- ===== src/Order.antt =====
-- nvm_tools-J/helper/replay.c: trace_container_cmp, by which the containers are sorted. The difference
-- is an unsigned long, of which the returned int keeps 32 bits.
use gogeta_fs_ae.Common.{ℕ, ◌+◌, ◌-◌, ◌%◌, ◌^◌, ◌≡◌, ◌≤◌, ◌<◌, ◌↔◌, arith, Bool, true, leb, ltb}

unfoldable pub trace_container_cmp : ℕ → ℕ → ℕ
trace_container_cmp lba_a lba_b = (lba_a + 2 ^ 64 - lba_b) % 2 ^ 64 % 2 ^ 32

-- An int, given by its 32 bits, below zero.
abbrev pub is_negative : ℕ → Bool
is_negative i = leb (2 ^ 31) i

-- Sectors that are less than 2 ^ 31 apart compare as their numbers do.
pub trace_container_cmp-near :
    (a b : ℕ)
    → a < 2 ^ 64
    → b < 2 ^ 64
    → a < b + 2 ^ 31
    → b ≤ a + 2 ^ 31
    → (is_negative (trace_container_cmp a b) ≡ ltb a b) × ((trace_container_cmp a b ≡ 0) ↔ (a ≡ b))
unfolding trace_container_cmp
trace_container_cmp-near a b ha hb hab hba =
    (ground arith, (λ e. omega (arith, e), λ e. omega (arith, e)))

-- Sectors that are between 2 ^ 31 and 2 ^ 32 apart compare the wrong way round.
pub trace_container_cmp-far :
    (a b : ℕ)
    → a < 2 ^ 64
    → b + 2 ^ 31 ≤ a
    → a < b + 2 ^ 32
    → is_negative (trace_container_cmp a b) ≡ true
unfolding trace_container_cmp
trace_container_cmp-far a b ha low high = ground arith
