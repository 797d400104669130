-- ===== src/Cuda/WorkQueue.antt =====
-- The launch of the persistent work-queue kernel (src/cuda/cuda_work_queue.cpp,
-- include/cycle_enum/cuda/cuda_work_queue.hpp). The configuration values are 32-bit.
use cycle_enumeration_gpu.Prelude.{
  ℕ, ◌*◌, ◌%◌, ◌^◌, ◌≤◌, ◌<◌, ◌≡◌, ◌↔◌, refl, false, ◌||◌, ◌==◌, if◌then◌else◌, min, inl, inr,
  Bool-cases, arith, Result, ok, ◌>>◌, throw_if, invalid_argument,
}
use native.Mathlib.Nat.{mod-eq_of_lt}

pub record WorkQueueLaunch : Type 0 where
  pub block_size : ℕ
  pub grid_blocks : ℕ

unfoldable pub plan_work_queue_launch : ℕ → ℕ → ℕ → ℕ → Result WorkQueueLaunch
plan_work_queue_launch work_item_count block_size blocks_per_sm sm_count = do
  throw_if (block_size == 0 || blocks_per_sm == 0 || sm_count == 0) invalid_argument
  if work_item_count == 0
      then ok (record { block_size = block_size; grid_blocks = 0 })
      else ok (record {
        block_size = block_size;
        grid_blocks = min (blocks_per_sm * sm_count) work_item_count % 2 ^ 32;
      })

-- For positive values with fewer than 2^32 resident blocks, the launch keeps the block size and has
-- the greatest number of blocks that are all resident at once and do not outnumber the work items; so
-- it fills the device where there is work enough.
pub plan_work_queue_launch_fills :
    (items block per_sm sms : ℕ)
    → 1 ≤ block
    → 1 ≤ per_sm
    → 1 ≤ sms
    → per_sm * sms < 4294967296
    → (launch : WorkQueueLaunch) × (plan_work_queue_launch items block per_sm sms ≡ ok launch)
      × (launch.block_size ≡ block)
      × ((blocks : ℕ)
          → (blocks ≤ launch.grid_blocks) ↔ ((blocks ≤ per_sm * sms) × (blocks ≤ items)))
unfolding plan_work_queue_launch
plan_work_queue_launch_fills items block per_sm sms b p s room =
    let accepted : (block == 0 || per_sm == 0 || sms == 0) ≡ false = ground arith in
    let resident = per_sm * sms in
    elim (Bool-cases (items == 0)) [
      | inl none ↦ (
        record { block_size = block; grid_blocks = 0 },
        rw (accepted, none) refl,
        refl,
        λ blocks. ((λ h. (omega (arith, h), omega (arith, h))), λ h. ground (arith, none, h.1)),
      )
      | inr some ↦
          let fits : min resident items % 4294967296 ≡ min resident items =
            mod-eq_of_lt (omega arith) in
          (
            record { block_size = block; grid_blocks = min resident items },
            rw (accepted, some, fits) refl,
            refl,
            λ blocks. ((λ h. (omega (arith, h), omega (arith, h))), λ h. omega (arith, h.0, h.1)),
          )
    ]
