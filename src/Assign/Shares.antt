-- ===== src/Assign/Shares.antt =====
-- nvm_tools-J/helper/replay.c: the first half of assign_params_per_worker (lines 573 to 623), which
-- appends every sector's container to the container of one worker.
pub mod Groups
pub mod Guards
pub mod Whole
use gogeta_fs_ae.Common.{
  ℕ, zero, suc, ◌+◌, ◌-◌, ◌*◌, ◌/◌, ◌%◌, ◌^◌, Bool, true, false, ◌&&◌, not, Option, none, some,
  List, [], ◌∷◌, ltb, leb, ◌==◌, length, get_elem?, set, Result, ok, err, out_of_bounds,
  div_by_zero, ◌>>=◌, read, if◌then◌else◌,
}
use gogeta_fs_ae.Container.{
  TraceContainer, default_collections_capacity, trace_container_create,
  trace_container_add_collection,
}
use gogeta_fs_ae.Gather.{Heap, found}

-- The workers' containers `params[i].tc` for `n` workers, from worker `i`.
unfoldable pub create_tcs : (n i : ℕ) → List TraceContainer
create_tcs zero i = []
create_tcs (suc n) i = trace_container_create default_collections_capacity i ∷ create_tcs n (suc i)

-- The loop's variables; `rands` counts the calls of rand.
pub record Shares : Type 0 where
  pub tcs : List TraceContainer
  pub heap : Heap
  pub cur_thread : ℕ
  pub cur_thread_lines : ℕ
  pub rands : ℕ

module _ (realloc : ℕ → Bool) (rand : ℕ → ℕ) (threads per_thread_lines : ℕ) where
  -- `cur_thread++; cur_thread_lines = 0;`
  abbrev pub next_worker : Shares → Shares
  next_worker s = record s { cur_thread = suc s.cur_thread; cur_thread_lines = 0 }

  -- `rand() % 100 < probability_assign_current`, a comparison of ints.
  unfoldable pub draw : Shares → (size : ℕ) → Shares
  draw s size =
      let probability : ℕ =
        (per_thread_lines + 2 ^ 64 - s.cur_thread_lines) % 2 ^ 64 * 100 % 2 ^ 64 / size % 2 ^ 32 in
      let drawn : Shares = record s { rands = suc s.rands } in
      if ltb probability (2 ^ 31) && ltb (rand s.rands % 100) probability
      then next_worker drawn
      else drawn

  -- The guards before the container is handed out.
  unfoldable pub before_add : Shares → (size : ℕ) → Result Shares
  before_add s size =
      if not (s.cur_thread == threads - 1)
        && ltb per_thread_lines ((size + s.cur_thread_lines) % 2 ^ 64)
      then (if size == 0 then err div_by_zero else ok (draw s size))
      else ok s

  -- The guards after it.
  unfoldable pub after_add : Shares → Shares
  after_add s =
      if not (s.cur_thread == threads - 1) && leb per_thread_lines s.cur_thread_lines
      then next_worker s
      else s

  -- One round of the loop, for the container behind `p`: it is freed once its traces are appended.
  unfoldable pub hand_out : Shares → ℕ → Result Shares
  hand_out s p = do
    collection ← found (get_elem? s.heap p)
    s' ← before_add s collection.size
    tc ← read (get_elem? s'.tcs s'.cur_thread)
    tc' ← trace_container_add_collection realloc tc collection
    ok (
        after_add (record s' {
          tcs = set s'.tcs s'.cur_thread tc';
          heap = set s'.heap p none;
          cur_thread_lines = (s'.cur_thread_lines + collection.size) % 2 ^ 64;
        }))

  unfoldable pub hand_out_all : Shares → List ℕ → Result Shares
  hand_out_all s [] = ok s
  hand_out_all s (p ∷ ps) = do s' ← hand_out s p; hand_out_all s' ps

-- `valid_lines / threads` and the loop over the buckets, whose values are `ptcs`.
unfoldable pub share_containers :
    (ℕ → Bool) → (ℕ → ℕ) → (threads valid_lines : ℕ) → Heap → List ℕ → Result Shares
share_containers realloc rand threads valid_lines heap ptcs =
    if threads == 0
    then err div_by_zero
    else hand_out_all realloc rand threads (valid_lines / threads)
        (record {
          tcs = create_tcs threads 0;
          heap = heap;
          cur_thread = 0;
          cur_thread_lines = 0;
          rands = 0;
        })
        ptcs
