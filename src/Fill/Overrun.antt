-- ===== src/Fill/Overrun.antt =====
-- The digests for which fill_blk does not stay inside its block.
use gogeta_fs_ae.Common.{
  ℕ, zero, suc, ◌+◌, ◌-◌, ◌*◌, ◌/◌, ◌≤◌, ◌<◌, ◌≡◌, ◌≢◌, ◌⊎◌, inl, inr, ap, sym, ◌∙◌, Option, none,
  if◌then◌else◌, ◌==◌, List, take, drop, length, ok, err, div_by_zero, out_of_bounds, Result, refl,
  subst, ◌>>=◌, >>=-ok, >>=-err, >>=-eq-ok, dec_lt, arith, length-take, length-drop,
}
use native.Mathlib.Nat.{div-le_self}
use gogeta_fs_ae.Buffer.{patch, write_bytes, length-patch, write_bytes-fits, write_bytes-overruns}
use gogeta_fs_ae.Fill.{RandGener, blk_size, copy_digest, fill_step, fill_steps, fill_blk}

-- A write that succeeds lies inside the buffer and keeps its size.
write_bytes-inside :
    (buf : List ℕ) (p : ℕ) (bytes : List ℕ) {out : List ℕ}
    → write_bytes buf p bytes ≡ ok out
    → (p + length bytes ≤ length buf) × (length out ≡ length buf)
write_bytes-inside buf p bytes h = elim (dec_lt (length buf) (p + length bytes)) [
  | yes over ↦ absurd (ground (arith, write_bytes-overruns buf p bytes over))
  | no within ↦
      let fits : p + length bytes ≤ length buf = omega arith in
      (fits, ground (arith, write_bytes-fits buf p bytes fits, length-patch buf p bytes fits))
]

copy_digest-eq :
    (f : ℕ) (buf : List ℕ) (blk j per_step : ℕ) (chunk : List ℕ)
    → j < per_step
    → copy_digest (suc f) buf blk j per_step chunk
      ≡ (write_bytes buf (blk + j) chunk >>= λ buf'. copy_digest f buf' blk (j + 32) per_step chunk)
unfolding copy_digest
copy_digest-eq f buf blk j per_step chunk h = ground arith

copy_digest-end :
    (f : ℕ) (buf : List ℕ) (blk j per_step : ℕ) (chunk : List ℕ)
    → per_step ≤ j
    → copy_digest (suc f) buf blk j per_step chunk ≡ ok buf
unfolding copy_digest
copy_digest-end f buf blk j per_step chunk h = ground arith

copy_digest-no_fuel :
    (buf : List ℕ) (blk j per_step : ℕ) (chunk : List ℕ) {out : List ℕ}
    → copy_digest 0 buf blk j per_step chunk ≢ ok out
unfolding copy_digest
copy_digest-no_fuel buf blk j per_step chunk h = cc

-- What a run with enough fuel comes to: a result, or an access out of bounds.
abbrev Ends : {A : Type 0} → Result A → Type 0
Ends {A} r = ((a : A) × (r ≡ ok a)) ⊎ (r ≡ err out_of_bounds)

Ends-then :
    {A B : Type 0} (r : Result A) (k : A → Result B)
    → Ends r
    → ((a : A) → Ends (k a))
    → Ends (r >>= k)
Ends-then r k (inl (a, e)) h = elim (h a) [
  | inl (b, e') ↦ inl (b, >>=-ok k e ∙ e')
  | inr e' ↦ inr (>>=-ok k e ∙ e')
]
Ends-then r k (inr e) h = inr (>>=-err k e)

write_bytes-Ends : (buf : List ℕ) (p : ℕ) (bytes : List ℕ) → Ends (write_bytes buf p bytes)
write_bytes-Ends buf p bytes = elim (dec_lt (length buf) (p + length bytes)) [
  | yes over ↦ inr (write_bytes-overruns buf p bytes over)
  | no within ↦ inl (patch buf p bytes, write_bytes-fits buf p bytes (omega arith))
]

copy_digest-Ends :
    (f : ℕ) (buf : List ℕ) (blk j per_step : ℕ) (chunk : List ℕ)
    → 1 ≤ f
    → per_step < j + f
    → Ends (copy_digest f buf blk j per_step chunk)
copy_digest-Ends zero buf blk j per_step chunk some_fuel enough = absurd (omega arith)
copy_digest-Ends (suc f) buf blk j per_step chunk some_fuel enough = elim (dec_lt j per_step) [
  | no done ↦ inl (buf, copy_digest-end f buf blk j per_step chunk (omega arith))
  | yes more ↦ subst Ends (sym (copy_digest-eq f buf blk j per_step chunk more)) (
      Ends-then (write_bytes buf (blk + j) chunk) _ (write_bytes-Ends buf (blk + j) chunk)
        (λ buf'. copy_digest-Ends f buf' blk (j + 32) per_step chunk (omega arith) (omega arith)))
]

-- If the memcpy loop succeeds, it keeps the buffer's size, and its round `r` lies inside the buffer.
copy_digest-inside :
    (f : ℕ) (buf : List ℕ) (blk j per_step : ℕ) (chunk : List ℕ) {out : List ℕ}
    → copy_digest f buf blk j per_step chunk ≡ ok out
    → length chunk ≡ 32
    → (length out ≡ length buf)
      × ((r : ℕ) → j + r * 32 < per_step → blk + j + r * 32 + 32 ≤ length buf)
copy_digest-inside zero buf blk j per_step chunk h c =
    absurd (copy_digest-no_fuel buf blk j per_step chunk h)
copy_digest-inside (suc f) buf blk j per_step chunk {out} h c = elim (dec_lt j per_step) [
  | no done ↦
      let same = sym (copy_digest-end f buf blk j per_step chunk (omega arith)) ∙ h in
      (ground (arith, same), λ r lt. absurd (omega arith))
  | yes more ↦
      let (buf', rest, e) =
        >>=-eq-ok _ _ (sym (copy_digest-eq f buf blk j per_step chunk more) ∙ h) in
      let (fits, size) = write_bytes-inside buf (blk + j) chunk e in
      let (size', later) = copy_digest-inside f buf' blk (j + 32) per_step chunk rest c in
      (size' ∙ size, rounds buf' fits size c later)
]
  where
    rounds :
        (buf' : List ℕ)
        → blk + j + length chunk ≤ length buf
        → length buf' ≡ length buf
        → length chunk ≡ 32
        → ((r : ℕ) → j + 32 + r * 32 < per_step → blk + (j + 32) + r * 32 + 32 ≤ length buf')
        → (r : ℕ) → j + r * 32 < per_step
        → blk + j + r * 32 + 32 ≤ length buf
    rounds buf' fits size c later zero lt = omega arith
    rounds buf' fits size c later (suc r) lt = omega (arith, later r (omega arith))

-- The numbers of steps that do not divide a block into whole chunks.
abbrev pub IsUnevenStep : ℕ → Type 0
IsUnevenStep step = (step ≡ 3) ⊎ ((step ≡ 5) ⊎ ((step ≡ 6) ⊎ (step ≡ 7)))

module _ {Ctx : Type 0} where
  fill_step-inside :
      (ctx : Ctx) (buf : List ℕ) (blk per_step : ℕ) (md5 : List ℕ) (out : List ℕ) (ctx' : Ctx)
      → fill_step none ctx buf blk per_step md5 ≡ ok (out, ctx')
      → 32 ≤ length md5
      → (length out ≡ length buf) × ((r : ℕ) → r * 32 < per_step → blk + r * 32 + 32 ≤ length buf)
  unfolding fill_step
  fill_step-inside ctx buf blk per_step md5 out ctx' h long =
      let (buf', same, e) =
        >>=-eq-ok (copy_digest (suc blk_size) buf blk 0 per_step (take 32 md5)) (λ b. ok (b, ctx))
          h in
      let (size, inside) =
        copy_digest-inside (suc blk_size) buf blk 0 per_step (take 32 md5) e
          (omega (arith, length-take 32 md5)) in
      let same_out : buf' ≡ out = ground (arith, same) in
      (ap length (sym same_out) ∙ size, λ r lt. omega (arith, inside r (omega arith)))

  fill_steps-Ends :
      (n : ℕ) (ctx : Ctx) (buf : List ℕ) (blk per_step : ℕ) (md5 : List ℕ)
      → per_step ≤ blk_size
      → Ends (fill_steps n none ctx buf blk per_step md5)
  unfolding fill_steps fill_step
  fill_steps-Ends zero ctx buf blk per_step md5 small = inl ((buf, ctx), refl)
  fill_steps-Ends (suc n) ctx buf blk per_step md5 small =
      Ends-then (fill_step none ctx buf blk per_step md5) _
        (Ends-then (copy_digest (suc blk_size) buf blk 0 per_step (take 32 md5)) _
          (copy_digest-Ends (suc blk_size) buf blk 0 per_step (take 32 md5) (omega arith)
            (omega arith))
          (λ buf'. inl ((buf', ctx), refl)))
        (λ done. fill_steps-Ends n done.1 done.0 (blk + per_step) per_step (drop 32 md5) small)

  -- If all steps succeed, the last one's round `r` lies inside the buffer.
  fill_steps-inside :
      (n : ℕ) (ctx : Ctx) (buf : List ℕ) (blk per_step : ℕ) (md5 : List ℕ) (done : List ℕ × Ctx)
      → fill_steps (suc n) none ctx buf blk per_step md5 ≡ ok done
      → suc n * 32 ≤ length md5
      → (r : ℕ) → r * 32 < per_step
      → blk + n * per_step + r * 32 + 32 ≤ length buf
  unfolding fill_steps
  fill_steps-inside zero ctx buf blk per_step md5 done h long r lt =
      let ((buf', ctx'), rest, e) = >>=-eq-ok (fill_step none ctx buf blk per_step md5) _ h in
      let (size, inside) = fill_step-inside ctx buf blk per_step md5 buf' ctx' e (omega arith) in
      omega (arith, inside r lt)
  fill_steps-inside (suc n) ctx buf blk per_step md5 done h long r lt =
      let ((buf', ctx'), rest, e) = >>=-eq-ok (fill_step none ctx buf blk per_step md5) _ h in
      let (size, inside) = fill_step-inside ctx buf blk per_step md5 buf' ctx' e (omega arith) in
      let later =
        fill_steps-inside n ctx' buf' (blk + per_step) per_step (drop 32 md5) done rest
          (omega (arith, length-drop 32 md5)) r lt in
      omega (arith, later, size)

  -- A digest of less than 32 characters traps: fill_blk divides by its number of steps, 0.
  pub fill_blk-short :
      (g : Option (RandGener Ctx)) (ctx : Ctx) (buf : List ℕ) (blk : ℕ) (md5 : List ℕ)
      → length md5 < 32
      → fill_blk g ctx buf blk md5 ≡ err div_by_zero
  unfolding fill_blk
  fill_blk-short g ctx buf blk md5 h =
      let none_left : length md5 / 32 ≡ 0 = omega arith in
      ap (λ n. if n == 0 then err div_by_zero else fill_steps n g ctx buf blk (blk_size / n) md5)
        none_left

  fill_blk-eq :
      (ctx : Ctx) (buf : List ℕ) (blk : ℕ) (md5 : List ℕ) (n : ℕ)
      → length md5 / 32 ≡ suc n
      → fill_blk none ctx buf blk md5 ≡ fill_steps (suc n) none ctx buf blk (blk_size / suc n) md5
  unfolding fill_blk
  fill_blk-eq ctx buf blk md5 n e =
      ap (λ n. if n == 0 then err div_by_zero else fill_steps n none ctx buf blk (blk_size / n) md5)
        e
      ∙ ground arith

  fill_blk-not_ok :
      (ctx : Ctx) (buf : List ℕ) (blk : ℕ) (md5 : List ℕ) (done : List ℕ × Ctx)
      → length buf ≡ blk + blk_size
      → IsUnevenStep (length md5 / 32)
      → fill_blk none ctx buf blk md5 ≢ ok done
  fill_blk-not_ok ctx buf blk md5 done last (inl e) h =
      let bound =
        fill_steps-inside 2 ctx buf blk (4096 / 3) md5 done
          (sym (fill_blk-eq ctx buf blk md5 2 e) ∙ h) (omega arith) 42 (omega arith) in
      omega arith
  fill_blk-not_ok ctx buf blk md5 done last (inr (inl e)) h =
      let bound =
        fill_steps-inside 4 ctx buf blk (4096 / 5) md5 done
          (sym (fill_blk-eq ctx buf blk md5 4 e) ∙ h) (omega arith) 25 (omega arith) in
      omega arith
  fill_blk-not_ok ctx buf blk md5 done last (inr (inr (inl e))) h =
      let bound =
        fill_steps-inside 5 ctx buf blk (4096 / 6) md5 done
          (sym (fill_blk-eq ctx buf blk md5 5 e) ∙ h) (omega arith) 21 (omega arith) in
      omega arith
  fill_blk-not_ok ctx buf blk md5 done last (inr (inr (inr e))) h =
      let bound =
        fill_steps-inside 6 ctx buf blk (4096 / 7) md5 done
          (sym (fill_blk-eq ctx buf blk md5 6 e) ∙ h) (omega arith) 18 (omega arith) in
      omega arith

  -- With no generator and a digest of 3, 5, 6 or 7 steps, fill_blk on the last block of a buffer writes
  -- behind the buffer.
  pub fill_blk-overruns :
      (ctx : Ctx) (buf : List ℕ) (blk : ℕ) (md5 : List ℕ)
      → length buf ≡ blk + blk_size
      → IsUnevenStep (length md5 / 32)
      → fill_blk none ctx buf blk md5 ≡ err out_of_bounds
  fill_blk-overruns ctx buf blk md5 last uneven =
      let steps : ℕ = length md5 / 32 - 1 in
      let some_step : length md5 / 32 ≡ suc steps = elim uneven [
        | inl e ↦ omega (arith, e)
        | inr (inl e) ↦ omega (arith, e)
        | inr (inr (inl e)) ↦ omega (arith, e)
        | inr (inr (inr e)) ↦ omega (arith, e)
      ] in
      let is_steps = fill_blk-eq ctx buf blk md5 steps some_step in
      elim (fill_steps-Ends (suc steps) ctx buf blk (blk_size / suc steps) md5
        (div-le_self blk_size (suc steps))) [
          | inl (done, e) ↦ absurd (fill_blk-not_ok ctx buf blk md5 done last uneven (is_steps ∙ e))
          | inr e ↦ is_steps ∙ e
        ]
