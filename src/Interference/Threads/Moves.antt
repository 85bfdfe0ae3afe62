-- ===== src/Interference/Threads/Moves.antt =====
-- The moves of one thread.
use gogeta_fs_ae.Common.{ℕ, ◌≤◌, ◌≡◌, refl, ap, sym, subst, Bool, true, false, arith}
use gogeta_fs_ae.Interference.Threads.{
  Status, absent, created, ended, gave_up, stopped, writing, Thread, is_over, Move, begin,
  write_one, leave, give_up, stop,
}

-- A thread's status agrees with its progress.
abbrev pub OwnAt : (num_blocks progress : ℕ) → Bool → Status → Type 0
OwnAt n p c absent = p ≡ 0
OwnAt n p c created = p ≡ 0
OwnAt n p c (writing b) = (p ≡ b) × (b ≤ n)
OwnAt n p c ended = p ≡ n
OwnAt n p c gave_up = p ≤ n
OwnAt n p c stopped = (p ≤ n) × (c ≡ true)

abbrev pub Own : (num_blocks : ℕ) → Thread → Type 0
Own n t = OwnAt n t.progress t.cancelled t.status

pub Move-Own : {n : ℕ} {t t' : Thread} → Move n t t' → Own n t → Own n t'
Move-Own {n} {t} (begin e) o =
    let z = subst (OwnAt n t.progress t.cancelled) e o in (z, omega arith)
Move-Own {n} {t} (write_one e lt) o = (refl, omega (arith, lt))
Move-Own {n} {t} (leave e le) o =
    let w = subst (OwnAt n t.progress t.cancelled) e o in omega (arith, w.0, w.1, le)
Move-Own {n} {t} (give_up e) o =
    let w = subst (OwnAt n t.progress t.cancelled) e o in omega (arith, w.0, w.1)
Move-Own {n} {t} (stop e c) o =
    let w = subst (OwnAt n t.progress t.cancelled) e o in (omega (arith, w.0, w.1), c)

pub cancel-Own : (n p : ℕ) (c : Bool) (st : Status) → OwnAt n p c st → OwnAt n p true st
cancel-Own n p c absent o = o
cancel-Own n p c created o = o
cancel-Own n p c (writing b) o = o
cancel-Own n p c ended o = o
cancel-Own n p c gave_up o = o
cancel-Own n p c stopped o = (o.0, refl)

pub Own-le : (n p : ℕ) (c : Bool) (st : Status) → OwnAt n p c st → p ≤ n
Own-le n p c absent o = omega (arith, o)
Own-le n p c created o = omega (arith, o)
Own-le n p c (writing b) o = omega (arith, o.0, o.1)
Own-le n p c ended o = omega (arith, o)
Own-le n p c gave_up o = o
Own-le n p c stopped o = o.0

-- Only such a thread moves.
abbrev pub is_moving : Status → Bool
is_moving created = true
is_moving (writing b) = true
is_moving _ = false

pub Move-moving : {n : ℕ} {t t' : Thread} → Move n t t' → is_moving t.status ≡ true
Move-moving (begin e) = ap is_moving e
Move-moving (write_one e lt) = ap is_moving e
Move-moving (leave e le) = ap is_moving e
Move-moving (give_up e) = ap is_moving e
Move-moving (stop e c) = ap is_moving e

pub Move-cancelled : {n : ℕ} {t t' : Thread} → Move n t t' → t'.cancelled ≡ t.cancelled
Move-cancelled (begin e) = refl
Move-cancelled (write_one e lt) = refl
Move-cancelled (leave e le) = refl
Move-cancelled (give_up e) = refl
Move-cancelled (stop e c) = refl

pub over-not_moving : (st : Status) → is_over st ≡ true → is_moving st ≡ false
unfolding is_over
over-not_moving absent o = refl
over-not_moving created o = sym o
over-not_moving (writing b) o = sym o
over-not_moving ended o = refl
over-not_moving gave_up o = refl
over-not_moving stopped o = refl
