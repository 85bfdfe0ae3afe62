-- ===== src/Worker/Spec.antt =====
-- What a replay is to do: the traces one at a time, each a block at its own offset.
use gogeta_fs_ae.Common.{
  ℕ, zero, suc, ◌*◌, ◌/◌, ◌^◌, ◌<◌, ◌≡◌, refl, ap, sym, ◌∙◌, Bool, Option, List, [], ◌∷◌, ◌++◌,
  ◌==◌, append_assoc, length, take, drop, select,
}
use gogeta_fs_ae.Trace.{TraceInfo}
use gogeta_fs_ae.File.{file_write}
use gogeta_fs_ae.Fill.{RandGener}
use gogeta_fs_ae.Fill.Content.{digest_block, IsEvenStep}
use gogeta_fs_ae.Worker.{Mode, write_only, read_write, append, char_w}

-- A trace as the parser leaves it: the offset is that of its sector of 512 bytes, far below the
-- wrap of an unsigned long, and the digest gives whole chunks.
pub record IsPlayable (x : TraceInfo) : Type 0 where
  pub digest : IsEvenStep (length x.md5 / 32)
  pub sector : x.ofs ≡ x.lba * 512
  pub small : x.lba < 2 ^ 54

abbrev pub AllPlayable : List TraceInfo → Type 0
AllPlayable [] = Unit
AllPlayable (x ∷ l) = IsPlayable x × AllPlayable l

pub AllPlayable-take : (k : ℕ) (l : List TraceInfo) → AllPlayable l → AllPlayable (take k l)
AllPlayable-take zero l h = tt
AllPlayable-take (suc k) [] h = tt
AllPlayable-take (suc k) (x ∷ l) h = (h.0, AllPlayable-take k l h.1)

pub AllPlayable-drop : (k : ℕ) (l : List TraceInfo) → AllPlayable l → AllPlayable (drop k l)
AllPlayable-drop zero l h = h
AllPlayable-drop (suc k) [] h = tt
AllPlayable-drop (suc k) (x ∷ l) h = AllPlayable-drop k l h.1

abbrev pub is_write : TraceInfo → Bool
is_write x = x.rw == char_w

module _ {Ctx : Type 0} (g : Option (RandGener Ctx)) (ctx₀ : Ctx) where
  -- The blocks of the traces, one behind the other.
  unfoldable pub blocks : List TraceInfo → List ℕ
  blocks [] = []
  blocks (x ∷ l) = digest_block g ctx₀ x.md5 ++ blocks l

  -- The traces replayed one at a time.
  unfoldable pub replay_all : List ℕ → List TraceInfo → List ℕ
  replay_all file [] = file
  replay_all file (x ∷ l) = replay_all (file_write file x.ofs (digest_block g ctx₀ x.md5)) l

  -- The file after the traces in each mode.
  unfoldable pub replayed : Mode → List ℕ → List TraceInfo → List ℕ
  replayed write_only file l = replay_all file l
  replayed append file l = file ++ blocks l
  replayed read_write file l = replay_all file (select is_write l)

  pub replay_all-append :
      (l r : List TraceInfo) (file : List ℕ)
      → replay_all file (l ++ r) ≡ replay_all (replay_all file l) r
  unfolding replay_all
  replay_all-append [] r file = refl
  replay_all-append (x ∷ l) r file =
      replay_all-append l r (file_write file x.ofs (digest_block g ctx₀ x.md5))

  pub blocks-append : (l r : List TraceInfo) → blocks (l ++ r) ≡ blocks l ++ blocks r
  unfolding blocks
  blocks-append [] r = refl
  blocks-append (x ∷ l) r =
      ap (λ b. digest_block g ctx₀ x.md5 ++ b) (blocks-append l r)
      ∙ sym (append_assoc (digest_block g ctx₀ x.md5) (blocks l) (blocks r))
