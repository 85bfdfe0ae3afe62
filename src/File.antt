-- ===== src/File.antt =====
-- The destination file of a worker, as POSIX describes pwrite, write with O_APPEND and pread.
-- What the kernel answers is a parameter: each call transfers a number of bytes, or fails.
pub mod Write
use gogeta_fs_ae.Common.{
  ℕ, ◌+◌, ◌-◌, ◌^◌, Bool, Option, List, [], ◌∷◌, ◌++◌, length, take, drop, replicate, min,
}
use gogeta_fs_ae.Buffer.{patch}

pub data Answer : Type 0 where
  count : ℕ → Answer
  failed : Answer

-- A write behind the end of a file fills the gap with zeros.
unfoldable pub pad : List ℕ → ℕ → List ℕ
pad file ofs = file ++ replicate (ofs - length file) 0

unfoldable pub file_write : List ℕ → ℕ → List ℕ → List ℕ
unfolding patch pad
file_write file ofs bytes = patch (pad file ofs) ofs bytes

-- A call returns what it transferred, or -1, a ssize_t.
abbrev pub minus_one : ℕ
minus_one = 2 ^ 64 - 1

unfoldable pub pwrite : Answer → List ℕ → List ℕ → ℕ → List ℕ × ℕ
unfolding file_write
pwrite (count n) file bytes ofs =
    let sent = min n (length bytes) in (file_write file ofs (take sent bytes), sent)
pwrite failed file bytes ofs = (file, minus_one)

-- write() on a file opened with O_APPEND.
unfoldable pub write_append : Answer → List ℕ → List ℕ → List ℕ × ℕ
unfolding pwrite
write_append answer file bytes = pwrite answer file bytes (length file)

-- The bytes that are read; none of them means the end of the file.
unfoldable pub pread : Answer → List ℕ → (size ofs : ℕ) → Option (List ℕ)
pread (count n) file size ofs = Option.some (take (min n size) (drop ofs file))
pread failed file size ofs = Option.none
