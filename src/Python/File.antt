-- ===== src/Python/File.antt =====
-- A file opened for reading: what is still to be read, and `tell()`.
use pyka.Common.{ℕ, ◌+◌, take, drop, length}
use pyka.Python.Struct.{Bytes}

pub record Stream : Type 0 where
  pub tell : ℕ
  pub rest : Bytes

-- f = open(path, "rb"); f.seek(at). A seek past the end reads nothing.
unfoldable pub open_at : Bytes → ℕ → Stream
open_at content at = record { tell = at; rest = drop at content }

-- f.read(n): at most `n` bytes
unfoldable pub read : ℕ → Stream → Bytes × Stream
read n f = (take n f.rest, record { tell = f.tell + length (take n f.rest); rest = drop n f.rest })
