-- ===== src/Prelude/Writer.antt =====
-- io.Writer, which the caller implements, and bytes.Buffer.
use Prim.Native.Nat.{ℕ, ◌≤◌}
use mathlib.Core.Path.{◌≡◌}
use mathlib.Core.Option.{Option, none}
use mathlib.Core.List.{◌++◌}
use objectfile.Prelude.Lists.{length, take}
use objectfile.Prelude.Bytes.{Bytes}

-- A state with a write: how many bytes it took, and its error if it has one.
pub record Writer (W E : Type 0) : Type 0 where
  pub write : W → Bytes → ℕ × Option E × W

-- The contract of an io.Writer: it appends the first `n` bytes to what it has taken so far, and
-- has an error wherever these are not all.
pub record IsWriter {W E : Type 0} (w : Writer W E) (taken : W → Bytes) : Type 0 where
  pub takes :
      (st : W) (chunk : Bytes)
      → taken (w.write st chunk).2 ≡ taken st ++ take (w.write st chunk).0 chunk
  pub takes_all :
      (st : W) (chunk : Bytes) → (w.write st chunk).1 ≡ none → (w.write st chunk).0 ≡ length chunk
  pub at_most : (st : W) (chunk : Bytes) → (w.write st chunk).0 ≤ length chunk

-- bytes.Buffer: a write appends all its bytes and has no error.
abbrev pub buffer_writer : Writer Bytes ⊥
buffer_writer = record { write = λ buf chunk. (length chunk, none, buf ++ chunk) }
