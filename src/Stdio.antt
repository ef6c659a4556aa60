-- ===== src/Stdio.antt =====
-- kernel/kernel/kernel_stdio.c: the buffers of the kernel's standard input and output.
-- Each array has 256 places; a length is a `uint16_t`.
pub mod Laws
mod Tests
use shawn_os.Prelude.{ℕ, zero, suc, ◌+◌, ◌%◌, ◌^◌, List, [], ◌∷◌, leb, if◌then◌else◌, get_or, set}

abbrev pub stdin_max_buffer : ℕ
stdin_max_buffer = 256

abbrev pub stdout_max_buffer : ℕ
stdout_max_buffer = 256

pub record Stdio : Type 0 where
  pub stdin : List ℕ
  pub stdout : List ℕ
  pub stdin_length : ℕ
  pub stdout_length : ℕ

unfoldable pub stdin_flush : Stdio → Stdio
stdin_flush s = record s { stdin_length = 0 }

unfoldable pub stdout_flush : Stdio → Stdio
stdout_flush s = record s { stdout_length = 0 }

unfoldable pub stdin_writechar : ℕ → Stdio → Stdio
stdin_writechar c s =
    let t = if leb stdin_max_buffer s.stdin_length then stdin_flush s else s in
    record t { stdin = set t.stdin t.stdin_length c; stdin_length = (t.stdin_length + 1) % 2 ^ 16 }

unfoldable pub stdout_writechar : ℕ → Stdio → Stdio
stdout_writechar c s =
    let t = if leb stdout_max_buffer s.stdout_length then stdout_flush s else s in
    record t {
      stdout = set t.stdout t.stdout_length c;
      stdout_length = (t.stdout_length + 1) % 2 ^ 16;
    }

-- The string is the list of its first `length` characters.
unfoldable pub stdout_writestring : List ℕ → Stdio → Stdio
stdout_writestring [] s = s
stdout_writestring (c ∷ str) s = stdout_writestring str (stdout_writechar c s)

-- libsc/string/strncpy.c: `n` characters, whatever they are, from index `i` on.
unfoldable pub strncpy : ℕ → ℕ → List ℕ → List ℕ → List ℕ
strncpy zero i dest src = dest
strncpy (suc n) i dest src = strncpy n (i + 1) (set dest i (get_or src i 0)) src

-- The caller's buffer, the length, and the state.
unfoldable pub stdout_get : List ℕ → Stdio → List ℕ × ℕ × Stdio
stdout_get buffer s = (strncpy s.stdout_length 0 buffer s.stdout, s.stdout_length, stdout_flush s)
