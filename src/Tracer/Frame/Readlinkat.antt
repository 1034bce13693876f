-- ===== src/Tracer/Frame/Readlinkat.antt =====
-- The buffer of a readlinkat, from the program on entry to the one on exit, in
-- src/linux/helpers/syscall-tracer.bpf.c.
use frida_core.Base.{ℕ, ◌+◌, ◌++◌, if◌then◌else◌, [], ◌∷◌, ◌==◌}
use frida_core.Tracer.{Env, Attachment, text}

-- The attachment of argument 2 with `len` bytes of the user's buffer and a terminator
abbrev pub link_attachment : Env → ℕ → ℕ → Attachment
link_attachment env ptr len = record {
  type = text;
  arg_index = 2;
  capacity = 256;
  size = len + 1;
  content = (if len == 0 then [] else env.read_user ptr len) ++ 0 ∷ [];
}
