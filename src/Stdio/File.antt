-- ===== src/Stdio/File.antt =====
-- `struct _FridaFile` of lib/payload/libc-shim.c. A buffer is the list of its bytes, and a NULL one
-- the empty list; the functions of the other modules take the `File` that `frida_file_get_impl`
-- finds behind a stream, and return it changed.
use frida_core.Base.{ℕ, ◌≡◌, ◌≤◌, ◌<◌, Bool, true, false, List, [], length, replicate}
use frida_core.Posix.{Kernel}

-- _IONBF, _IOFBF and _IOLBF
pub data BufMode : Type 0 where
  unbuffered fully line : BufMode

-- What a function returns: 0, or -1 (EOF).
pub data Status : Type 0 where
  success failure : Status

abbrev pub is_unbuffered : BufMode → Bool
is_unbuffered unbuffered = true
is_unbuffered fully = false
is_unbuffered line = false

abbrev pub is_line : BufMode → Bool
is_line unbuffered = false
is_line fully = false
is_line line = true

abbrev pub stdio_bufsize : ℕ
stdio_bufsize = 4096

abbrev pub ungot_size : ℕ
ungot_size = 8

-- size_t has 64 bits.
abbrev pub size_mod : ℕ
size_mod = 18446744073709551616

pub record File : Type 0 where
  pub fd : ℕ
  pub close_fd : Bool
  pub buf_mode : BufMode
  pub eof : Bool
  pub err : ℕ
  pub rbuf : List ℕ
  pub owns_rbuf : Bool
  pub rcap : ℕ
  pub rpos : ℕ
  pub rlen : ℕ
  pub wbuf : List ℕ
  pub owns_wbuf : Bool
  pub wcap : ℕ
  pub wlen : ℕ
  pub ungot_buf : List ℕ
  pub ungot_len : ℕ

-- The positions lie in the buffers, and a buffered stream has room in both.
pub record IsFile (f : File) : Type 0 where
  pub rbuf_size : length f.rbuf ≡ f.rcap
  pub rpos_in : f.rpos ≤ f.rlen
  pub rlen_in : f.rlen ≤ f.rcap
  pub wbuf_size : length f.wbuf ≡ f.wcap
  pub wlen_in : f.wlen ≤ f.wcap
  pub ungot_buf_size : length f.ungot_buf ≡ ungot_size
  pub ungot_in : f.ungot_len ≤ ungot_size
  pub rcap_pos : is_unbuffered f.buf_mode ≡ false → 0 < f.rcap
  pub unread_none : is_unbuffered f.buf_mode ≡ true → f.rlen ≡ 0
  pub unwritten_none : is_unbuffered f.buf_mode ≡ true → f.wlen ≡ 0
  pub wcap_pos : is_unbuffered f.buf_mode ≡ false → 0 < f.wcap

module _ (k : Kernel) where
  open k use {malloc}

  -- `g_new0`, with its fields set before the buffers are allocated.
  empty_file : ℕ → Bool → BufMode → File
  empty_file fd close_fd mode = record {
    fd = fd;
    close_fd = close_fd;
    buf_mode = mode;
    eof = false;
    err = 0;
    rbuf = [];
    owns_rbuf = false;
    rcap = 0;
    rpos = 0;
    rlen = 0;
    wbuf = [];
    owns_wbuf = false;
    wcap = 0;
    wlen = 0;
    ungot_buf = replicate ungot_size 0;
    ungot_len = 0;
  }

  with_buffers : File → File
  with_buffers f = record f {
    rcap = stdio_bufsize;
    rbuf = malloc stdio_bufsize;
    owns_rbuf = true;
    wcap = stdio_bufsize;
    wbuf = malloc stdio_bufsize;
    owns_wbuf = true;
  }

  -- frida_file_new
  unfoldable pub file_new : ℕ → Bool → BufMode → File
  unfolding empty_file with_buffers
  file_new fd close_fd unbuffered = empty_file fd close_fd unbuffered
  file_new fd close_fd fully = with_buffers (empty_file fd close_fd fully)
  file_new fd close_fd line = with_buffers (empty_file fd close_fd line)
