-- ===== src/Stdio/Tests.antt =====
-- Runs of the streams, and the theorems at them.
use frida_core.Base.{none, ◌≡◌, refl, [], ◌∷◌, replicate, some, arith, true, false}
use frida_core.Io.{Returns, ◌>>=◌, pure}
use frida_core.Stdio.File.{fully, File, IsFile, line}
use frida_core.Stdio.Nointr.{retry, write_nointr}
use frida_core.Stdio.Buffer.{flush_loop, flush_write}
use frida_core.Stdio.Buffer.Flush.{FlushPost, flush_write-Returns}
use frida_core.Stdio.Output.{
  fwrite, fputs, write_bytes, buffered_loop, make_room, flush_line, contains,
}
use frida_core.Stdio.Output.Fwrite.{FwritePost, fwrite-FwritePost, FputsPost, fputs-FputsPost}
use frida_core.Stdio.Input.{getc, ungetc, fgets, fread}
use frida_core.Stdio.Input.View.{view}
use frida_core.Stdio.Input.Reads.{GetcPost}
use frida_core.Stdio.Input.Getc.{getc-GetcPost, ungetc-view}
use frida_core.Stdio.Input.Fgets.{FgetsPost, fgets-FgetsPost}
use frida_core.Stdio.Input.Fread.{FreadPost, fread-FreadPost}
use frida_core.Stdio.Utf8.{utf8_expected_len, announced, utf8_expected_len_lem}
use frida_core.Stdio.Setup.{setvbuf, SetvbufPost, setvbuf-SetvbufPost}
use frida_core.Stdio.Sim.{Sim, sim, sim_doc, sim_write}

-- A stream in the middle of its work: a byte pushed back, three read ahead, two waiting to be written.
abbrev busy : File
busy = record {
  fd = 5;
  close_fd = true;
  buf_mode = line;
  eof = false;
  err = 0;
  rbuf = 97 ∷ 98 ∷ 10 ∷ 99 ∷ [];
  owns_rbuf = true;
  rcap = 4;
  rpos = 1;
  rlen = 4;
  wbuf = 120 ∷ 121 ∷ 0 ∷ 0 ∷ [];
  owns_wbuf = true;
  wcap = 4;
  wlen = 2;
  ungot_buf = 122 ∷ replicate 7 0;
  ungot_len = 1;
}

busy-IsFile : IsFile busy
busy-IsFile = record {
  rbuf_size = refl;
  rpos_in = omega arith;
  rlen_in = omega arith;
  wbuf_size = refl;
  wlen_in = omega arith;
  ungot_buf_size = refl;
  ungot_in = omega arith;
  rcap_pos = λ _. omega arith;
  unread_none = λ e. ground arith;
  unwritten_none = λ e. ground arith;
  wcap_pos = λ _. omega arith;
}

abbrev world : Sim
world = record { pending = 1; input = 100 ∷ 10 ∷ 101 ∷ []; output = 1 ∷ [] }

flush_write-Returns_example :
    Returns (flush_write sim 20 busy world) (FlushPost sim sim_doc busy (1 ∷ []) world)
flush_write-Returns_example =
    flush_write-Returns sim sim_doc 20 busy world (omega arith) (omega arith) (omega arith)

fwrite-FwritePost_example :
    Returns
      (fwrite sim 20 (65 ∷ 66 ∷ 10 ∷ 67 ∷ 68 ∷ 69 ∷ []) 2 3 busy world)
      (FwritePost sim sim_doc 20 busy world (65 ∷ 66 ∷ 10 ∷ 67 ∷ 68 ∷ 69 ∷ []) 3)
fwrite-FwritePost_example =
    fwrite-FwritePost sim sim_doc 20 (65 ∷ 66 ∷ 10 ∷ 67 ∷ 68 ∷ 69 ∷ []) 2 3 busy world busy-IsFile
      (omega arith) (omega arith) (omega arith) (omega arith) (omega arith) (omega arith)

fputs-FputsPost_example :
    Returns
      (fputs sim 20 (65 ∷ 10 ∷ 66 ∷ []) busy world)
      (FputsPost sim sim_doc 20 busy world (65 ∷ 10 ∷ 66 ∷ []))
fputs-FputsPost_example =
    fputs-FputsPost sim sim_doc 20 (65 ∷ 10 ∷ 66 ∷ []) busy world busy-IsFile (omega arith)
      (omega arith) (omega arith) (omega arith)

getc-GetcPost_example : Returns (getc sim 20 busy world) (GetcPost sim sim_doc busy world)
getc-GetcPost_example = getc-GetcPost sim sim_doc 20 busy world busy-IsFile (omega arith)

ungetc-view_example :
    let (f', r) = ungetc (some 65) busy in
    (r ≡ some 65)
    × IsFile f'
    × (f'.eof ≡ false)
    × (view sim sim_doc f' world ≡ 65 ∷ view sim sim_doc busy world)
ungetc-view_example = ungetc-view sim sim_doc 65 busy world busy-IsFile (omega arith) (omega arith)

fgets-FgetsPost_example : Returns (fgets sim 20 8 busy world) (FgetsPost sim sim_doc busy world 8)
fgets-FgetsPost_example = fgets-FgetsPost sim sim_doc 20 8 busy world busy-IsFile (omega arith)

fread-FreadPost_example :
    Returns (fread sim 20 2 3 busy world) (FreadPost sim sim_doc busy world 2 3)
fread-FreadPost_example =
    fread-FreadPost sim sim_doc 20 2 3 busy world busy-IsFile (omega arith) (omega arith)
      (omega arith) (omega arith) (omega arith)

-- A line that crosses the buffer: what was waiting and the line go out, in order.
fwrite_runs :
    fwrite sim 20 (65 ∷ 66 ∷ 10 ∷ 67 ∷ 68 ∷ 69 ∷ []) 2 3 busy world
    ≡ some (
      (record busy { wbuf = 10 ∷ 67 ∷ 68 ∷ 69 ∷ []; wlen = 0 }, 3),
      record world { pending = 0; output = 1 ∷ 120 ∷ 121 ∷ 65 ∷ 66 ∷ 10 ∷ 67 ∷ 68 ∷ 69 ∷ [] },
    )
unfolding fwrite write_bytes buffered_loop make_room flush_line contains flush_write flush_loop
    write_nointr retry ◌>>=◌ pure sim_write
fwrite_runs = refl

setvbuf-SetvbufPost_example :
    Returns
      (setvbuf sim 8192 20 none fully 16 busy world)
      (SetvbufPost sim sim_doc 8192 busy world fully)
setvbuf-SetvbufPost_example =
    setvbuf-SetvbufPost sim sim_doc 8192 20 none fully 16 busy world busy-IsFile (omega arith) tt
      (omega arith) (omega arith)

utf8_expected_len_lem_example : utf8_expected_len 226 ≡ announced 226
utf8_expected_len_lem_example = utf8_expected_len_lem 226 (omega arith)
