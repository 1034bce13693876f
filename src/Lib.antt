-- ===== src/Lib.antt =====
-- A verification library for the C parts of frida-core that have logic of their own.
--
-- Posix.antt is the interface to the operating system and the allocator: the calls are the fields of
-- the record `Kernel`, what POSIX and GLib document of them is the record `Documented`, and every
-- definition that makes a call takes a `Kernel`. Io.antt is the state monad of that code, whose
-- `none` says that a loop used up its fuel; `Returns o P` says that a run ends and that its result
-- meets `P`, so that no theorem is met by a run that does not end.
--
-- Stdio is the stdio of lib/payload/libc-shim.c. `File` (Stdio/File) is `struct _FridaFile` with all
-- of its fields; a buffer is the list of its bytes and NULL is the empty list. The functions take the
-- `File` that frida_file_get_impl finds behind a stream and return it changed: Stdio/Nointr has the
-- wrappers frida_*_nointr, Stdio/Buffer frida_file_flush_write and frida_file_fill_read, Stdio/Output
-- fwrite, fputc and fputs, Stdio/Input getc_unlocked, ungetc, fgets and fread, Stdio/Setup setvbuf
-- and its kin, Stdio/Close fclose, Stdio/Utf8 frida_utf8_expected_len. A size_t has 64 bits.
-- Reading and writing share the record, with the descriptor and the error indicator `err`. The number `fuel` bounds the rounds of each loop: it is enough if it exceeds
-- the signals still to come, the capacity of the buffer and the number of bytes asked for, since each
-- round that is no interruption moves at least one byte.
--
-- Der is the DER writer of lib/base/p2p-glue.c, with the certificate in Der/Certificate; the key, the
-- signer, the clock and its calendar are parameters. Der/Decode is a reader after X.690, which the
-- source does not have: the specification. Trie is frida_exports_trie_find and frida_read_uleb128 of
-- src/fruity/helpers/symbol-resolver.c; Trie/Layout says when bytes stand for a prefix tree. The fuel of
-- the walk bounds the nodes that it passes, and the height of the tree is enough.
--
-- Elf is src/linux/helpers/elf-parser.c on a 64-bit target: Elf the program headers, Elf/Symbols the
-- soname, the exports and the symbols. The structs that stand in memory are a parameter, `Memory`;
-- Elf/Listing describes the same tables as lists. Its loops are counted and need no fuel.
--
-- Loader is src/linux/helpers/loader.c: Loader the messages, Loader/Main the thread, cut where it jumps
-- to `beach`. The C library and the agent are a parameter, `Libc`; Loader/Ledger counts the descriptors
-- handed out, closed and taken over by the agent of lib/agent/agent.vala. The fuel of a transfer bounds its rounds, each of which moves a byte, and no
-- message has 2 ^ 16 bytes or more.
--
-- Tracer is src/linux/helpers/syscall-tracer.bpf.c: Tracer its records and maps, Tracer/Gate what every
-- program does first, Tracer/Attach the attachments, Tracer/Enter and Tracer/Exit the programs of a
-- syscall, Tracer/Mappings those of a mapping and Tracer/Path the text of a path. The record `Env` is what
-- a run reads: the maps that only the user writes and the helpers of the kernel, with the outcome of every
-- reservation. A run of a program is one step on `State`; Tracer/Run has the steps of any threads and of
-- the user, src/linux/syscall-tracer.vala. Two runs at once on different processors, a read of the
-- kernel's own memory that fails and the bytes of a record that are not written are left out.
--
-- Upload is the fixups of src/fruity/helpers/upload-receiver.c on the memory of the process, a function from
-- addresses to bytes: Upload the loops over chains of slots (Upload/Chain and Upload/Walk are about
-- them), Upload/Items what is made of one slot (Upload/Threaded and Upload/Chained describe it by its
-- bit fields, Upload/Same sets the two ways side by side), Upload/Image the imports of an image. The
-- linker, the fields of mach-o/loader.h and the signing of pointers are parameters. The fuel bounds the
-- slots of a chain. An address is not wrapped, and the loop over a chain takes the table of the bound
-- pointers as it was before. The loops over the regions of threaded items and over the pages and segments
-- of an image, which read their own tables while they write slots, are left out. Upload/Transfer has the
-- reads and writes of a socket, a parameter; their fuel bounds the bytes and the interruptions.
--
-- Not modelled: the parts in Vala, Objective-C, Go and Rust, and the C parts that only call a platform
-- library (GLib, OpenSSL, usrsctp, libsepol, the Windows and QNX interfaces); memory that is released,
-- and the locks around the tables of streams.
pub mod Base
pub mod Io
pub mod Posix
pub mod Stdio
pub mod Der
pub mod Elf
pub mod Loader
pub mod Tracer
pub mod Trie
pub mod Upload
