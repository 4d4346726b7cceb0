-- ===== src/Lib.antt =====
-- Pintos with priority scheduling, user programs and a file system with indexed inodes.
--
-- The parts that are modelled, from the bottom up, and the files that model them:
--
--   Klib/Bitmap        src/lib/kernel/bitmap.c: arrays of bits in 32-bit elements. Each C function
--                      has a definition of its name; ranges wrap as `size_t` does.
--   Klib/OrderedList   src/lib/kernel/list.c: the list functions that the scheduler uses, on the
--                      sequence of a list's elements.
--   Klib/Sequence      src/lib/kernel/list.c: the other functions on sequences.
--   Klib/Links         src/lib/kernel/list.c: the links of lists in memory, between the list's two ends, and how
--                      the functions on links stand for those on sequences.
--   Klib/Hash          src/lib/kernel/hash.c: hash tables with their buckets as lists, resizing, and the hash
--                      functions for bytes and strings.
--   Clib/Sorting       src/lib/stdlib.c: heap sort and binary search.
--   Clib/Text          src/lib/string.c: copying, comparing and searching on the bytes of an object.
--   Clib/Search        src/lib/string.c: searches for sets of characters and strings, and `strlcat`.
--   Clib/Move          src/lib/string.c: `memmove`, on one object and offsets in it.
--   Clib/Tokens        src/lib/string.c: `strtok_r`, on an object and offsets in it.
--   Clib/Arithmetic    src/lib/arithmetic.c: 64-bit division from a 64-by-32-bit one.
--   Devices/Block      src/devices/block.c: a device is its size, the bytes of each sector, and the
--                      counts of reads and writes.
--   Devices/Intq       src/devices/intq.c: the ring of bytes between interrupt handlers and threads, with the
--                      threads that wait.
--   Filesys/Inode      src/filesys/inode.c and inode.h: inodes on disk and in memory,
--                      `byte_to_sector` and `inode_read_at`.
--   Filesys/Write      `inode_write_at` of src/filesys/inode.c, with its loop cut into rounds.
--   Filesys/FreeMap    src/filesys/free-map.c: allocation and release of sectors. The free map is a
--                      bitmap in memory and a file on the device that it maps.
--   Filesys/Open       the list of open inodes of src/filesys/inode.c: opening, closing, removing and
--                      denying writes.
--   Filesys/File       src/filesys/file.c: the position in an open file.
--   Filesys/Handle     src/filesys/file.c: opening and closing files and denying writes, on the table of open inodes.
--   Threads/Scheduler  src/threads/thread.c and thread.h: the states of threads, the ready list and
--                      the switch.
--   Threads/Current    src/threads/thread.c: the questions about the running thread.
--   Threads/Palloc     src/threads/palloc.c and vaddr.h: the pools of pages.
--   Threads/Synch      src/threads/synch.c: semaphores, and locks as a step relation.
--   Userprog/Arguments src/userprog/process.c: the bytes that `setup_stack` pushes for given arguments.
--   Userprog/CommandLine  src/userprog/process.c: `setup_stack` from the mapped page to the end: the copy of
--                      the command line, which goes a byte behind its array, and what is pushed from memory that
--                      holds the line.
--   Userprog/Segments  src/userprog/process.c: `validate_segment`, `load_segment`, and the case PT_LOAD of `load`, over
--                      any memory and file.
--   Userprog/Descriptors  src/userprog/syscall.c: the calls on open files, over any file system;
--                      Descriptors/Model has the map from descriptors to files that they stand for.
--
-- Base holds what they share: Boolean tests, lists with native indices, bits of words, bytes of
-- words, slices, and `Run`, the outcome of C code. `panic` is a failed ASSERT or a PANIC, `fault` an access
-- outside an object or through a null pointer, `out_of_fuel` a loop or a recursion that the model
-- has cut off, or a wait for `sema_files` that nobody would end.
--
-- How the parts interact. `inode_write_at` calls `free_map_allocate` to grow a file, and
-- `free_map_allocate` writes the map by `inode_write_at`. Filesys/Write therefore takes the allocator as an
-- argument, and Filesys/FreeMap closes the circle, with a bound on how deep the calls nest; depth 1 is
-- enough when the map's file has its full size, since then no write grows it. Filesys/FreeMap/Growing shows when
-- the allocator gives what a write at the end of a file asks for. The loops of
-- reading and writing have one more round of fuel than there are bytes, since each round but the
-- last moves at least one. The scheduler and the tables hold their lists as sequences of elements; Klib/Links
-- has the same functions on links. The loops over a list in memory take more fuel than there are
-- elements, `heapify` has one more round than there are elements, since its index doubles, and
-- `binary_search` and the rounding of a table's size have as many as there are elements, since each round
-- leaves fewer. Threads/Palloc stands on Klib/Bitmap, and Devices/Intq on the scheduler.
-- Userprog/CommandLine cuts the command line by Clib/Tokens and hands the tokens to Userprog/Arguments.
-- Userprog/Descriptors takes the file system and the console as a record of operations, `Files`, over a state of
-- any type, and Userprog/Segments the pages and the file as `Loader`. The loop of `load_segment` has one more round
-- of fuel than there are pages to load, since each round loads one.
--
-- Taken as arguments: whether `malloc`, `calloc` and `palloc_get_page` give memory, and what the memory
-- holds where the code reads it before writing, as in the array for the copy of the command line; the bytes that lie beside the ready list, which
-- `thread_yield` reads when the list is empty; the hash functions and comparisons that the users of
-- tables, arrays and lists give; the processor's division `divl`. The device's driver is taken to store and give back sectors.
--
-- Not modelled: offsets, sizes and priorities below zero; the number `magic` by which `is_thread` recognises a
-- thread, and the field `is_dir` of an inode in memory, which inode.c never names (Userprog/Descriptors takes it as a
-- question to the file system); the drivers, the console and the machine set-up, which
-- are input and output; stack frames and page directories of threads; the start of the page allocator,
-- and `malloc`; creation of inodes, directories, the other system calls, the rest of the loading of programs and of the
-- C library; the tests, the example programs and the scripts that run the simulator.
pub mod Base
pub mod Klib
pub mod Clib
pub mod Devices
pub mod Filesys
pub mod Threads
pub mod Userprog
