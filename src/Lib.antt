-- ===== src/Lib.antt =====
-- 256boss: the core of a small kernel for PC demos and games, from src/ of the repository.
--
-- The parts, each in the file named for it, with its theorems in the folder of that name:
-- - Timer (src/timer.c): alarms as a list of events, each with the ticks it comes after the one
--   before it. `set_alarm`, `cancel_alarm` and the interrupt handler work on that list.
-- - Pages (src/mem.c): the allocator of physical pages, a bitmap of 32-bit words with a hint where to
--   search. The interrupt flag is part of the state.
-- - Malloc (src/libc/malloc.c, the build with SINGLE_POOL): the pool of free blocks in order of their
--   addresses, over Pages, which gives it fresh pages.
-- - Calendar (src/libc/time.c, src/rtc.c): dates from seconds and back, and the decoding of the
--   clock's registers.
-- - Text (src/libc/ctype.c, src/libc/string.c) and Number (src/libc/stdlib.c): strings as lists of
--   bytes without the closing zero, and numbers read from and written to them.
-- - Keys (src/keyb.c, src/kbscan.h): the ring of key presses and the keyboard interrupt.
-- - Memfile and Memtree (src/fsmem.c): the files of the memory file system, and its tree of nodes. A
--   tree is described by the list of children of each directory (Memtree/Tree), and Memtree/Walk,
--   Create, Remove and Listing state what the operations do to it.
-- - Fat, FatFile, FatDir (src/fsfat.c): the FAT file system, which only reads. Fat has the volume
--   and its table, FatFile open files, FatDir directories and the opening of a path.
-- - Console (src/contty.c): the text screen and the registers of the display. Console/Shown states
--   what a terminal of 25 rows shows, and Console/Printing that the screen is one.
-- - Config (src/cfgfile.c): configuration options, over Text and Number.
-- - Dynarr (src/dynarr.c): resizable arrays.
-- - Printf (src/libc/stdio.c): printf and its kin, for any destination. Printf/Rendering says what the
--   directives of a format stand for, Printf/Output that this is what is written, and Printf/Screen
--   and Printf/Buffer what that means on the console and in a buffer.
-- - Sort (src/libc/stdlib.c): ins_sort and qsort. qsort takes the number of its rounds as an argument.
-- - Partitions (src/part.c): the partitions of a disk.
-- - Paths and Fs (src/fs.c): the names of a path, and the layer over the file systems: mounting, the
--   current directory, and their operations, which are a parameter of Fs.
-- - Files (src/libc/file.c): the files of the C library, over Fs. Files/Memory reads an open file of
--   Memfile through both.
-- - Mounts (src/mtab.c): the table of mounted file systems.
-- - Rand (src/libc/rand.c): random numbers.
-- Prelude has the numbers, lists and tests that all of them share, and Bits the bits of a word.
--
-- Numbers are natural numbers; where the code wraps around, the modulus is written out, and where it
-- does not fit a theorem bounds the values. A loop whose end is not plain from a list has a number
-- that bounds its rounds: the pages or words left in Pages, the value that is being divided in
-- Number, the days left in Calendar. The theorems state results, so these bounds are enough. The
-- chain of boot sectors in Partitions and the chain of clusters in FatDir can be cycles on a bad disk,
-- and the loop that parts the items in qsort may not end, so that their fuel is an argument; the
-- theorems say when it is enough and when none is. The format bounds the rounds in Printf, and the
-- number of children those of the loops along nodes in Memtree.
--
-- A panic is `none`. Ports, hardware registers and what BIOS calls return are parameters; where a
-- device only takes bytes, as the display and the serial port do, they are part of the state. Not
-- modelled: assembly, other drivers that only talk to ports, drawing, floating point, and the copies
-- of libpng, zlib and libdrawtext.
pub mod Prelude
pub mod Bits
pub mod Calendar
pub mod Config
pub mod Console
pub mod Dynarr
pub mod Fat
pub mod FatDir
pub mod FatFile
pub mod Files
pub mod Fs
pub mod Keys
pub mod Malloc
pub mod Memfile
pub mod Memtree
pub mod Mounts
pub mod Number
pub mod Pages
pub mod Partitions
pub mod Paths
pub mod Printf
pub mod Rand
pub mod Sort
pub mod Text
pub mod Timer
