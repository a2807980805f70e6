-- ===== src/Lib.antt =====
-- OwOS, a kernel for i686: its memory managers and its heap, the tree under it, its keyboard, its
-- terminal, its timed events, the files of its ext2 file system, its scheduler and its strings.
--
-- src/kernel/memory/VirtualMemoryManager.cpp keeps two maps of virtual regions, one of the kernel's
-- half of the address space and one of the current process's. Each map is an AVL tree
-- (src/kernel/include/libk/AVLTree.hpp) ordered by virtual address. Interrupts of the PS/2 keyboard
-- (src/kernel/devices/PS2KeyboardDevice.cpp) put key events into a circular buffer
-- (src/kernel/include/libk/CircularBuffer.hpp), which src/kernel/devices/KeyboardDevice.cpp gives
-- to readers. The virtual console (src/kernel/include/tty/VirtualConsole.hpp) turns key events into
-- characters for the line discipline of src/kernel/tty/TTY.cpp, which shows them on
-- src/kernel/tty/Terminal.cpp.
--
-- The files and what they model:
--   * Common and its children: lists, tests, words of 32 bits, and `Result`, a value or the fault
--     that stops the kernel: a null pointer, a failed assertion, a panic, an access out of bounds.
--   * AvlTree: AVLTree.hpp. A node without its parent pointer is a `Tree`; the parents of a node up
--     to the root are a `Trail`. `AvlTree.insert`, `remove`, `find`, `find_by` and `traverse` are the methods
--     of these names, `find_by` the one with a comparator; the rotations, `update_height` and
--     `rebalance` have the names of the source. The order of the values is by a key.
--   * Libk/Math: src/kernel/include/libk/kmath.hpp at 32 bits. Libk/CircularBuffer: the circular buffer,
--     with its pointers as indices. Libk/Ctype: src/kernel/include/libk/kcctype.hpp and its table. Libk/Strings
--     and Libk/Copies: functions of src/kernel/libk/kcstring.cpp, by their names there, `strtoul` in the
--     steps `skip_space`, `read_base` and `read_digits`; `memcpy` is its portable version.
--   * Memory/Region: src/kernel/include/memory/definitions.hpp. Memory/Vmm: the maps, `traverse_all` with
--     its callback, `find_free_region`, `find_region` and `check_free`. Memory/Vmm/Regions: the
--     operations that change the maps, `map`, `unmap`, `allocate_region`, `map_region`, their variants
--     at a given address, and both methods named `free`.
--   * Memory/Physical: src/kernel/memory/PhysicalMemoryManager.cpp. A bitmap is its number of words and
--     its bits. `mark_span` is the loop over the pages in `mark_used` and `mark_free`, `free_pairs` and
--     `free_levels` are the other loops of `mark_free`, and `search` is the loop of `alloc`.
--   * Devices/KeyCode: src/kernel/include/devices/KeyCode.hpp. Devices/Keyboard: the interrupt handler,
--     `parse_modifiers`, `push` and `read`, with the tables in Devices/Keyboard/Tables.
--   * Terminal: the terminal, with the size of its console and a list of the calls made of it.
--     Terminal/Arguments: `parse_csi_arguments`, and `strtol` of src/kernel/libk/kcstdlib.cpp in base 10.
--     Terminal/Control: `echo` and all that it calls; the cases of the two switches on a final byte
--     are `EscapeCode` and `CsiFunction`, and `run_escape` and `run_csi` are the methods RI to DECRC and
--     CUU to DSR.
--     Terminal/Keys: `unecho` and `parse_key_event`. Terminal/Tty: src/kernel/tty/TTY.cpp, over the record
--     `Screen` of its two virtual methods, which Terminal/Tty/Display fills with the terminal's.
--   * Events: src/kernel/time/EventManager.cpp, with one queue of events; `insert_event` is the loop of
--     `schedule_on`, and `schedule_first` its branch that stops the timer.
--   * Heap: src/kernel/heap/BitmapHeap.cpp. The bitmap of ids is a function, `find_run` is the loop over
--     the blocks in `alloc`, `take_run` what it does with the run it has found, and `walk_down` and
--     `clear_run` are the loops of `free`. Heap/Alloc is about memory that needs no alignment, and
--     Heap/GiveBack about `free` of it. Heap/Kmalloc: `init`, `kmalloc` and `kfree` of
--     src/kernel/heap/kcmalloc.cpp.
--   * Ext2: src/kernel/filesystem/Ext2FileSystem.cpp, its `Ext2BlockIterator` with `update_triple`,
--     `update_double` and `update_single` for the three parts of `update_blocks`. The blocks of the device
--     are one function, which stands for src/kernel/filesystem/FileSystemCache.cpp too. Ext2/Files: the
--     inodes in their table and `Ext2File::read`. Ext2/Allocation: `allocate_blocks`, with `take_free` for
--     the loop over the blocks of a group, which has a round for each of them.
--   * Scheduler: src/kernel/processes/CoreScheduler.cpp, with `Mutex` of src/kernel/locking and the spinlock
--     of src/kernel/arch/i686. `visit_state` is the switch in the loop of `pick_next`, and `switch_states`
--     is what `tick` changes of the threads.
--   * Tests: the theorems at small inputs.
--
-- Integers are native numbers; those of the source wrap at 2 ^ 32, which `add32`, `sub32` and
-- `mul32` write out, and in Events at 2 ^ 64; an `int` is its word. Characters are bytes. Loops are
-- recursion on the tree, the string or the count, but for eleven that take fuel: the loop of
-- `traverse` has two rounds for each node and one more, since each node is pushed and popped once,
-- and the loop of `read` has one round for each byte asked for and one more, since a round reads
-- more than one byte; `parse_csi_arguments` has one round for each character and one more, since a
-- round reads one or more; `mark_span` and `free_pairs` have one for each bit of the span; `search`
-- has two for each block before the end of the window and two more, since it comes past each at most
-- twice, and a search that needs more does not end. In Heap, `find_run` has as many for the same
-- reason, and the loops over the blocks of a run have one for each block of the part. In Ext2/Files
-- the loop of `read` has one for each byte and one more, since a round reads one or more. In
-- Scheduler the loop of `pick_next` has (n + 1) ^ 2 for n threads, which is enough while none is
-- terminated; the loop of the source need not end otherwise.
--
-- Parameters of Memory/Vmm: the page tables (src/kernel/arch/i686/memory.cpp) and the physical
-- memory manager are what the record `Machine` says of them, a state of each and the calls; what a
-- timer's `stop()` gives is an argument in Events; the bytes of an event in memory are a function,
-- and each event has twelve.
--
-- Not modelled: waiting for a lock, since each operation here runs alone; the switch of contexts and
-- the signals of processes; the switch between memory spaces; the allocation and release of the
-- tree's nodes; the set-up of the physical memory manager; `krealloc` and `kcalloc`; the writes,
-- directories and mounting of ext2 and the rest of the file systems, the framebuffer console, the
-- loader, the drivers, and the programs of src/userland.
pub mod Common
pub mod AvlTree
pub mod Libk
pub mod Memory
pub mod Devices
pub mod Terminal
pub mod Events
pub mod Heap
pub mod Ext2
pub mod Scheduler
pub mod Tests
