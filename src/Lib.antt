-- ===== src/Lib.antt =====
-- IcarusOS, a small kernel for the i386: what its C code does, as functions over its state.
--
-- The parts, and the files that model them (sources are under IcarusOS/):
--   Memory         the bytes behind C pointers, with memset and memcpy of util.c; load8, store8,
--                  load32 and store32 are the accesses of the i386, little-endian
--   Strings        strcmp, strcpy and strlen of util.c
--   OrderedArray   ordered_array.c: the array that the heap keeps its holes in; Spec has the lists
--                  that its operations stand for, Insert and Remove the proofs
--   Kernel         the globals that kheap.c, paging.c and task.c share, and commands over them: a
--                  command takes a Kernel and returns a result and a Kernel, or the way in which it
--                  stopped
--   Paging         paging.c: the bitset of frames, alloc_frame, free_frame and get_page; Entry has
--                  the bit fields of a page, Clone clone_table and clone_directory, Fault
--                  page_fault. Frames is about the bits, FirstFrame about the search, FrameAlloc
--                  and FrameFree about the two operations, Outside about the bytes that
--                  alloc_frame leaves alone, GetPage about new tables, Cloned and Shared about the
--                  copies
--   Startup        initialize_paging and switch_page_directory of paging.c; Tables is about the
--                  page tables of the heap
--   KHeap          kheap.c: create_heap, kmalloc and its variants, alloc; Search has its loops over
--                  the index, Resize expand and contract, Release free and kfree. Pieces describes
--                  a heap as blocks and holes in a row, WellFormed is the invariant, Create is
--                  about create_heap, Take, Carve and Alloc about alloc, Aligned, AlignedTake and
--                  AlignedAlloc its aligned case, Unify, Free, Freed and StaleFooter about free,
--                  RoundTrip about free behind alloc, Held, View and Client about runs of both,
--                  Placement about kmalloc before the heap and about rounding. The rest is about a
--                  heap that grows: Expand about expand, Endmost about the search for the endmost
--                  header, Grow, Grown, Extended and Overlap about a heap with holes, Fresh and
--                  Filled about one without
--   Task           task.c: the list of tasks, fork, switch_task and move_stack; Queue has the list
--                  as a sequence, Fork, Spawned, Switching and RoundRobin are about the operations,
--                  Relocate about the words of the moved stack, Pages and Moved about the rest of
--                  move_stack, Started about initialize_tasking
--   Screen         screen.c: cells, cursor and the port writes, which Cursor reads as a display
--                  does; Within is about how far a text reaches
--   Keyboard       keyboard.c: from scan codes to characters, echoed on the screen
--   Serial         serial.c: the port writes, and the wait for the line; Liveness is about its end
--   Timer          timer.c: the ticks, and the port writes that set the rate, which Divisor reads as
--                  an interval timer does
--   Interrupts     interrupt_handler of gdt_idt.c over the drivers; Handled is about each interrupt,
--                  Runs about whole runs of them
--   Initrd         initrd.c: files, directories and the search for a name; Initialize has the
--                  building of the nodes, which Nodes, Files and Populated are about; Reading and
--                  Finding are about initrd_read and initrd_finddir
--   Boot           kmain.c: the start of the kernel; Modules is about how it ends
--   Descriptors    the tables of gdt_idt.c, gdt.h and idt.h, and the port writes of pic.c
--   Fs             the dispatch of fs.c through a node's callbacks
--   Base           shared notation, lists, words, bits and the outcomes of a run
--
-- How they interact: alloc finds a hole through the index of holes, and grows the heap by expand, which
-- asks get_page for pages and alloc_frame for frames; get_page makes page tables by kmalloc_ap, which is
-- alloc again once there is a heap. kmalloc_int takes memory from the placement address before that.
-- fork clones the page directory by clone_directory, which takes tables by kmalloc_ap and frames by
-- alloc_frame. interrupt_handler calls the timer, the keyboard or page_fault; the first two write to
-- the screen. task.c and initrd.c take kmalloc as a parameter, and initialize_paging is given kheap.c's.
-- kmain sets up the descriptors and the devices, then paging, the heap and the tasks, and jumps to the
-- module that the loader has left in memory.
-- A function keeps the name that it has in C, in lower case with underscores where C has capitals, and
-- a loop or a branch that has a name here says in its comment which one it is. A 32-bit word is a
-- number, and its arithmetic wraps around by `% 2 ^ 32`, in add32, sub32 and mul32.
--
-- What stops a run is a value of Stop: a failed ASSERT, a PANIC, an access outside an array, a null
-- pointer, and the end of the fuel, which is the model's own. alloc takes fuel for its calls of
-- itself; one unit suffices when a hole fits, and two when the heap must grow into pages that have
-- page tables. The loops of expand and contract take as many rounds as there are pages below the
-- size, and strcpy and strlen suffice with more fuel than the string is long. A wait for the serial
-- line takes fuel for its reads of the status, the walk of fork as much as there are tasks, the last
-- loop of move_stack more than there are words, and the second loop of initialize_paging, whose end
-- moves as page tables are placed, fuel of its own.
--
-- The storage of the heap's index, and its heap_t, are a record beside the memory, so that a write
-- through a wild pointer does not reach them. Addresses of single fields are not wrapped around: the
-- theorems are about structures that lie below 2^32.
--
-- The registers of the processor are arguments and results where assembly statements read and load
-- them. The interrupt flag, the paging registers and the TLB are not modelled; memory is taken as
-- identity mapped. What is printed is modelled in kmain alone, with the texts of what it calls, and in
-- page_fault by its words.
--
-- Not modelled: the assembly files but for copy_page_physical of process.s; printf.c, a copy of a
-- third-party library, whose printf and sprintf are parameters; and multiboot.h and include/, which are
-- third-party headers. The program that kmain starts is a parameter too.
pub mod Base
pub mod Memory
pub mod OrderedArray
pub mod Kernel
pub mod Paging
pub mod KHeap
pub mod Screen
pub mod Keyboard
pub mod Descriptors
pub mod Strings
pub mod Task
pub mod Startup
pub mod Boot
pub mod Serial
pub mod Timer
pub mod Interrupts
pub mod Initrd
pub mod Fs
