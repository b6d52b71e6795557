-- ===== src/Lib.antt =====
-- A model of the kernel of LibreWin, librewin/base/txos, in which machine words are native numbers with
-- their wrap-around written out, memory is a function from addresses to bytes, and a routine that
-- changes state takes the state and gives the new one.
--
-- The parts, and the files that model them:
--
-- Prelude: the library names that the modules share, Boolean tests, lists, C integers and the bit operations.
-- Config: the constants of ke/config.h and ke/status.h, and the wrap-around of 32-bit words.
-- Memory: memset, memcmp and memcpy of ke/memory/memory.c; Memory/Words is a 32-bit word in memory.
-- Heap: the block allocator of ke/memory/heap/heap.c. The table is a function from block numbers to
--   entries, beside its length, so that a write past the end is visible. Heap/Live says which
--   allocations a table stands for, and Heap/Machine runs allocations and frees in any order.
-- Kheap: the kernel's one heap, ke/memory/heap/kheap.c, which sits on Heap and Memory, and the
--   interface Allocator, through which other parts use it.
-- Str: ke/string/string.c, with strtok in Str/Token. A loop up to a zero byte runs on fuel and gives `none` without
--   it; each such theorem says that any fuel above the length of the string is enough. Str/Words is the words of a text,
--   and Str/Cut the calls of strtok on it.
-- Paging: ke/memory/paging/paging.c over words in memory. Paging/Walk says what the processor reads from a directory. Paging/Chunk is paging_new_4gb and
--   paging_free_4gb over the kernel's heap, Paging/Identity one table that it fills, Paging/Round and Paging/Whole all of
--   them, and Paging/Create the directory. Kheap/Block says where a block of kzalloc stands in memory.
-- Gdt: ke/gdt/gdt.c. The bug check, which does not return, is `none`.
-- Terminal: the text terminal of init/kernel.c, on cells of video memory.
-- Debug: DbgPrint and DbgLog of init/kernel.c, as the bytes that go to the serial port.
-- Settings: strstr, fetchwh, contains_newline, IsBatFile, SetExecBuffer and snprintf of init/kernel.c.
--   Settings/Format, Settings/Rounds and Settings/Print are about snprintf.
-- Graphics: ke/graphics/graphics.c. What goes to ports is a list, the double buffer a function from pixels to colors.
-- Console: text on the graphics screen, init/kernel.c, over Graphics; Print is console_print, since print is the text
--   terminal's.
-- Keyboard: the keyboard interrupt of ke/idt/idt.c. What it calls are values, in order; the scancode that
--   the port gives is an argument.
-- Path: ke/fs/pparser.c. The allocator is an interface (Kheap.Allocator), Path/Served the heap of the kernel as one; the text of the path is memory that is only read.
-- Vfs: ke/fs/file.c and the disk of ke/disk/disk.c. A filesystem's functions are an interface (Vfs.Driver)
--   over the rest of the kernel; the path is parsed by Path.
-- Stream: the sectors of ke/disk/disk.c and the streams of ke/disk/streamer.c. The words that the drive's data
--   port gives are a parameter (Stream.Drive). A read runs on fuel, one for each sector.
-- Fat: ke/fs/fat/fat16.c, over Stream and Kheap. Directory items are bytes of the kernel's memory, the driver's own
--   structures are found by address in a store of each kind. Fat/Directory and Fat/File are the operations on
--   directories and on files; a read of a file runs on fuel, one for each cluster. An offset of 2 GB or more, a negative
--   `int`, is not modelled.
-- Tasks: ke/task/task.c. Page directories are an interface (Tasks.Pages).
-- Processes: ke/task/process.c. The heap is an interface, and so are task_new and the mapping of pages
--   (Processes.TaskPages).
-- Loader: the headers, the sections and the relocation of a PE image, init/loader.c. The relocation runs on fuel, one for
--   each block and one more.
-- Port: ke/port/accept.c. The handshake gives the status and the trace of what it does; what it asks is an
--   interface (Port.Port), of which the functions of the file are one implementation (Port.stubs).
-- Boot: kernel_main of init/kernel.c and paging_switch. The set-up of paging is computed on the kernel's heap; of the other
--   calls kernel_main makes, the order is modelled. What boot.ini holds is memory.
-- Shell: NsExec and the loop of KiUserInit of init/kernel.c, join_paths and LdrExecBat of init/loader.c, as traces of what is
--   shown and run. The loading of a program and the files are an interface (Shell.Services). A script runs on fuel; any
--   above its length by 30 is enough.
-- Ntdll: NtQuerySystemInformation, SystemPrint and the stubs of librewin/ntdll.c, compiled for 32-bit. A stub is its
--   instructions (Ntdll/Stubs).
-- Idt: the gates and the system calls of ke/idt/idt.c, and the codes and messages of ke/bug.c.
--
-- Not modelled: the assembly (boot sector, task return, interrupt stubs, port input and output), which is not C; the set-up
-- of the serial port, get_cpu_info and LoadPsfFont of init/kernel.c; LdrLoadPe of init/loader.c, which passes NULL for the
-- image it then works on; DllMain, NtDisplayString, NtAccessCheckByTypeResultList and the 64-bit branches of ntdll.c; and
-- the sample programs in librewin/applications.
pub mod Prelude
pub mod Boot
pub mod Config
pub mod Memory
pub mod Heap
pub mod Kheap
pub mod Shell
pub mod Str
pub mod Fat
pub mod Debug
pub mod Settings
pub mod Graphics
pub mod Loader
pub mod Processes
pub mod Console
pub mod Gdt
pub mod Paging
pub mod Terminal
pub mod Keyboard
pub mod Ntdll
pub mod Path
pub mod Vfs
pub mod Tasks
pub mod Port
pub mod Idt
pub mod Stream
