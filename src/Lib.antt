-- ===== src/Lib.antt =====
-- SantOS: a model of the kernel's drivers, memory managers and library, and their laws.
--
-- SantOS is a 64-bit kernel in C that boots from a floppy. kernel.c starts the drivers, gives the
-- largest region of the BIOS memory map to the physical memory manager, starts the heap, mounts
-- the FAT12 volume and runs the shell from it. Programs reach the file system, the console, the
-- keyboard and the heap through system calls.
--
-- The parts, and where their code is modelled:
--   Fat12     src/fat12.c. Table: get_fat_entry, set_fat_entry and find_free_cluster over the
--             bytes of fat_buffer. Chain: the loop of fat12_delete that frees a chain. Name: the
--             conversion to 8.3 names that five functions repeat, and format_filename. Dir: the
--             loops over the 16 entries of a directory sector. Files: fat12_init, fat12_open,
--             fat12_create, fat12_update_size, fat12_delete and write_fat_table. Data: fat12_read
--             and fat12_write. Listing: fat12_list_root, fat12_list_dir and fat12_find_entry.
--             Disk: the calls of the floppy driver, as a parameter.
--   Fdc       src/fdc.c over the machine behind the ports, a parameter. Commands: fdc_reset,
--             fdc_recalibrate, fdc_seek, fdc_detect and fdc_init. Transfer: fdc_read_sectors and
--             fdc_write_sectors. Protocol: what a controller and a DMA channel are documented
--             to do with what is put to their ports, as the hypotheses of the theorems on
--             contents. Talks: what the driver puts to the ports.
--   Memory    src/memory.c: the bitmap, pmem_init, the allocation and freeing of pages. E820: the
--             BIOS memory map, and the choice of the region in kernel_main of kernel.c.
--   Heap      src/heap.c: the free list, malloc, free, realloc, calloc and heap_stats.
--   Keyboard  src/keyboard.c: the interrupt handler, the circular buffer and keyboard_getchar.
--   Vga       src/vga.c: the character cells, the cursor, and the bytes sent to the ports.
--   Strings   src/string.c over byte-addressed memory.
--   Numbers   src/ctype.c, and atoi, srand and rand of src/stdlib.c.
--   Printf    the conversions of integers in src/printf.c.
--   Stdio     src/stdio.c: gets, fgets and scanf.
--   Loader    src/loader.c over the FAT12 driver and the heap.
--   Timer     src/timer.c, with the interrupts as a list.
--   Syscall   src/syscall.c: get_cursor_pos and syscall_handler over the other components. A pointer
--             of the caller is an address in the bytes of the heap.
--   Fat16     src/fat16.c over the disk as a parameter: fat16_init, fat16_list_root, fat16_open and
--             fat16_read.
--   Fat32     src/fat32.c over the disk as a parameter. Chain: fat32_read along a chain.
--   Sasm      programs/sasm/sasm.c: the tokens of a line, the encoder, the loop over the lines, and
--             main over the calls that it makes of the user library. Stuck: the lines at which it
--             does not go on.
--   UserString  strncmp and strtok of programs/lib/string.c, which the programs have beside their
--             copies of the kernel's functions. Tokens: strtok on a string.
--   Prelude   tests, lists, words, signed differences, bit operations and finite tables.
--
-- How code becomes a definition: the static variables of a C file are a record, and a function
-- that changes them takes the record and returns it. A definition has the name of its C function;
-- a part of a function that has a definition of its own says which part it is. Words are natural
-- numbers, and an operation that can wrap round says so (u8, u16, u32, u64, sub32, sub64). A
-- return value -1 or NULL is none, false or 0 as the file says. Memory and sector buffers are
-- functions from addresses to bytes.
--
-- Fuel: a loop whose end the code does not bound takes a number of rounds, and none is a loop that
-- has used it up. Freeing a cluster chain takes 4096 rounds, more than a table has entries in
-- use, also where the chain is a cycle. fat12_read and fat12_write take more rounds than there are
-- bytes to move, the string functions one more than the string has characters, and the heap's
-- loops one more than the list has blocks. pmem_alloc_pages calls itself in an unchanged state, so
-- no fuel is enough where it does. fat12_list_dir and fat12_find_entry do not end on a directory
-- whose chain is a cycle of full sectors, nor do the loops of FAT32 over its root directory.
-- fat32_read takes more rounds than there are bytes to read. The waiting loops of the floppy
-- driver have the rounds that the code gives them, and fdc_read_sectors takes one round more
-- than there are sectors. The assembler takes one round more than the source has characters, and
-- goes round for ever where that is not enough. A system call hands its fuel to the loops of the
-- component that it calls.
--
-- Left out: what the functions print, but for the lines of a directory listing; the port input and
-- output of the ATA and interrupt drivers; the headers of heap blocks as bytes in memory, which
-- are kept by address; the times and dates of directory entries, which the code does not write;
-- what a call of the disk that fails has already put into its buffer, and for FAT16 and FAT32 the
-- buffer of a failed read. The counts of bytes that the file systems return are told before their
-- conversion to int, which the system calls and the loader then do.
-- Not modelled: src/vmm.c, the rest of src/printf.c, src/ata.c, src/idt.c, the rest of
-- programs/lib, and the programs shell and sedit.
pub mod Prelude
pub mod Fat12
pub mod Memory
pub mod Vga
pub mod Strings
pub mod Numbers
pub mod Heap
pub mod Printf
pub mod Keyboard
pub mod Sasm
pub mod Fdc
pub mod Stdio
pub mod Loader
pub mod Timer
pub mod UserString
pub mod Syscall
pub mod Fat16
pub mod Fat32
