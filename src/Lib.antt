-- ===== src/Lib.antt =====
-- Models and theorems for the ArcaneOS kernel, kernel/src in the repository.
--
-- The kernel starts from a boot loader's memory map, takes over memory (mm), the processor's
-- tables and interrupts (arch/x86_64), and then runs threads on all processors. Each part is a
-- tree of modules here; machine words are numbers with their wrap-around written out, memory is a
-- function from addresses, and a call that does not return, or runs into a failed assertion or a
-- null pointer, is `none`.
--
-- Prelude: tests, words, the bitwise operations and lists, shared by all.
-- Strings: kernel/src/lib/string.c over byte memory. The `int` counters of the loops over
-- strings are fuel of 2 ^ 31 rounds: a longer string overflows the counter in the code.
-- Mm.Page: the macros of kernel/src/include/mm/pmm.h and kernel/src/include/arch/mmu.h.
-- Mm.Pmm: kernel/src/mm/pmm.c. The state is the bitmap, its place, its size and the cursor;
-- pmm_bitmap_get, pmm_bitmap_set, pmm_bitmap_clear, pmm_alloc, pmm_free and pmm_init keep their
-- names. The search has fuel 2 ^ 52: no page above that number has an address of 64 bits.
-- Rings: the fields that link nodes both ways, as maps from addresses, and kernel/src/lib/list.c
-- on them, over an allocator.
-- Mm.Vmm: kernel/src/mm/vmm.c. The fields of regions and address spaces are maps from addresses,
-- beside the Machine of Arch.Mmu; searches have fuel 2 ^ 52, for a region takes a page.
-- Mm.Slab: kernel/src/mm/slab.c and `clamp` of kernel/src/include/lib/math.h. The fields of
-- slabs and caches are maps from addresses; the other allocators are parameters. Only one
-- processor runs: to acquire a lock that is held fails. slab_alloc has fuel, for a new slab takes
-- its structure from a cache; one round is enough where the magazine is not empty. A store behind
-- the 32 places of a magazine fails.
-- Mm.Alloc: kernel/src/mm/alloc.c, over an interface `Backing` to the calls of the slab caches
-- and the virtual regions.
-- Fs.Vfs and Fs.Tmpfs: kernel/src/fs/vfs.c and kernel/src/fs/tmpfs.c. Names and paths are bytes of
-- memory, the other fields maps from addresses; calls through function pointers are a parameter.
-- The mounts have fuel 2 ^ 64, more than there are addresses, and a path 2 ^ 31, which is what the
-- functions on strings can walk.
-- Sys: kernel/src/sys, kernel/src/arch/generic/smp.c and the structures of
-- kernel/src/include/arch/smp.h and kernel/src/include/arch/context.h. The rings of the processors
-- are those of Rings.KernelList. The loop that waits for the other processors has fuel, and they
-- run while it pauses. Sys.Boot: kernel/src/entry.c and kernel/src/arch/x86_64/arch.c.
-- Arch.Mmu: mmu_map and mmu_get_page of kernel/src/arch/x86_64/mmu.c on memory of 64-bit words;
-- the walks are over the four levels and need no fuel. A new table comes from Mm.Pmm.
-- Arch.Gdt: kernel/src/arch/x86_64/gdt.c, the tables of each processor.
-- Arch.Apic and Arch.Ioapic: the two halves of kernel/src/arch/x86_64/apic.c, as lists of stores;
-- what reads registers is in Arch.Apic.Setup, over the devices as parameters.
-- Arch.Acpi: kernel/src/arch/x86_64/acpi.c over bytes; the loop has an `int` counter and no fuel.
-- Arch.Madt: kernel/src/arch/x86_64/madt.c over bytes; its loop has fuel 2 ^ 64, more than a table
-- has bytes. What madt_init writes behind the 32 places of a vector is not part of the state.
-- Arch.Ports and Arch.Msr: kernel/src/arch/x86_64/ports.c, serial.c and cpu.c beside it; the
-- instructions are data where the order of writes matters and parameters where a device answers. The
-- loop of serial_print has fuel 2 ^ 31, more than a text of the kernel has bytes.
-- Console: kernel/src/kernel/kprintf.c and kernel/src/drivers/fb.c, over vsnprintf and the terminal.
-- Arch.Pit: kernel/src/arch/x86_64/pit.c; the loop of pit_wait has fuel, one round for each look at
-- the counter, which the interrupts advance.
-- Arch.Interrupts: kernel/src/arch/x86_64/interrupts.c. interrupts_set_handler routes the legacy
-- lines through Arch.Ioapic.
-- Sync.SpinLock: kernel/src/lib/spinlock.c as a step relation over any number of processors.
--
-- Not modelled: the instructions that load tables and other control registers, the log that the
-- functions of the kernel print through kprintf, assembly, the copies of the flanterm and printf
-- libraries under kernel/src/lib and kernel/src/include/lib.
pub mod Prelude
pub mod Strings
pub mod Rings
pub mod Fs
pub mod Mm
pub mod Arch
pub mod Sync
pub mod Sys
pub mod Console
