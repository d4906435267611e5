-- ===== src/Lib.antt =====
-- Verification library of the piggyOS kernel, a 32-bit kernel for x86 in C.
--
-- The parts of the kernel that are modelled, and how they depend on each other:
--   * Multiboot (kernel/multiboot2.c): the walk over the tags that the boot loader leaves in memory.
--     `mboot2_find_tag` is the function of that name; memory is a function from addresses to words.
--   * Pmm (kernel/memory/pmm.c): the bitmap of physical blocks. The record `Pmm` has the file's
--     variables; `bitmap_set`, `bitmap_unset`, `first_free_block`, `alloc_block`, `free_block` and
--     `Pmm.Init.pmm_init` are the functions without their prefix. It finds its memory by Multiboot.
--   * Vmm (kernel/memory/vmm.c): page directories and page tables. The record `Vmm.Vm` has the
--     file's variables, the heap's boundaries, the tables and directories by their addresses, and
--     the state of Pmm, whose blocks it maps. `Vmm.Region` has the loops over a range, `Vmm.Boot`
--     `vmm_init`, and `Vmm.Sbrk` the function `ksbrk`. `kmalloc_a` of the heap calls back into this
--     file; it is a parameter, so that the theorems hold whatever it does.
--   * Kheap (kernel/memory/kheap.c): the blocks of the kernel heap in a memory of words. The record
--     `Kheap.Heap` has the file's variables and the state of Vmm, whose `ksbrk` it calls by
--     `Kheap.Fresh.sbrk`. `Kheap.Malloc`, `Kheap.Free`, `Kheap.Realloc` and `Kheap.Early` have the
--     functions that are named so and `kmalloc_int`; the other children prove what they do.
--   * Printing (kernel/utils/display.c): `__itoa`, `__kprintf_va_list`, `kprintf` and `klog`, on the
--     screen of Vga and the bytes sent to the serial port.
--   * DList (kernel/utils/dsa/list.c): doubly linked lists of nodes in an explicit memory, with the
--     addresses that are given back. The address that an allocation returns is an argument.
--   * Strings (kernel/utils/string.c): the functions on bytes in memory.
--   * RootFs (kernel/fs/rootfs.c, kernel/sys/spinlock.c) and DevFs (kernel/fs/devfs.c): the lists of
--     named nodes of the root directory and of the device directory. They use DList and Strings.
--   * Tar (kernel/fs/tarfs.c): the archive with the first files, read through Strings.
--   * Descriptors (kernel/cpu/gdt.c, kernel/cpu/idt.c): the tables of segments and interrupt gates.
--   * Pci (kernel/drivers/pci.c): configuration addresses and the search for devices; what the
--     configuration space answers is a parameter.
--   * Task (kernel/sys/task.c, kernel/sys/context_switch.asm): the list of tasks, over DList,
--     `schedule`, `task_create` and `task_exit`. Syscalls (kernel/sys/syscall.c,
--     kernel/sys/syscalls/sys_task.c) dispatches the system calls to it.
--   * Elf (kernel/sys/elf.c): the check of a program file and the loading of its segments, by
--     `memcpy` and `memset` of Strings; touching a page that is not mapped ends in a fault.
--   * Interrupts (kernel/cpu/isr.c): the table of handlers and the two dispatchers.
--   * Acpi (kernel/drivers/acpi/tables.c, kernel/drivers/acpi/power.c): the tables that describe the
--     power management, and the machine's end; `memcmp` is that of Strings. What ports yield is a
--     parameter.
--   * Clock (kernel/drivers/rtc.c, kernel/drivers/timer.c): the date and its seconds.
--   * Rand (kernel/fs/devices/rand.c): the random number generator and its device.
--   * Vga (kernel/drivers/vga.c): the text screen and its cursor.
--   * Keyboard (kernel/drivers/keyboard.c): the key tables and the interrupt handler.
--   * Serial (kernel/drivers/serial.c): the queue of received characters and the interrupt handler.
-- Base has what they share: Boolean tests, words, lists, stores, bits, and the count of a test.
--
-- Numbers are natural numbers; a `uint32_t` keeps its wrap-around by `add32`, `sub32` and `mul32`
-- of Base.Word, and NULL is 0. A loop that is no structural recursion runs on fuel and answers
-- `none` where it runs out; the theorems ask for as many rounds as the loop needs (the number of
-- tags, of pages or of list nodes, and one more) and conclude that it ends. The lists and strings
-- that a theorem is about are given by predicates (`Multiboot.Tags.IsChain`,
-- `DList.Linked.IsList`, `Strings.Compare.HasString`).
--
-- Not modelled: the messages that the other components print, the writes that set devices up, the
-- control registers but for the page directory base, the other processors, and the parts of the
-- kernel that are not named above (trees, the dispatch of the virtual file system, and the other
-- devices).
pub mod Acpi
pub mod Base
pub mod Clock
pub mod DList
pub mod Descriptors
pub mod DevFs
pub mod Elf
pub mod Interrupts
pub mod Keyboard
pub mod Kheap
pub mod Multiboot
pub mod Pci
pub mod Pmm
pub mod Printing
pub mod Rand
pub mod RootFs
pub mod Serial
pub mod Strings
pub mod Syscalls
pub mod Tar
pub mod Task
pub mod Vga
pub mod Vmm
