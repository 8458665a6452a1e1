-- ===== src/Lib.antt =====
-- BleskOS: models of the kernel's input, memory management and drawing, and their theorems.
--
-- Parts. Interrupts of the PS/2 controller hand bytes to the drivers of the keyboard and the
-- mouse. A driver decodes them, writes the local state of its device and calls the human input
-- group, which merges the local states of all devices into one global state and adds an event
-- for each change to the ring of the screen subsystem; the event loop of that subsystem reads the
-- ring. Memory comes from the firmware's map, from which pages are taken by a bump allocator until
-- the stack of free pages is filled; from then on pages come from that stack, or from the stack
-- of the current processor, which is refilled from the global one. The kernel's allocators hand out
-- parts of the virtual space that is mapped to such pages: the heap, and the windows of the temporary
-- and the permanent allocator. Programs have an allocator of their own. The drawing functions write
-- pixels into the buffer of a view. The scheduler of a processor goes in turn through its kernel
-- threads and the threads of the processes, takes the killed ones out, and switches to the first one
-- that can run. All parts use the kernel's C library.
--
-- Files, and the sources below source/kernel/ they model (Programs: below source/):
--   Common               operations on numbers, 32-bit words, Booleans, lists and options.
--   Libc.Ctype           libc/ctype.c, under the names of the source.
--   Libc.Text, Endian    libc/string.c: the functions on texts, and switch_16_endian and its like.
--   Libc.Number          itoa, atoi, htoa and htoan of libc/stdlib.c.
--   Libc.Strtol          strtol of libc/stdlib.c.
--   HumanInput.Keys      the key numbers of hardware/groups/human_input/human_input.h.
--   HumanInput.State     DeviceState, GlobalState: human_input_device_state_t and
--                        human_input_global_state_t of the same file.
--   HumanInput.Events    add_event: add_event_to_screen_subsystem_list; next_event, finish_event:
--                        the reading in screen_subsystem_event_loop; both of
--                        hardware/subsystems/screen/screen.c.
--   HumanInput.Layout    get_key_unicode_value and set_keyboard_layout with the tables of
--                        hardware/groups/human_input/keyboard_layout.c.
--   HumanInput.Group     add_device, remove_device, the local events and
--                        process_changes_of_local_state: the functions of
--                        hardware/groups/human_input/human_input.c with the prefix hid_ or the
--                        words human_input in their names.
--   HumanInput.Watch     check_round: a round of check_human_input_state of human_input.c, with
--                        set_leds: ps2_keyboard_set_leds of ps2_keyboard.c.
--   HumanInput.Ps2       the tables and the parser of ps2_keyboard.c and the packets of
--                        ps2_mouse.c, in hardware/devices/human_input/; Ps2.Device joins them to
--                        the group.
--   Memory.Pages         PAGE_SIZE and the masks of hardware/devices/memory/virtual_memory.h.
--   Memory.Physical      pm_bump_alloc, pm_direct_alloc_page, pm_direct_free_page,
--                        pm_local_alloc_page, pm_local_free_page, pm_alloc_continuous_memory (here
--                        without the prefix pm_) and the loops of initialize_physical_memory, of
--                        hardware/devices/memory/physical_memory.c.
--   Memory.Heap          kalloc, aligned_kalloc, kfree and krealloc of
--                        hardware/devices/memory/memory_allocators.c, with Node and Heap:
--                        kheap_entry_t and kernel_heap_metadata_t. Heap.Start: the parts of
--                        initialize_allocators and initialize_allocators_for_user_space about the
--                        heap.
--   Memory.Mapped        temp_phy_alloc, perm_alloc and perm_phy_alloc of the same file.
--   Screen.Draw          calculate_area_in_part, draw_bitmap, draw_bitmap_in_part, draw_square and
--                        draw_square_in_part of hardware/subsystems/screen/draw.c.
--   Firmware.Cmos        read_time and the functions and macros it uses, of firmware/cmos/cmos.c.
--   Programs.Malloc      malloc and aligned_malloc of userspace_library/bleskalloc.c.
--   Locks.CoreMutex      core_mutex_lock and core_mutex_unlock of hardware/devices/cpu/mutex.c, one
--                        definition for each access to the word, and the relation of their steps.
--   Locks.Mutex          LOCK_MUTEX and UNLOCK_MUTEX of hardware/devices/cpu/mutex.h, likewise.
--   Scheduler.Threads    kernel_thread_t and kernel_thread_list_t of hardware/devices/cpu/scheduler.h;
--                        Scheduler.Processes: user_thread_t, user_thread_list_t and process_t, and of
--                        hardware/devices/cpu/info.h the fields of logical_processor_t that the
--                        scheduler uses. Scheduler.Linked: how it walks through lists and takes
--                        elements out.
--   Scheduler.Kernel     the pass of scheduler_interrupt (hardware/devices/cpu/scheduler.c) through
--                        the kernel threads, with add_pointer_to_clean and
--                        release_unique_kernel_tid; Scheduler.User: its pass through the threads
--                        of a process; Scheduler.Interrupt: the whole function.
--   Scheduler.Tids       get_unique_kernel_tid of the same file; Scheduler.Create:
--                        get_index_of_processor_for_new_kernel_thread and
--                        create_kernel_thread_with_flags; Scheduler.Flags: sleep_for_thread,
--                        block_current_thread, kill_process and the other functions that set
--                        flags of threads.
--
-- Conventions. Numbers are natural numbers, and 32-bit arithmetic has its wrap-around written
-- out. An array of the source is a list, or a function from indices where the source keeps no
-- length. A global variable is a field of a state that is passed on. `none` is a kernel panic, a
-- read outside of an array or the end of the fuel, as the comment of each definition says. The
-- heap's entries are a function of their addresses, and its well-formedness is stated with the
-- set of the addresses that have an entry. A device is the number of its address,
-- and the group's states are a function of it. A buffer of pixels is a function of their indices,
-- and the registers of the CMOS are a function of their numbers.
--
-- Bounds and fuel. fill_entry runs on fuel: one round for each page is more than enough, since a
-- round takes at least one page. The outer loop of alloc_continuous_memory has the height of the
-- stack plus one as fuel, since each round goes down by one word at least. All other loops are
-- structural. The loops of kalloc and aligned_kalloc through the entries have the end of the heap
-- plus one as fuel, since the entries lie at rising addresses; the loop that skips alignments has
-- the size of an entry, of which each round takes off at least one byte. A pass of the scheduler
-- through a list of n threads has more fuel than n * n and the threads that are ahead: a round
-- moves on, or kills a thread, so that the pass starts again on a shorter list.
--
-- Not modelled: the rest of the C library (sprintf, the functions in assembly or on floating
-- point numbers), page tables and the clearing of pages, port input and output (the commands to the
-- 8042 controller and the devices), the interleavings of the functions that hold a lock (such a
-- function runs alone; that a lock has one holder is the subject of Locks), the log, the
-- drawing of texts, windows and the mouse cursor, the block and pool allocators, the bytes that
-- krealloc copies, the firmware tables, and of the scheduler the creation of processes and user
-- threads, which builds address spaces, the registers and stack pointers that it saves, the measured
-- times of running, interrupts within the functions (also between the two accesses of
-- core_mutex_unlock), and what the other processors do meanwhile, but for the lists they add to while
-- an element is taken out, in unlink_first.
pub mod Common
pub mod Libc
pub mod HumanInput
pub mod Memory
pub mod Firmware
pub mod Locks
pub mod Programs
pub mod Scheduler
pub mod Screen
