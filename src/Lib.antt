-- ===== src/Lib.antt =====
-- learnK: kernel modules that try out one facility of the Linux kernel each. The modules share no
-- code; what they share is the kernel, which is a parameter of the model where it is not plain.
--
-- cdev/main.c, a character device with 4096 bytes of memory, is in Cdev: each file operation
-- (hello_open, hello_release, hello_ioctl, hello_read, hello_write, hello_llseek) is a command on
-- the state `State`, which has the device, the open file and the calling process.
--   Cdev/Seek       `hello_llseek` as a function of the position; `loff_t` is ℤ with its wrap-around
--   Cdev/Position   where a seek moves
--   Cdev/Transfer   what a read and a write do
--   Cdev/RoundTrip  a read gives back what a write put
--   Cdev/Session    sequences of calls
--   Cdev/Setup      hello_setup_cdev, hello_init and hello_exit
--
-- globalfifo/main.c, a FIFO device that blocks its readers and writers, is in GlobalFifo: a thread
-- is at a place of a handler (`Pc`), and a step of the system lets one thread go on, from one
-- `mutex_lock` or `schedule` to the next, so that a list of events is an interleaving.
--   GlobalFifo/Machine   the handlers hello_read, hello_write, hello_ioctl, hello_poll as steps
--   GlobalFifo/Contents  what one transfer does to the queued bytes
--   GlobalFifo/Flow      what an interleaving does to them
--   GlobalFifo/Mutex     mutual exclusion, and the second lock of hello_poll
--   GlobalFifo/Wakeup    whom a wake-up must reach
--   GlobalFifo/Seek      hello_llseek, hello_open and hello_release
--   GlobalFifo/Setup     hello_setup_cdev, hello_init and hello_exit
--
-- list/container.c, a linked list, a queue and a stack, is in Container.
--   Container/Links     the interface to <linux/list.h>; Container/Circular implements it
--   Container/Core      the functions of the file on a store of links and values
--   Container/Cells     what list of values a handle stands for
--   Container/Ends      adding at either end, taking from the front
--   Container/Service   sequences of calls
--   Container/Walk      link_list_get; Container/Splice: link_list_insert and link_list_remove
--   Container/Delete    add_link_list and del_link_list
--   Container/Text      to_string and build_string; Container/Printed: the text that to_string makes
--   Container/ReadBack  reading that text
-- list/main.c is in Container/Init, and what it logs in Container/Log.
--
-- bdev/main.c, a RAM disk, is in Bdev: ramblock_process_request on the bytes of the disk and of the
-- pages that a request names; what vmalloc answers is a parameter, and the text that the log prints has
-- to end in the block (`logs`).
--   Bdev/Segments   the loop over the segments; Bdev/Answers: the whole request
--   Bdev/Setup      ramblock_init and ramblock_exit
--
-- string/main.c, a string buffer, is in Strings, with the C string functions it calls.
--   Strings/Growth  the loop of string_growup; Strings/Join: string_new_cap and string_join
--   Strings/Search  string_index, string_last_index, string_substring and string_char
--   Strings/Parts   string_has_prefix and string_has_suffix; Strings/Substring: string_has_substring
--   Strings/Init    __do_init, with its allocations; Strings/Lifecycle: what it logs and frees
--
-- thread/fifo.c, a ring of work items, is in WorkFifo; the workqueue is the list of items that its
-- worker has yet to process.
--   WorkFifo/Queueing  enqueue, the worker, workfifo_exit; WorkFifo/Order: sequences of them
--   WorkFifo/Progress  items that wait reach the worker
--
-- thread/main.c, a thread and a job for a workqueue, is in Threads; Threads/Life: from its loading to
-- its unloading, with any turns of the thread and the worker between.
--
-- bio/main.c, a client of a block device, is in Bio, over an interface to the block layer.
--   Bio/Cleanup   its paths; Bio/Ramblock: the RAM disk of bdev/main.c implements the interface
--
-- second/main.c and second/hrtimer.c, two timers that start again when they have fired, are in Timers;
-- Timers/Spacing: when they fire, with a kernel that looks at its timers when it likes.
--
-- dump/dumps.c, which packs a record into bytes, is in Dump; Dump/RoundTrip: marshal and unmarshal;
-- Dump/Init: dump/main.c.
--
-- rbtree/main.c, a map over the kernel's red-black tree, is in Rbtree: the tree with its keys in
-- place, and an interface to <linux/rbtree.h>, whose functions keep the order of the nodes.
--   Rbtree/Keys     orders on keys; Rbtree/Entries: sorted lists of entries
--   Rbtree/Spine    an implementation of the interface
--   Rbtree/Search   search_node and the descent of insert_node, on a sorted tree
--   Rbtree/Laws     insertion, deletion and the freeing of all, against a map
--   Rbtree/Service  sequences of calls, and end_exit
--   Rbtree/Representation  the trees up to their shape
--   Rbtree/Init     print_all_entries and start_init; Rbtree/Printed: what they print
--
-- rbtree/interval_tree.c is in Intervals, over an interface to <linux/interval_tree.h>.
--   Intervals/Overlap  lists of intervals; Intervals/Sorted: an implementation of the interface
--   Intervals/Laws     search, insert, remove and remove_all
--   Intervals/Init     interval_tree_test_init; Intervals/Leak: what it leaves
--
-- hook/khook.c, a kretprobe on path_mount, is in Hook; its tree is that of Rbtree, with other keys.
--   Hook/BuildPath  build_path and get_absolute_path
--   Hook/Pool       the pool under its lock, entry_handler and ret_handler
--   Hook/Session    what insert_params and pop_params do; Hook/Handlers: interleavings of calls
--   Hook/Unload     hook_init and hook_exit
--
-- hook/main.c, kprobes on file operations, is in Kprobes.
--   Kprobes/Write   the memory that vfs_write_pre writes; Kprobes/Leak: path buffers left over
--
-- ftrace/main.c, an ftrace hook on path_mount, is in Ftrace; what the kernel answers is a record.
--   Ftrace/Registration  register_hook and unregister_hook
--   Ftrace/Redirect      a call of path_mount while the hook is registered
--
-- map/map.c is in Hashmap, over an interface to <linux/hashtable.h>.
--   Hashmap/Chains   one chain of the table; Hashmap/Laws: adding and removing
--   Hashmap/Service  sequences of calls, and clear
--   Hashmap/Init     print_hash_table and my_init; Hashmap/Printed: what they print
--
-- rhashtable/main.c is in Rhash, over an interface to <linux/rhashtable.h>.
--   Rhash/Elements  lists of entries; Rhash/Filled: the run of start_init
--
-- netlink/main.c, a netlink socket, is in Netlink; Netlink/Replies: what is answered.
-- netlink/netlink.c, the program that talks to it, is in Netlink/Client; Client/Output: what it prints.
--
-- tasklet/main.c, an interrupt handler with a tasklet, is in Tasklet; Tasklet/Unload: interrupts
-- while the module is loaded and while it unloads.
--
-- Shared: Base (numbers, lists, booleans, integers of fixed width), Memory (bytes at addresses,
-- memcpy, memset), Kernel (error numbers; `Run`, the outcome of kernel code: it ends, it waits for
-- ever, or it crashes; `UserMem`, the interface to copy_to_user and copy_from_user, which Kernel/Flat
-- implements), Printf (the kernel's snprintf; Printf/Decimal: its %d).
--
-- Bounds: the loops of link_list_get, link_list_insert and link_list_remove run on fuel, and their
-- theorems ask for fuel above the length of the list, which is all the passes the loop makes. The
-- fuel of string_join bounds the turns of string_growup and the length that strlen counts; the theorem
-- asks for more than the bytes of the result, since each turn adds a byte at least. The loops that
-- free a tree take one turn a node and one more, and the search for intervals one turn for each that
-- overlaps and one more; a hooked call of path_mount calls it once again, so two levels are enough.
-- Bytes are natural numbers; addresses are natural numbers. On globalfifo a system call is cut into steps
-- at its locks and waits, since nothing else another thread does is seen inside the mutex.
--
-- A log is a list of lines, where a theorem is about what is logged. The loop of to_string takes one
-- turn a node and one more; 64 turns are enough for every loop of __do_init in string/main.c, whose
-- longest text has 32 bytes.
--
-- Not modelled: printk in the modules that have no such list; the modules hello and vfs, bio/hello.c
-- and dump/test.c, which only print, look up one path or repeat dump/main.c; the client
-- netlink/netlink.go, which is no C. Out of memory is modelled in Container only as far as
-- `add_node` and to_string go. Where list/container.c and string/main.c ask for the size of a pointer
-- instead of that of a struct of 24 bytes, the theorems ask for blocks of which 24 bytes are unused.
-- list_del on the wrong lock in globalfifo is modelled as an entry that the wait queue loses; other
-- damage to the queue is not. Two overlapping regions are copied as the interface Platform says.
pub mod Base
pub mod Memory
pub mod Kernel
pub mod Cdev
pub mod GlobalFifo
pub mod Bdev
pub mod Bio
pub mod Container
pub mod Strings
pub mod WorkFifo
pub mod Dump
pub mod Rbtree
pub mod Hook
pub mod Printf
pub mod Kprobes
pub mod Ftrace
pub mod Hashmap
pub mod Intervals
pub mod Netlink
pub mod Rhash
pub mod Tasklet
pub mod Threads
pub mod Timers
