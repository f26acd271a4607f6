-- ===== src/Lib.antt =====
-- The core of the function block framework (src/ubx.c, src/ubx_types.h, src/ubx.h) and some of its
-- blocks (std_blocks). A node has types and blocks
-- under their names. A computation block has typed ports; an interaction block carries data between
-- ports. Wiring puts an interaction into the NULL-terminated arrays of two ports; the life cycle
-- brings blocks from preinit to active; an active computation steps, and reads and writes its ports,
-- which calls the read and write hooks of the active interactions that are connected.
--
-- Types: the structs and constants of src/ubx_types.h. Most pointers are addresses into Memory, whose
-- ports and blocks the operations share, so that two pointers of a call may be one; the memory also
-- has the outcomes of the allocations to come. An outcome `none` is a fault: a read through NULL or
-- past the end of an array, or a division by zero.
-- Cells: the loops and writes on arrays that end at a mark.
-- Wiring: array_block_add to ubx_ports_disconnect_uni. Wiring.Arrays is about one array,
-- Wiring.Update about one port of the memory, Wiring.Uni about the calls on two ports.
-- Hooks: the functions that a block brings along; a parameter, which may change the memory in any
-- way. `IsQuiet` is that hooks create and free no block and leave states to the node.
-- Lifecycle: ubx_block_init to ubx_cblock_step, with an automaton as their specification (Machine),
-- histories of calls (History), and the names of states (States).
-- Comm: __port_read and __port_write, each with a module, and what a write does (Deliver). The loop
-- of __port_write reads the array of connections again after each hook; __port_read is modelled for
-- read hooks that leave it alone.
-- Time: struct ubx_timespec and tsnorm of std_blocks/trig/trig.c. A `long` is an integer; Time.Bounds
-- gives ranges in which it does not overflow.
-- Hash: uthash by an interface, with the laws that its guide documents, and an instance.
-- Registry: types (ubx_type_register to ubx_type_get), and in Registry.Resolve the resolution of
-- type names and the registration of blocks. The MD5 of a name is a parameter.
-- Entries: the loops over the arrays of ports and of configurations, up to an entry without a name.
-- Ports, Configs: ubx_clone_port_data, ubx_clone_config_data, and adding, finding and removing ports
-- and configurations of a block that is passed by value.
-- Data: __ubx_data_alloc to data_size, on buffers of bytes.
-- Removal: ubx_block_free and ubx_block_rm.
-- Creation: ubx_block_clone, by value, and in Creation.Create ubx_block_create.
-- Node: ubx_module_load, ubx_module_unload, ubx_node_init, ubx_node_cleanup and the counts. The dynamic
-- loader and the functions of the modules are parameters.
-- Boxed: the functions of def_read_fun and def_write_fun of src/ubx.h, through which blocks use ports,
-- with the asserts of checktype.
-- Fifo: std_blocks/simple_fifo/simple_fifo.c, a ring as a list of bytes with two offsets.
-- Trigger: do_trigger of std_blocks/trig/trig.c and trigger_steps of std_blocks/ptrig/ptrig.c; its
-- schedule (Schedule) and its statistics (Stats).
-- Random: std_blocks/random/random.c.
-- Youbot: std_blocks/youbot_driver: Mailbox (send_mbx, set_param), Detect (validate_base_slaves,
-- validate_arm_slaves and their use in youbot_init), Flags (base_proc_errflg, arm_proc_errflg),
-- Odometry (base_output_msr_data, twist_to_wheel_val), Base (base_proc_update), Arm (arm_move_to_lim,
-- scale_down_cmd_val, arm_proc_update) and Start (base_prepare_start,
-- arm_prepare_start, control_gripper). The EtherCAT master, the arithmetic of floating point and the bytes of values are parameters.
-- Base: shared names, tests and lemmas. Examples: the operations and theorems at a concrete node.
--
-- Arrays of connections end at a NULL. Of one without a NULL, array_block_add counts all cells,
-- where the code would read on; the other loops over it are faults.
--
-- The compile-time checks CONFIG_PARANOIA and CONFIG_TYPECHECK_EXTRA of src/ubx.h are on.
--
-- Every loop of the code runs over an array and is structural recursion over its cells; no fuel is
-- used. Counters wrap at 2 ^ 64; a read's status and the sizes of buffers are taken modulo 2 ^ 32.
--
-- Not modelled: messages on stderr; the threads of ptrig and the start of the triggers, which takes
-- over pointers of a configuration; of the youBot most of the start-up;
-- the other blocks of std_blocks, which are glue to sockets, queues, Lua or libraries; the copies of
-- uthash, md5, mongoose and liblfds; the Lua and C++ parts.
pub mod Base
pub mod Cells
pub mod Entries
pub mod Types
pub mod Wiring
pub mod Hooks
pub mod Lifecycle
pub mod Comm
pub mod Time
pub mod Hash
pub mod Registry
pub mod Ports
pub mod Configs
pub mod Data
pub mod Removal
pub mod Creation
pub mod Node
pub mod Fifo
pub mod Boxed
pub mod Trigger
pub mod Random
pub mod Youbot
pub mod Examples
