-- ===== src/Lib.antt =====
-- mosys, a command-line tool for firmware and platform information: a verification development of
-- its event log, its vboot context in flash, the SMBIOS tables, its locks, the commands to the embedded
-- controller, and the code these rest on.
--
-- The program reads and edits small stores in firmware flash. `mosys eventlog list`, `add` and
-- `clear` work on the event log: a platform's callbacks fetch the whole log into memory, the code
-- walks it entry by entry, changes a copy, and writes that back whole. `mosys nvram vboot` does the
-- same with the vboot context, a ring of 16-byte blocks. Both find their region of flash in the
-- platform's list of eeproms, and read and write it through the functions of the eeprom's device. On
-- boards that show the log in memory, the SMBIOS tables tell where it is.
--
-- Which file models what:
-- Common: names of the libraries, Boolean tests, lists, byte buffers. `poke` is memcpy into a
--   buffer and `peek` a read from one; where C would pass the buffer's end they give `none`, and a
--   run of code then is a `fault`. `Run` is the outcome of a run: a value, a fault, or no more fuel.
-- Math: lib/math/math.c (the 8-bit checksums) and bin2bcd of include/lib/math.h.
-- Eeprom: the structs of include/lib/eeprom.h and the look-ups vbnv_find_eeprom of
--   lib/vbnv/vbnv_flash.c and elog_find_log_in_flash of lib/eventlog/elog.c. The device, code of many
--   drivers, is a parameter (EepromDev), with the law ReadsBack where a proof needs it.
-- Elog.Entry: elog_prepare_entry, elog_verify and their helpers of lib/eventlog/elog.c. An entry is
--   the list of bytes from its first byte on to the end of its buffer, as the C pointer sees them.
-- Elog.Iterator: the iterator of lib/eventlog/elog_smbios.c. Its loop runs on fuel, one round more
--   than the log has bytes.
-- Elog.Manual: elog_add_event_manually and elog_clear_manually of lib/eventlog/elog.c, with their
--   callbacks, over the platform's `fetch` and `write`.
-- Elog.Flash: elog_fetch_from_flash and elog_write_to_flash, and events added one after another.
-- Elog.Smbios: elog_fetch_from_smbios of lib/eventlog/elog.c, over the SMBIOS tables.
-- Elog.Report: the tables and the printing of lib/eventlog/elog.c; the valstr look-ups are a
--   parameter (ValStr). A printed value is a text, or a format with its arguments.
-- Elog.Listing: the callback of `eventlog list`, core/command/eventlog.c.
-- Elog.Command: `eventlog add` and `eventlog clear` of core/command/eventlog.c, over the platform's
--   callbacks. strtol of the C library is written out for base 0.
-- Vbnv: lib/vbnv/vbnv_flash.c.
-- StringBuilder: lib/string/string_builder.c, text in a buffer of fixed size; vsnprintf of the C library
--   is a parameter, with what its documentation says (Documented).
-- LinkedList: core/list.c, a doubly linked list of nodes in memory. Memory is a function from addresses
--   to nodes (`Heap` of Common); a freed address holds none, and reading one is a fault.
-- KeyValue: core/kv_pair.c, lists of keys with values and their printing.
-- DynamicArray: lib/dynamic_array/dynamic_array.c.
-- Strings: find_pattern, buf2str and nstr2buf of lib/string/string.c.
-- Smbios: lib/smbios/smbios.c. Text reads the strings behind a table, Entry finds the entry point, and
--   Table walks over the tables. What the code asks of the machine (mapped memory, the kernel log,
--   debugfs) is the parameter Machine. A pointer is the bytes from it on to the end of the mapped
--   memory, and the static iterator is passed along, `none` before its setup. The loops run on fuel,
--   one round more than there are bytes.
-- Locks: core/csem.c, core/ipc_lock.c, core/big_lock.c and drivers/google/cros_ec_lock.c. The system
--   calls on semaphores are the parameter Semaphores; SemLaws says what they do to the semaphore of one
--   key. A state is the system and the locks of the processes; the calls of the processes follow one
--   another in any order (Locks.Exclusion): a wait with a timeout ends with or without the semaphore,
--   and one without a timeout that finds it taken has not returned (still_waiting), and is made again
--   in a later step. The static need_otime_hack of a process is kept with each of its locks. The loop
--   that waits for sem_otime has the 1000 rounds of the source.
-- CrosEc: drivers/google/cros_ec_lpc.c, commands to the Chrome embedded controller through I/O ports,
--   under its lock. The port functions are the parameter Ports; PacketWindow says that what is written
--   in the packet window can be read there. The wait for the EC has the 100000 rounds of the source.
-- CrosEc.Device: the greeting, the detection, and the vboot context that the controller keeps, from
--   drivers/google/cros_ec.c, over the command function of the bus. A buffer that the code does not
--   initialise is an argument.
-- Platform: the choice of the platform of core/platform.c and the set-up of its buses of
--   core/intf_list.c, over the functions of the platforms; strlfind of lib/string/string.c.
--
-- Integers are natural numbers with the wrap-around of their C type written out (u8, u32, u64, and
-- sub64 for a size_t difference). A log is at most 2 ^ 32 bytes where a proof says so, and less
-- than 2 ^ 31 for the iterator, whose fields are of type int. Memory allocation does not fail, as mosys_malloc aborts in that case. Messages to the log are left out.
--
-- Not modelled: the other drivers, platforms and bus interfaces, which are register access; locks in
-- files; the rest of the string helpers; SPD and VPD; copies of other projects' libraries.
pub mod Common
pub mod Math
pub mod Elog
pub mod Vbnv
pub mod Eeprom
pub mod CrosEc
pub mod DynamicArray
pub mod KeyValue
pub mod LinkedList
pub mod Locks
pub mod Platform
pub mod Smbios
pub mod StringBuilder
pub mod Strings
