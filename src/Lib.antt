-- ===== src/Lib.antt =====
-- A verification library for the Linux driver modules of this repository.
--
-- The repository holds kernel modules that were written one after the other, each a step further: the
-- choice of device numbers, a character device, its nodes, reads and writes, pins, misc devices,
-- platform drivers, and a device over physical memory. They do not call each other. Each consists of a
-- load function, an unload function and handlers, which run on variables of the module and call the
-- kernel. Programs reach the handlers by system calls on a node under /dev.
--
-- Kernel: a module's state is `St G`, with its variables (`G`), memory and the caller's memory by
-- bytes, and the calls made so far. A function is `M G A`, which ends with a value, with an access
-- through NULL, or (loops on fuel) for want of fuel. The kernel is no part of the repository; the
-- record `Kernel` gives its answers, by the number of calls made before, and its macros, and a theorem
-- names what it assumes of them. Kernel/Held counts what a history of calls leaves acquired, and what
-- was given back without being held. Kernel/Moments says that something is true of every part of a
-- history up to some call, as it is needed for the order of an unload. Kernel/After is a postcondition
-- for a run that returns and one for a run that stops at a NULL access.
--
-- Chrdev: moduleRegistCdev, moduleCreateCharNode, moduleCharDriver and moduleIrqRegist (in
-- <module>/<module>.c) share most of their code word for word, which stands once in Chrdev.antt: the
-- parts of hello_init are register_numbers, create_class, allocate_devices and setup_device or
-- setup_node, and reg_init_cdev is itself. Chrdev/<module> composes them, and has hello_exit and the
-- other handlers. moduleSCdevNum and moduleDCdevNum are in Chrdev/SCdevNum and Chrdev/DCdevNum. The
-- fields of my_devices[i] are data_of i and size_of i, and its cdev is known by the array and i; they
-- are kept beside memory, so that what is said of a store past a buffer leaves out one that reaches them.
-- Chrdev/Lives has the four drivers with cdevs as the members of one type, each with its load and its
-- unload; what they hold meanwhile is in Chrdev/Steps, Load and Life, the order in Chrdev/Stages,
-- Moments and Nodes, and what is left after it in Chrdev/Residue. Chrdev/CharDriver/Ready is about what
-- its handlers find after a load, Chrdev/IrqRegist/Interrupts about the interrupts that moduleIrqRegist
-- frees, Chrdev/Numbering about the numbers that the four register and use, and Chrdev/Numbers about the
-- two drivers without a cdev.
--
-- MemMap: mem_map/mem_map.c, a function for each function there. The loops of mem_map_read and
-- mem_map_write get count + 1 rounds, which is enough since each takes at least a byte. Physical
-- addresses have phys_bits bits, and the sums of the source wrap around there; x & (PAGE_SIZE - 1) is
-- x % page_size. A copy_from_user that fails zeroes the rest of its target. MemMap/File is the abstract view of the device, a flat file of bytes with a position:
-- the relation Permits says what one call may do.
--
-- HelloModule: moduleUbuntuTest/moduleTest/moduleTest.c. The wait of hello_read is an argument of the
-- model, what other callers do meanwhile. HelloModule/Wait has readers and writers interleaved instead:
-- a step is one access to enable_read or to the wait queue, one copy, one loop over the bytes, or the
-- reads of the logged bytes, which a NULL pointer stops; hello_write_amid has what others do between the
-- wake-up and enable_read = 1; and HelloModule/Count has callers interleaved at the accesses to iOpenCount, which is an integer without
-- a bound. Of the DEBUG lines the model has those that access the caller's memory or the input buffer.
-- HelloModule/Init has the load and the unload, Init/Ready what the handlers find after a load,
-- Init/Release what is held, and Init/Moments the order. A structure whose fileOperation is not set
-- gives a cdev without operations, and the kernel refuses to open its node.
--
-- Platform: moduleTest, moduleDriverRegist, moduleMiscDriverRegist, moduleOnlyMiscDriverRegist,
-- moduleParam, moduleDriverLEDS, platform/platform_drv and platform/platform_dev. Platform/Lives has them as the
-- members of one type, each with its load, its bind and unbind by the bus, and its unload. The struct
-- platform_driver that each fills in is a record, whose functions the bus calls; those for power
-- events are there for any list of such events. Platform/Param/Log has the messages of moduleParam.
--
-- LibMem: mem_map/test_mem_map/libmem.c, the program's side of the mem_map device, over a record of the
-- system's answers (LibMem.Os). The state is *value, the memory of the process, which of it can be read
-- and written, and the calls made; an access to any other byte ends in a fault. LibMem/Device puts
-- reads and writes above the handlers of MemMap, and LibMem/Device/Mapping a mapping above
-- mem_map_mmap, where a refusal is MAP_FAILED.
--
-- DeviceFile: `struct file_operations` as a record, which each driver fills in, the system calls of a
-- program, and the law by which these run the driver's functions.
--
-- Programs: moduleAppTest/moduleAppOnlyMiscHelloTest.c (HelloTest), moduleAppTest/moduleParam.c
-- (ParamTest), moduleAppTest/invoke_leds.c (InvokeLeds), moduleAppTest/myInvoke_leds.c (MyInvokeLeds)
-- and moduleUbuntuTest/moduleApp/moduleAppTest.c (ModuleApp), over any system calls. Their buffers are
-- at addresses that are parameters, and what they print and their sleeps are left out. HelloTest,
-- ParamTest, MyInvokeLeds and ModuleApp each have a session, which is the driver's load, the program on
-- the loaded driver, and the driver's unload.
--
-- Rpmsg: the parts between `#ifdef TEST` of virtio_rpmsg_test/virtio_rpmsg_bus.c, with rpmsg_init and
-- rpmsg_fini, over a record of the answers of the bus.
--
-- Examples: a kernel that grants every request, at which the theorems are applied.
--
-- Bounds: sizes, addresses and counts are natural numbers without a bound, and where a sum of the
-- source can wrap around the wrap is written out; a counter `int i` is taken for one that reaches the
-- size, as the kernel hands a driver at most MAX_RW_COUNT bytes, less than 2^31. Printed messages are
-- left out, but for the numbers that moduleParam logs.
--
-- Not modelled: the copy of the kernel's rpmsg bus in virtio_rpmsg_test, but for the parts named above;
-- the generated *.mod.c files; and what the sources switch off by `#if 0` or a comment.
pub mod Prelude
pub mod Kernel
pub mod Chrdev
pub mod MemMap
pub mod Platform
pub mod HelloModule
pub mod LibMem
pub mod DeviceFile
pub mod Programs
pub mod Rpmsg
pub mod Examples
