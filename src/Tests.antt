-- ===== src/Tests.antt =====
-- The theorems applied to small inputs, for the tree of src/kernel/include/libk/AVLTree.hpp, the memory
-- manager of src/kernel/memory, the keyboard of src/kernel/devices and the terminal of src/kernel/tty.
mod AvlTree
mod Memory
mod Devices
mod Strings
mod Terminal
mod Physical
mod Events
mod Heap
mod Ext2
mod Scheduler
