-- ===== src/BPlusTree.antt =====
-- include/pageforge/bplus_tree.hpp and src/bplus_tree.cpp: the nodes of the index, their order and
-- their encodings. The node that is read from the record store is given as its bytes.
pub mod Entry
pub mod Node
pub mod Leaf
pub mod Internal
