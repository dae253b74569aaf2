-- ===== src/PhoneTree.antt =====
-- The phone book over an AVL tree: 02-c-programming/04-03-avl-tree-phone-book.
pub mod Contact
pub mod Tree
pub mod Book
