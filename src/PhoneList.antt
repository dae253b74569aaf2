-- ===== src/PhoneList.antt =====
-- The doubly linked phone book, 02-c-programming/04-01-doubly-linked-phone-book, whose
-- src/phone_book.c the libraries 06-01 and 06-02 share.
pub mod Heap
pub mod Operations
pub mod Add
pub mod Link
pub mod Insert
pub mod Detach
pub mod Remove
pub mod Edit
