-- ===== src/PhoneTree/Book.antt =====
-- The phone book of src/phone_book.c of 04-03-avl-tree-phone-book: the tree with its id manager,
-- and the public operations. A status is true for 0 and false for -1.
pub mod Fresh
pub mod Ids
pub mod Edit
use eltex_education.Common.{
  ℕ, zero, suc, ◌+◌, ◌%◌, ◌^◌, Bool, true, false, not, Option, none, some, List, [], ◌∷◌, ◌==◌,
  if◌then◌else◌,
}
use eltex_education.Common.Memory.{Pointer}
use eltex_education.Common.Memory.Words.{u32}
use eltex_education.Common.CString.{CString, cut}
use eltex_education.PhoneTree.Contact.{
  Contact, name_size, copy_string, node_create, edit_phone_of, edit_email_of, edit_social_link_of,
}
use eltex_education.PhoneTree.Tree.{Tree, leaf, node, add, find_by_id, extract_node}

-- `phone_book_id_manager_t`; `next_id` is an `unsigned int` and 0 once it has wrapped.
pub record IdManager : Type 0 where
  pub next_id : ℕ
  pub free_ids : List ℕ

pub record Book : Type 0 where
  pub head : Tree
  pub ids : IdManager

unfoldable pub id_manager_init : IdManager
id_manager_init = record { next_id = 1; free_ids = [] }

abbrev take_free : List ℕ → ℕ → Option (ℕ × IdManager)
take_free (id ∷ rest) next = some (id, record { next_id = next; free_ids = rest })
take_free [] next =
    if next == 0 then none else some (next, record { next_id = u32 (next + 1); free_ids = [] })

-- The id and the manager after it; `none` when the ids have run out.
unfoldable pub take_id : IdManager → Option (ℕ × IdManager)
take_id m = take_free m.free_ids m.next_id

-- `alloc` is the success of `malloc`.
unfoldable pub release_id : Bool → IdManager → ℕ → Bool × IdManager
release_id alloc m id =
    if id == 0
    then (false, m)
    else if not alloc
    then (false, m)
    else (true, record m { free_ids = id ∷ m.free_ids })

abbrev pub add_taken : Book → Contact → Option (ℕ × IdManager) → Bool × Book
add_taken book c none = (false, book)
add_taken book c (some (id, ids)) =
    (true, record { head = add book.head (record c { id = id }); ids = ids })

abbrev pub add_new : Book → Option Contact → Bool × Book
add_new book none = (false, book)
add_new book (some c) = add_taken book c (take_id book.ids)

-- `phone_book_add` cannot fail on a new node, so the branch that releases the id again is not
-- reached.
unfoldable pub create_and_add :
    Bool
    → Pointer CString
    → Pointer CString
    → Pointer CString
    → Pointer CString
    → Pointer CString
    → Pointer CString
    → Pointer CString
    → Book
    → Bool × Book
create_and_add alloc name last_name patronymic phone home workplace job book =
    add_new book (node_create alloc 0 name last_name patronymic phone home workplace job)

abbrev pub remove_found : Bool × IdManager → Book → ℕ → Bool × Book
remove_found (false, ids) book id = (false, book)
remove_found (true, ids) book id =
    (true, record { head = (extract_node book.head id).0; ids = ids })

abbrev pub remove_known : Bool → Book → ℕ → Option Contact → Bool × Book
remove_known alloc book id none = (false, book)
remove_known alloc book id (some c) = remove_found (release_id alloc book.ids id) book id

unfoldable pub remove : Bool → Book → ℕ → Bool × Book
remove alloc book id =
    if id == 0 then (false, book) else remove_known alloc book id (find_by_id book.head id)

-- `phone_book_clear` frees every node and free id.
unfoldable pub clear : Book → Book
clear book = record { head = leaf; ids = record { next_id = 1; free_ids = [] } }

abbrev pub reinsert : Tree × Option Contact → CString → Bool × Tree
reinsert (t, none) text = (false, t)
reinsert (t, some c) text = (true, add t (record c { last_name = text }))

abbrev pub move_found : Tree → ℕ → CString → Option Contact → Bool × Tree
move_found head id text none = (false, head)
move_found head id text (some c) = reinsert (extract_node head id) text

abbrev pub move_to : Tree → ℕ → Option CString → Bool × Tree
move_to head id none = (false, head)
move_to head id (some text) = move_found head id text (find_by_id head id)

-- The head after `phone_book_edit_last_name`.
unfoldable pub edit_last_name : Tree → ℕ → Pointer CString → Bool × Tree
edit_last_name head id last_name = move_to head id (copy_string name_size last_name)

-- An edit in place of the node that `phone_book_find_by_id` returns, where `edit` is `none` for -1.
unfoldable pub edit_at : Tree → ℕ → (Contact → Option Contact) → Option Tree
edit_at leaf id edit = none
edit_at (node c l r h) id edit =
    let left = edit_at l id edit in
    let right = edit_at r id edit in
    if c.id == id
    then elim (edit c) [ none ↦ none | some d ↦ some (node d l r h) ]
    else elim (find_by_id l id) [
      | some d ↦ elim left [ none ↦ none | some l' ↦ some (node c l' r h) ]
      | none ↦ elim right [ none ↦ none | some r' ↦ some (node c l r' h) ]
    ]

abbrev edit_field : (Contact → CString → Contact) → Pointer CString → Contact → Option Contact
edit_field set text c = elim (copy_string name_size text) [ none ↦ none | some t ↦ some (set c t) ]

abbrev done : Tree → Option Tree → Bool × Tree
done head none = (false, head)
done head (some t) = (true, t)

unfoldable pub edit_name : Tree → ℕ → Pointer CString → Bool × Tree
edit_name head id text =
    done head (edit_at head id (edit_field (λ c t. record c { name = t }) text))

unfoldable pub edit_patronymic : Tree → ℕ → Pointer CString → Bool × Tree
edit_patronymic head id text =
    done head (edit_at head id (edit_field (λ c t. record c { patronymic = t }) text))

unfoldable pub edit_home_address : Tree → ℕ → Pointer CString → Bool × Tree
edit_home_address head id text =
    done head (edit_at head id (edit_field (λ c t. record c { home_address = t }) text))

unfoldable pub edit_workplace : Tree → ℕ → Pointer CString → Bool × Tree
edit_workplace head id text =
    done head (edit_at head id (edit_field (λ c t. record c { workplace = t }) text))

unfoldable pub edit_job_title : Tree → ℕ → Pointer CString → Bool × Tree
edit_job_title head id text =
    done head (edit_at head id (edit_field (λ c t. record c { job_title = t }) text))

-- The three edits at an index; the contact's part refuses an index that is too large.
unfoldable pub edit_phone : Tree → ℕ → ℕ → Pointer CString → Bool × Tree
edit_phone head id index phone_number =
    done head (edit_at head id (edit_phone_of index phone_number))

unfoldable pub edit_email : Tree → ℕ → ℕ → Pointer CString → Bool × Tree
edit_email head id index email = done head (edit_at head id (edit_email_of index email))

unfoldable pub edit_social_link : Tree → ℕ → ℕ → Pointer CString → Bool × Tree
edit_social_link head id index social_link =
    done head (edit_at head id (edit_social_link_of index social_link))
