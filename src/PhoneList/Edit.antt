-- ===== src/PhoneList/Edit.antt =====
-- The remaining functions of phone_book.c: creation, edits, searches and `phone_book_clear`.
pub mod Create
pub mod Refine
pub mod Search
use eltex_education.Common.{
  ℕ, zero, suc, ◌+◌, Bool, true, false, not, ◌&&◌, Option, none, some, List, [], ◌∷◌, ◌++◌, ◌==◌,
  if◌then◌else◌, length,
}
use eltex_education.Common.Memory.{Pointer}
use eltex_education.Common.CString.{CString}
use eltex_education.PhoneTree.Contact.{
  Contact, name_size, copy_string, node_create, edit_phone_of, edit_email_of, edit_social_link_of,
}
use eltex_education.PhoneTree.Tree.{matches}
use eltex_education.PhoneTree.Book.{IdManager, take_id}
use eltex_education.PhoneList.Heap.{
  Ptr, null, node, Cmd, pure, ◌>>=◌, ◌>>◌, load, store, set_contact, free,
}
use eltex_education.PhoneList.Operations.{add, detach, find_by_id}

-- `if (created_id != NULL) *created_id = new_node->id`, on what `created_id` leads to.
unfoldable pub write_created : Pointer ℕ → Ptr → Cmd (Pointer ℕ)
unfolding load
write_created none new = pure none
write_created (some before) new = do n ← load new; pure (some n.contact.id)

-- The node, with the id that it is given, at the address that `malloc` returned. `created_id` is what
-- the caller's pointer leads to, and the last result what it leads to behind the call.
unfoldable pub add_created :
    ℕ
    → Ptr
    → Ptr
    → Contact
    → IdManager
    → Pointer ℕ
    → Option (ℕ × IdManager)
    → Cmd (Bool × Ptr × IdManager × Pointer ℕ)
unfolding add write_created
add_created fuel fresh head c ids created_id none = pure (false, head, ids, created_id)
add_created fuel fresh head c ids created_id (some (id, ids')) = do
  store fresh (node (record c { id = id }) null null)
  (ok, head') ← add fuel head fresh
  created_id' ← if ok then write_created created_id fresh else pure created_id
  pure (ok, head', ids', created_id')

unfoldable pub add_built :
    ℕ
    → Ptr
    → Ptr
    → IdManager
    → Pointer ℕ
    → Option Contact
    → Cmd (Bool × Ptr × IdManager × Pointer ℕ)
unfolding add_created
add_built fuel fresh head ids created_id none = pure (false, head, ids, created_id)
add_built fuel fresh head ids created_id (some c) =
    add_created fuel fresh head c ids created_id (take_id ids)

-- `fresh` is what `malloc` returns, or NULL. The branch in which `phone_book_add` fails is not
-- reached, since `head` and the node are not NULL.
unfoldable pub create_and_add :
    ℕ
    → Ptr
    → Pointer CString
    → Pointer CString
    → Pointer CString
    → Pointer CString
    → Pointer CString
    → Pointer CString
    → Pointer CString
    → Ptr
    → IdManager
    → Pointer ℕ
    → Cmd (Bool × Ptr × IdManager × Pointer ℕ)
unfolding add_built
create_and_add fuel fresh name last_name patronymic phone home workplace job head ids created_id =
    add_built fuel fresh head ids created_id
      (node_create (not (fresh == null)) 0 name last_name patronymic phone home workplace job)

-- `edit` of the contact at `p`, `none` where the C function returns -1.
abbrev pub store_edited : Ptr → Option Contact → Cmd Bool
store_edited p none = pure false
store_edited p (some c) = set_contact p c >> pure true

-- An edit in place of the node that `phone_book_find_by_id` returns.
unfoldable pub edit_at : ℕ → Ptr → ℕ → (Contact → Option Contact) → Cmd Bool
edit_at fuel head id edit = do
  p ← find_by_id fuel head id
  if p == null then pure false else do n ← load p; store_edited p (edit n.contact)

abbrev pub with_text : Option CString → (CString → Contact) → Option Contact
with_text none set = none
with_text (some text) set = some (set text)

abbrev pub edit_field : (Contact → CString → Contact) → Pointer CString → Contact → Option Contact
edit_field set text c = with_text (copy_string name_size text) (set c)

unfoldable pub edit_name : ℕ → Ptr → ℕ → Pointer CString → Cmd Bool
unfolding edit_at
edit_name fuel head id text = edit_at fuel head id (edit_field (λ c t. record c { name = t }) text)

unfoldable pub edit_patronymic : ℕ → Ptr → ℕ → Pointer CString → Cmd Bool
unfolding edit_at
edit_patronymic fuel head id text =
    edit_at fuel head id (edit_field (λ c t. record c { patronymic = t }) text)

unfoldable pub edit_home_address : ℕ → Ptr → ℕ → Pointer CString → Cmd Bool
unfolding edit_at
edit_home_address fuel head id text =
    edit_at fuel head id (edit_field (λ c t. record c { home_address = t }) text)

unfoldable pub edit_workplace : ℕ → Ptr → ℕ → Pointer CString → Cmd Bool
unfolding edit_at
edit_workplace fuel head id text =
    edit_at fuel head id (edit_field (λ c t. record c { workplace = t }) text)

unfoldable pub edit_job_title : ℕ → Ptr → ℕ → Pointer CString → Cmd Bool
unfolding edit_at
edit_job_title fuel head id text =
    edit_at fuel head id (edit_field (λ c t. record c { job_title = t }) text)

unfoldable pub edit_phone : ℕ → Ptr → ℕ → ℕ → Pointer CString → Cmd Bool
unfolding edit_at
edit_phone fuel head id index text = edit_at fuel head id (edit_phone_of index text)

unfoldable pub edit_email : ℕ → Ptr → ℕ → ℕ → Pointer CString → Cmd Bool
unfolding edit_at
edit_email fuel head id index text = edit_at fuel head id (edit_email_of index text)

unfoldable pub edit_social_link : ℕ → Ptr → ℕ → ℕ → Pointer CString → Cmd Bool
unfolding edit_at
edit_social_link fuel head id index text = edit_at fuel head id (edit_social_link_of index text)

-- Taken out, given the new last name and put in again.
unfoldable pub move_to : ℕ → Ptr → Ptr → Option CString → Cmd (Bool × Ptr)
move_to fuel head p none = pure (false, head)
move_to fuel head p (some text) = do
  head' ← detach head p
  n ← load p
  set_contact p (record n.contact { last_name = text })
  add fuel head' p

unfoldable pub edit_last_name : ℕ → Ptr → ℕ → Pointer CString → Cmd (Bool × Ptr)
unfolding move_to
edit_last_name fuel head id last_name = do
  p ← find_by_id fuel head id
  if p == null then pure (false, head) else move_to fuel head p (copy_string name_size last_name)

-- The loop of `phone_book_clear` over the nodes; `*head` is NULL behind it.
unfoldable pub clear_nodes : ℕ → Ptr → Cmd (Unit {0})
clear_nodes zero head = λ _. none
clear_nodes (suc fuel) head =
    if head == null then pure tt else do n ← load head; free head; clear_nodes fuel n.next

unfoldable pub clear : ℕ → Ptr → Cmd (Ptr × IdManager)
unfolding clear_nodes
clear fuel head = do clear_nodes fuel head; pure (null, record { next_id = 1; free_ids = [] })

-- The loop of `phone_book_find` on the items found so far; `alloc n` is the success of the
-- `realloc` to `n + 1` items, without which the answer is empty.
unfoldable pub find_loop :
    ℕ → (ℕ → Bool) → Ptr → Pointer CString → Pointer CString → List Ptr → Cmd (List Ptr)
find_loop zero alloc head name last_name items = λ _. none
find_loop (suc fuel) alloc head name last_name items = if head == null then pure items else do
  n ← load head
  if not (matches name n.contact.name && matches last_name n.contact.last_name)
      then find_loop fuel alloc n.next name last_name items
      else if alloc (length items)
      then find_loop fuel alloc n.next name last_name (items ++ (head ∷ []))
      else pure []

unfoldable pub find : ℕ → (ℕ → Bool) → Ptr → Pointer CString → Pointer CString → Cmd (List Ptr)
unfolding find_loop
find fuel alloc head none none = pure []
find fuel alloc head (some name) last_name = find_loop fuel alloc head (some name) last_name []
find fuel alloc head none (some last_name) = find_loop fuel alloc head none (some last_name) []
