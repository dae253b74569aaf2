-- ===== src/PhoneList/Edit/Create.antt =====
-- `phone_book_node_create_and_add` of the doubly linked phone book and of the one on an AVL tree agree.
use eltex_education.Common.{
  ℕ, ◌<◌, ◌≡◌, ◌≢◌, ◌⊎◌, inl, inr, ◌∙◌, refl, sym, ap, Bool, true, false, not, Option, none, some,
  arith, ◌==◌, length,
}
use eltex_education.Common.Memory.{Pointer}
use eltex_education.Common.CString.{CString}
use eltex_education.PhoneTree.Contact.{Contact, node_create}
use eltex_education.PhoneTree.Tree.View.{in_order}
use eltex_education.PhoneTree.Tree.Add.{IsSorted, insert, in_order-add}
use eltex_education.PhoneTree.Book.{
  Book, IdManager, take_id, add_new, add_taken, create_and_add as tree_create_and_add,
}
use eltex_education.PhoneList.Heap.{Ptr, null, node, Heap, write}
use eltex_education.PhoneList.Heap.Chain.{load-ok, Cells, Apart, contacts, Chain-frame}
use eltex_education.PhoneList.Insert.{IsList, add-Added}
use eltex_education.PhoneList.Edit.{write_created, add_created, add_built, create_and_add}

-- What a pointer that may be NULL leads to when an id is written through it.
abbrev pub written : Pointer ℕ → ℕ → Pointer ℕ
written none id = none
written (some before) id = some id

-- A creation in the list book agrees with one that takes a tree book from `b` to `b'`, and writes the
-- id of the contact that was added through `created_id`, or nothing if it fails.
pub record Created (created_id : Pointer ℕ) (ok : Bool) (b b' : Book)
    (r : Option ((Bool × Ptr × IdManager × Pointer ℕ) × Heap)) : Type 0 where
  pub heap : Heap
  pub head : Ptr
  pub cells : Cells
  pub created_id' : Pointer ℕ
  pub result : r ≡ some ((ok, head, b'.ids, created_id'), heap)
  pub list : IsList heap head cells
  pub contents : contacts cells ≡ in_order b'.head
  pub reported :
      ((ok ≡ false) × (created_id' ≡ created_id))
      ⊎ ((ok ≡ true)
          × (c : Contact) × (in_order b'.head ≡ insert c (in_order b.head))
          × (created_id' ≡ written created_id c.id))

write_created-written :
    (created_id : Pointer ℕ) (h : Heap) (p next previous : Ptr) (c : Contact)
    → 0 < p
    → h p ≡ some (node c next previous)
    → write_created created_id p h ≡ some (written created_id c.id, h)
unfolding write_created
write_created-written none h p next previous c l e = refl
write_created-written (some before) h p next previous c l e =
    rw (load-ok h p (node c next previous) l e) refl

module _ (fuel : ℕ) (h : Heap) (fresh head : Ptr) (cells : Cells) (b : Book)
    (v : IsList h head cells) (l : length cells < fuel) (away : Apart fresh cells)
    (agree : contacts cells ≡ in_order b.head) (sorted : IsSorted (in_order b.head))
    (created_id : Pointer ℕ) where
  unchanged : Created created_id false b b (some ((false, head, b.ids, created_id), h))
  unchanged = record {
    heap = h;
    head = head;
    cells = cells;
    created_id' = created_id;
    result = refl;
    list = v;
    contents = agree;
    reported = inl (refl, refl);
  }

  add_created-Created :
      (c : Contact) (o : Option (ℕ × IdManager))
      → fresh ≢ null
      → let (ok, b') = add_taken b c o in
        Created created_id ok b b' (add_created fuel fresh head c b.ids created_id o h)
  unfolding add_created
  add_created-Created c none ne = unchanged
  add_created-Created c (some (id, ids)) ne =
      let c' : Contact = record c { id = id } in
      let h1 : Heap = write h fresh (some (node c' null null)) in
      let r =
        add-Added fuel h1 head fresh (node c' null null) cells
          (record {
            start = v.start;
            chain = Chain-frame h fresh _ null cells null away v.chain;
            distinct = v.distinct;
          })
          (omega arith) (ground arith) away l in
      let (next, previous, there) = r.placed in
      let inserted = (in_order-add b.head c' sorted).0 in
      record {
        heap = r.heap;
        head = r.head;
        cells = r.cells';
        created_id' = written created_id id;
        result =
            rw
              (
                r.result,
                write_created-written created_id r.heap fresh next previous c' (omega arith) there,
              )
              refl;
        list = r.list;
        contents = r.inserted ∙ ap (insert c') agree ∙ sym inserted;
        reported = inr (refl, c', inserted, refl);
      }

  built-Created :
      (o : Option Contact)
      → (o ≢ none → fresh ≢ null)
      → let (ok, b') = add_new b o in
        Created created_id ok b b' (add_built fuel fresh head b.ids created_id o h)
  unfolding add_built
  built-Created none ne = unchanged
  built-Created (some c) ne = add_created-Created c (take_id b.ids) (ne (λ e. cc))

  no_node :
      (name last_name patronymic phone home workplace job : Pointer CString)
      → fresh ≡ null
      → node_create (not (fresh == null)) 0 name last_name patronymic phone home workplace job
        ≡ none
  unfolding node_create
  no_node none last_name patronymic phone home workplace job e = refl
  no_node (some n) none patronymic phone home workplace job e = refl
  no_node (some n) (some m) patronymic phone home workplace job e = rw e refl

  -- When a heap holds a doubly linked list of the contacts of a sorted tree book, in order, and
  -- `malloc` returns NULL or an address outside the list, `phone_book_node_create_and_add` of the
  -- list book, with fuel for its loops, reads no invalid pointer and gives the status and the ids
  -- of the tree book, and the heap again holds a list of its contacts, linked both ways. It writes
  -- the id of the node that it put into the list through `created_id`, unless that is NULL, and
  -- leaves `created_id` as it was when it fails.
  pub create_and_add-Created :
      (name last_name patronymic phone home workplace job : Pointer CString)
      → let (ok, b') =
          tree_create_and_add
            (not (fresh == null))
            name
            last_name
            patronymic
            phone
            home
            workplace
            job
            b in
        Created created_id ok b b' (
          create_and_add fuel fresh name last_name patronymic phone home workplace job head b.ids
            created_id h)
  unfolding create_and_add tree_create_and_add
  create_and_add-Created name last_name patronymic phone home workplace job =
      built-Created
        (node_create (not (fresh == null)) 0 name last_name patronymic phone home workplace job)
        (λ ne e. ne (no_node name last_name patronymic phone home workplace job e))
