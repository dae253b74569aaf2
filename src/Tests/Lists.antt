-- ===== src/Tests/Lists.antt =====
-- The doubly linked phone book: two nodes at the addresses 10 and 20, and a third to insert.
use eltex_education.Common.{
  ◌≡◌, ◌⊎◌, inr, refl, true, none, some, [], ◌∷◌, arith, ◌==◌, if◌then◌else◌,
}
use eltex_education.PhoneTree.Book.{create_and_add as tree_create_and_add, remove as tree_remove}
use eltex_education.PhoneTree.Tree.Search.{keep, wanted}
use eltex_education.PhoneList.Heap.{null, node, Heap}
use eltex_education.PhoneList.Heap.Chain.{Cells, contacts}
use eltex_education.PhoneList.Operations.{add, remove}
use eltex_education.PhoneList.Insert.{IsList, Added, add-Added}
use eltex_education.PhoneList.Remove.{Taken, Kept, remove-Taken}
use eltex_education.PhoneList.Edit.{create_and_add, find}
use eltex_education.PhoneList.Edit.Search.{picked, addresses, find-picked}
use eltex_education.PhoneList.Edit.Refine.{Agrees, remove-Agrees}
use eltex_education.PhoneList.Edit.Create.{Created, create_and_add-Created}
use eltex_education.Tests.Phone.{ann, bob, eve, book, book-IsValid, text, plenty, two-IsSorted}

abbrev heap : Heap
heap a =
    if a == 10
    then some (node ann 20 null)
    else if a == 20
    then some (node bob null 10)
    else if a == 30
    then some (node eve null null)
    else none

abbrev cells : Cells
cells = (10, ann) ∷ (20, bob) ∷ []

cells-IsList : IsList heap 10 cells
cells-IsList = record {
  start = refl;
  chain = (omega arith, refl, (omega arith, refl, tt));
  distinct = ((omega arith, tt), (tt, tt));
}

add-Added_example : Added heap 30 eve cells (add 3 10 30 heap)
add-Added_example =
    add-Added 3 heap 10 30 (node eve null null) cells cells-IsList (omega arith) refl
      (omega arith, (omega arith, tt)) (omega arith)

remove-Taken_example :
    Taken heap cells 2 book.ids (remove true 3 10 10 2 book.ids heap)
    ⊎ Kept heap 10 cells true 2 book.ids (remove true 3 10 10 2 book.ids heap)
remove-Taken_example = remove-Taken heap 2 book.ids true 3 10 cells cells-IsList (omega arith)

find-picked_example :
    (find 3 plenty 10 none (some (67 ∷ [])) heap
      ≡ some (addresses (picked (wanted none (some (67 ∷ []))) cells), heap))
    × (contacts (picked (wanted none (some (67 ∷ []))) cells)
        ≡ keep (wanted none (some (67 ∷ []))) (ann ∷ bob ∷ []))
find-picked_example =
    find-picked plenty none (some (67 ∷ [])) heap (λ n. refl) 3 10 cells cells-IsList (omega arith)
      (inr (λ e. cc))

create_and_add-Created_example :
    let (ok, b') = tree_create_and_add true text text none none none none none book in
    Created
      (some 0)
      ok
      book
      b'
      (create_and_add 3 30 text text none none none none none 10 book.ids (some 0) heap)
create_and_add-Created_example =
    create_and_add-Created 3 heap 30 10 cells book cells-IsList (omega arith)
      (omega arith, (omega arith, tt)) refl two-IsSorted (some 0) text text none none none none none

remove-Agrees_example :
    let (ok, b') = tree_remove true book 2 in Agrees ok b' (remove true 3 10 10 2 book.ids heap)
remove-Agrees_example =
    remove-Agrees 3 heap 10 cells book 2 cells-IsList (omega arith) refl book-IsValid (omega arith)
