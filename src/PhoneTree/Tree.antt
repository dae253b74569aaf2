-- ===== src/PhoneTree/Tree.antt =====
-- The AVL tree of src/phone_book.c of 04-03-avl-tree-phone-book: rotations, insertion, extraction
-- and search. A node owns its children, so the pointers are a tree.
pub mod View
pub mod Balance
pub mod Add
pub mod Take
pub mod Extract
pub mod Search
use eltex_education.Common.{
  ℕ, zero, suc, ◌+◌, ◌%◌, Bool, true, false, not, ◌&&◌, Option, none, some, List, [], ◌∷◌, ◌++◌,
  ltb, ◌==◌, if◌then◌else◌, length,
}
use eltex_education.Common.Int.{ℤ, pos, negsuc, sub_ℕ, ltb_ℤ}
use eltex_education.Common.Memory.{Pointer}
use eltex_education.Common.Memory.Words.{u8}
use eltex_education.Common.CString.{CString, follows, same_text}
use eltex_education.PhoneTree.Contact.{Contact}

-- `phone_book_node_t *`, with the stored `height`.
pub data Tree : Type 0 where
  leaf : Tree
  node : Contact → Tree → Tree → ℕ → Tree

abbrev pub height : Tree → ℕ
height leaf = 0
height (node c l r h) = h

-- `bfactor` is never asked of NULL, and is compared with a number.
abbrev pub bfactor : Tree → ℤ
bfactor leaf = pos 0
bfactor (node c l r h) = sub_ℕ (height r) (height l)

unfoldable pub equals_ℤ : ℤ → ℤ → Bool
equals_ℤ a b = not (ltb_ℤ a b) && not (ltb_ℤ b a)

unfoldable pub is_negative : ℤ → Bool
is_negative a = ltb_ℤ a (pos 0)

unfoldable pub is_positive : ℤ → Bool
is_positive a = ltb_ℤ (pos 0) a

-- A node with the height that `fix_height` computes.
abbrev pub fix_height : Contact → Tree → Tree → Tree
fix_height c l r = node c l r (u8 ((if ltb (height r) (height l) then height l else height r) + 1))

-- C would dereference NULL where the child is a leaf; the node is then left as it is. `balance` rotates
-- away from a child that is two levels higher, which is no leaf.
unfoldable pub right_rotate : Tree → Tree
right_rotate leaf = leaf
right_rotate (node c leaf r h) = node c leaf r h
right_rotate (node c (node d a b k) r h) = fix_height d a (fix_height c b r)

unfoldable pub left_rotate : Tree → Tree
left_rotate leaf = leaf
left_rotate (node c l leaf h) = node c l leaf h
left_rotate (node c l (node d a b k) h) = fix_height d (fix_height c l a) b

-- `balance` of a node with this contact and these children.
pub balance : Contact → Tree → Tree → Tree
unfolding left_rotate right_rotate
balance c l r =
    if equals_ℤ (sub_ℕ (height r) (height l)) (pos 2)
    then left_rotate
        (if is_negative (bfactor r) then set_right (right_rotate r) else fix_height c l r)
    else if equals_ℤ (sub_ℕ (height r) (height l)) (negsuc 1)
    then right_rotate
        (if is_positive (bfactor l) then set_left (left_rotate l) else fix_height c l r)
    else fix_height c l r
  where
    fixed : ℕ
    fixed = height (fix_height c l r)

    set_right : Tree → Tree
    set_right r' = node c l r' fixed

    set_left : Tree → Tree
    set_left l' = node c l' r fixed

-- `phone_book_add` with the new node's children NULL.
unfoldable pub add : Tree → Contact → Tree
unfolding balance
add leaf c = node c leaf leaf 1
add (node d l r h) c =
    let left = balance d (add l c) r in
    let right = balance d l (add r c) in if follows d.last_name c.last_name then left else right

unfoldable pub find_by_id : Tree → ℕ → Option Contact
find_by_id leaf id = none
find_by_id (node c l r h) id =
    let left = find_by_id l id in
    let right = find_by_id r id in
    if c.id == id then some c else elim left [ none ↦ right | some d ↦ some d ]

-- `find_min` of a node: its contact.
unfoldable pub find_min : Contact → Tree → Contact
find_min c leaf = c
find_min c (node d l r h) = find_min d l

-- `remove_min` of the node with this contact and these children.
unfoldable pub remove_min : Contact → Tree → Tree → Tree
unfolding balance
remove_min c leaf r = r
remove_min c (node d a b k) r = balance c (remove_min d a b) r

-- The node at the root taken out.
unfoldable pub join : Tree → Tree → Tree
unfolding find_min remove_min balance
join l leaf = l
join l (node d a b k) = balance (find_min d a) l (remove_min d a b)

-- `extract_node`: the tree left, and `*extracted`.
unfoldable pub extract_node : Tree → ℕ → Tree × Option Contact
unfolding join
extract_node leaf id = (leaf, none)
extract_node (node c l r h) id =
    let left = extract_node l id in
    let right = extract_node r id in
    if c.id == id then (join l r, some c) else elim left.1 [
      | some d ↦ (balance c left.0 r, some d)
      | none ↦ (balance c left.0 right.0, right.1)
    ]

abbrev pub matches : Pointer CString → CString → Bool
matches none text = true
matches (some wanted) text = same_text text wanted

-- `find_in_tree` on the contacts found so far; `alloc n` is the success of the `realloc` to `n + 1`
-- items, and `none` the result -1.
unfoldable pub find_in_tree :
    (ℕ → Bool) → Tree → Pointer CString → Pointer CString → List Contact → Option (List Contact)
find_in_tree alloc leaf name last_name found = some found
find_in_tree alloc (node c l r h) name last_name found =
    elim (find_in_tree alloc l name last_name found) [
      | none ↦ none
      | some before ↦
          if not (matches name c.name && matches last_name c.last_name)
          then find_in_tree alloc r name last_name before
          else if alloc (length before)
          then find_in_tree alloc r name last_name (before ++ (c ∷ []))
          else none
    ]

-- `phone_book_find`: no pattern at all finds nothing, and a failed `realloc` empties the answer.
unfoldable pub find : (ℕ → Bool) → Tree → Pointer CString → Pointer CString → List Contact
unfolding find_in_tree
find alloc t none none = []
find alloc t (some name) last_name = elim (find_in_tree alloc t (some name) last_name []) [
  | none ↦ []
  | some found ↦ found
]
find alloc t none (some last_name) = elim (find_in_tree alloc t none (some last_name) []) [
  | none ↦ []
  | some found ↦ found
]
