-- ===== src/PhoneTree/Tree/Extract.antt =====
-- `phone_book_extract_node`: exactly one contact leaves, and the tree stays sorted and balanced.
use eltex_education.Common.{
  ℕ, suc, ◌+◌, ◌≤◌, ◌<◌, ◌≡◌, refl, ◌∙◌, ◌⊎◌, Option, none, some, inl, inr, [], ◌∷◌, arith, ◌==◌,
  Bool-cases, Option-cases, ◌^◌, length,
}
use eltex_education.PhoneTree.Contact.{Contact}
use eltex_education.PhoneTree.Tree.{
  Tree, leaf, node, height, add, balance, find_min, remove_min, join, extract_node,
}
use eltex_education.PhoneTree.Tree.Balance.{balance-Heights, in_order-balance}
use eltex_education.PhoneTree.Tree.View.{in_order, IsAvl}
use eltex_education.PhoneTree.Tree.Add.{height_fits, add-left, add-right}
use eltex_education.Common.CString.{follows}
use eltex_education.PhoneTree.Tree.Take.{
  Removed, Removed-left, Removed-right, extract-left, extract-right, extract-here, extract-Takes,
}

-- A tree that came from one of height `n` by taking a contact out.
record Shrunk (n : ℕ) (t : Tree) : Type 0 where
  avl : IsAvl t
  low : n ≤ height t + 1
  high : height t ≤ n

remove_min-node :
    (c d : Contact) (a b r : Tree) (k : ℕ)
    → remove_min c (node d a b k) r ≡ balance c (remove_min d a b) r
unfolding remove_min
remove_min-node c d a b r k = refl

remove_min-leaf : (c : Contact) (r : Tree) → remove_min c leaf r ≡ r
unfolding remove_min
remove_min-leaf c r = refl

remove_min-Shrunk :
    (c : Contact) (l r : Tree) (h : ℕ)
    → IsAvl (node c l r h)
    → h < 254
    → Shrunk h (remove_min c l r)
remove_min-Shrunk c leaf r h (e, p, q, al, ar) s =
    rw (remove_min-leaf c r) (record { avl = ar; low = omega arith; high = omega arith })
remove_min-Shrunk c (node d a b k) r h (e, p, q, al, ar) s =
    let i = remove_min-Shrunk d a b k al (omega arith) in
    let x =
      balance-Heights c (remove_min d a b) r i.avl ar (omega arith) (omega arith) (omega arith) in
    rw (remove_min-node c d a b r k)
      (record { avl = x.avl; low = ground arith; high = omega arith })

join-leaf : (l : Tree) → join l leaf ≡ l
unfolding join
join-leaf l = refl

join-node :
    (l : Tree) (d : Contact) (a b : Tree) (k : ℕ)
    → join l (node d a b k) ≡ balance (find_min d a) l (remove_min d a b)
unfolding join
join-node l d a b k = refl

join-Shrunk :
    (c : Contact) (l r : Tree) (h : ℕ) → IsAvl (node c l r h) → h < 254 → Shrunk h (join l r)
join-Shrunk c l leaf h (e, p, q, al, ar) s =
    rw (join-leaf l) (record { avl = al; low = omega arith; high = omega arith })
join-Shrunk c l (node d a b k) h (e, p, q, al, ar) s =
    let i = remove_min-Shrunk d a b k ar (omega arith) in
    let x =
      balance-Heights (find_min d a) l (remove_min d a b) al i.avl (omega arith) (omega arith)
        (omega arith) in
    rw (join-node l d a b k) (record { avl = x.avl; low = ground arith; high = omega arith })

balance-Shrunk :
    (c : Contact) (l r l' r' : Tree) (h : ℕ)
    → IsAvl (node c l r h)
    → h < 254
    → Shrunk (height l) l'
    → Shrunk (height r) r'
    → (height l' ≡ height l) ⊎ (height r' ≡ height r)
    → Shrunk h (balance c l' r')
balance-Shrunk c l r l' r' h (e, p, q, al, ar) s i j one =
    let x = balance-Heights c l' r' i.avl j.avl (omega arith) (omega arith) (omega arith) in
    record { avl = x.avl; low = ground arith; high = omega arith }

Shrunk-self : (t : Tree) → IsAvl t → Shrunk (height t) t
Shrunk-self t a = record { avl = a; low = omega arith; high = omega arith }

balance-same :
    (c : Contact) (l r l' r' : Tree) (h : ℕ)
    → IsAvl (node c l r h)
    → h < 254
    → Shrunk (height l) l'
    → Shrunk (height r) r'
    → height l' ≡ height l
    → height r' ≡ height r
    → height (balance c l' r') ≡ h
balance-same c l r l' r' h (e, p, q, al, ar) s i j u v =
    let x = balance-Heights c l' r' i.avl j.avl (omega arith) (omega arith) (omega arith) in
    x.same (omega arith) (omega arith) ∙ omega arith

-- What `extract_node` leaves, and the height if it took nothing.
record Extracted (n : ℕ) (out : Tree × Option Contact) : Type 0 where
  tree : Shrunk n out.0
  kept : out.1 ≡ none → height out.0 ≡ n

extract-leaf : (id : ℕ) → Extracted 0 (extract_node leaf id)
unfolding extract_node
extract-leaf id = record { tree = Shrunk-self leaf tt; kept = λ _. refl }

extract-Extracted :
    (t : Tree) (id : ℕ) → IsAvl t → height t < 254 → Extracted (height t) (extract_node t id)
extract-Extracted leaf id a s = extract-leaf id
extract-Extracted (node c l r h) id a s =
    let left = extract-Extracted l id a.3 (omega arith) in
    let right = extract-Extracted r id a.4 (omega arith) in
    elim (Bool-cases (c.id == id)) [
      | inl q ↦
          rw (extract-here c l r h id q) (record { tree = join-Shrunk c l r h a s; kept = λ z. cc })
      | inr q ↦ elim (Option-cases (extract_node l id).1) [
        | inr (d, e) ↦ rw (extract-left c d l r h id q e) (record {
          tree =
              balance-Shrunk c l r (extract_node l id).0 r h a s left.tree (Shrunk-self r a.4)
                (inr refl);
          kept = λ z. cc;
        })
        | inl e ↦ rw (extract-right c l r h id q e) (record {
          tree =
              balance-Shrunk c l r (extract_node l id).0 (extract_node r id).0 h a s left.tree
                right.tree (inl (left.kept e));
          kept = λ z.
              balance-same c l r (extract_node l id).0 (extract_node r id).0 h a s left.tree
                right.tree (left.kept e) (right.kept z);
        })
      ]
    ]

-- `phone_book_extract_node` takes out one contact with the id, and no other contact changes or
-- moves in the order of the tree; if it takes none, the contacts stay as they were and none has
-- the id.
pub extract_node-Removed :
    (t : Tree) (id : ℕ) → let (t', o) = extract_node t id in Removed id (in_order t) (in_order t') o
extract_node-Removed t id = extract-Takes t id

-- In a tree whose stored heights are right and whose nodes are balanced, of less than 2 ^ 127 - 1
-- contacts, `phone_book_extract_node` keeps every height right and every node balanced; the height
-- does not grow and shrinks by one at most.
pub extract_node-IsAvl :
    (t : Tree) (id : ℕ)
    → IsAvl t
    → suc (length (in_order t)) < 2 ^ 127
    → let t' = (extract_node t id).0 in
      IsAvl t' × (height t ≤ height t' + 1) × (height t' ≤ height t)
extract_node-IsAvl t id a h =
    let x = extract-Extracted t id a (height_fits t a h) in (x.tree.avl, x.tree.low, x.tree.high)

add_leaf : (c : Contact) → in_order (add leaf c) ≡ c ∷ []
unfolding add
add_leaf c = refl

-- `phone_book_add` brings in the new contact and nothing else, sorted or not.
pub add-Removed : (t : Tree) (c : Contact) → Removed c.id (in_order (add t c)) (in_order t) (some c)
add-Removed leaf c = ([], [], add_leaf c, refl, refl)
add-Removed (node d l r h) c =
    let left = add-Removed l c in
    let right = add-Removed r c in
    elim (Bool-cases (follows d.last_name c.last_name)) [
      | inl q ↦
          rw (add-left d c l r h q, in_order-balance d (add l c) r)
            (Removed-left c.id (in_order (add l c)) (in_order l) (d ∷ in_order r) c left)
      | inr q ↦
          rw (add-right d c l r h q, in_order-balance d l (add r c))
            (Removed-right c.id (in_order l) (d ∷ in_order (add r c)) (d ∷ in_order r) c
              (Removed-right c.id (d ∷ []) (in_order (add r c)) (in_order r) c right))
    ]
