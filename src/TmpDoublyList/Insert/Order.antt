-- ===== src/TmpDoublyList/Insert/Order.antt =====
-- `LinkInsertOrderWithNumber` puts a node at its place by number.
use mathlib.Core.Path.{subst}
use winsock_multi_thread_ser.Base.{
  ℕ, zero, suc, ◌+◌, ◌≤◌, ◌<◌, ◌≡◌, ◌≢◌, refl, sym, inl, inr, true, false, leb, List, [], ◌∷◌, ◌++◌,
  append_assoc, arith, length, ◌==◌, if◌then◌else◌, Bool, Bool-cases, Ptr, null, u32, count,
  count-append, ok, ◌>>=◌, Returns, returns, Returns-bind,
}
use winsock_multi_thread_ser.TmpDoublyList.{TmpDoublyList, link}
use winsock_multi_thread_ser.TmpDoublyList.Back.{first_or}
use winsock_multi_thread_ser.TmpDoublyList.Invariant.{IsDouble}
use winsock_multi_thread_ser.TmpDoublyList.Link.{link-IsDouble}
use winsock_multi_thread_ser.TmpDoublyList.Unlink.{SameNodes}
use winsock_multi_thread_ser.TmpDoublyList.Insert.{
  insert_order, link_insert_prev, link_insert_order_with_number,
}
use winsock_multi_thread_ser.TmpDoublyList.Insert.Place.{Chain-next, link_insert_prev-IsDouble}

-- The list with `p` behind all that come first and have no higher number.
abbrev pub placed : (Ptr → ℕ) → Ptr → List Ptr → List Ptr
placed number p [] = p ∷ []
placed number p (x ∷ xs) = if leb (number x) (number p) then x ∷ placed number p xs else p ∷ x ∷ xs

-- Numbers that never fall.
abbrev pub Ascending : (Ptr → ℕ) → List Ptr → Type 0
Ascending number [] = Unit {0}
Ascending number (x ∷ []) = Unit {0}
Ascending number (x ∷ y ∷ ys) = (number x ≤ number y) × Ascending number (y ∷ ys)

placed-Ascending :
    (number : Ptr → ℕ) (p : Ptr) (xs : List Ptr)
    → Ascending number xs
    → Ascending number (placed number p xs)
placed-Ascending number p [] a = tt
placed-Ascending number p (x ∷ []) a = elim (Bool-cases (leb (number x) (number p))) [
  | inl low ↦ rw low (ground (arith, low), tt)
  | inr high ↦ rw high (ground (arith, high), tt)
]
placed-Ascending number p (x ∷ y ∷ ys) a = elim (Bool-cases (leb (number x) (number p))) [
  | inl low ↦
      let rest = placed-Ascending number p (y ∷ ys) a.1 in
      elim (Bool-cases (leb (number y) (number p))) [
        | inl low' ↦ rw (low, low') (a.0, rw low' at rest)
        | inr high ↦ rw (low, high) (ground (arith, low), rw high at rest)
      ]
  | inr high ↦ rw high (ground (arith, high), a)
]

module _ {ℓ} {A : Type ℓ} where
  -- The node is linked at its place, and `TRUE` is returned.
  abbrev pub Placed : TmpDoublyList A → List Ptr → TmpDoublyList A × Bool → Type ℓ
  Placed l xs r = IsDouble r.0 xs × SameNodes l r.0 × (r.1 ≡ true)

module _ {ℓ} {A : Type ℓ} (l : TmpDoublyList A) (p : Ptr) (some_p : p ≢ null)
    (is_live : l.live p ≡ true) where
  -- The claim for the loop with so many rounds left, at a node behind others.
  abbrev Loops : ℕ → Type ℓ
  Loops k =
      (front : List Ptr) (x : Ptr) (ys : List Ptr)
      → IsDouble l (front ++ x ∷ ys)
      → count p (front ++ x ∷ ys) ≡ 0
      → length (front ++ x ∷ ys) + 1 < u32
      → length ys < k
      → Returns (Placed l (front ++ placed l.node_number p (x ∷ ys))) (insert_order k p x l)

  -- Behind a node with no higher number.
  further :
      (k : ℕ) (loops : Loops k) (front : List Ptr) (x : Ptr) (ys : List Ptr)
      → IsDouble l (front ++ x ∷ ys)
      → count p (front ++ x ∷ ys) ≡ 0
      → length (front ++ x ∷ ys) + 1 < u32
      → length ys < suc k
      → Returns (Placed l (front ++ x ∷ placed l.node_number p ys)) (
          if first_or null ys == null
          then (link p l >>= λ l'. ok (l', true))
          else insert_order k p (first_or null ys) l)
  further k loops front x [] v out small enough =
      Returns-bind (link-IsDouble l p (front ++ x ∷ []) v out some_p is_live small)
        (λ l' w. returns ((rw (append_assoc front (x ∷ []) (p ∷ [])) at w.0), w.1, refl))
  further k loops front x (y ∷ zs) v out small enough =
      let some_y : (y == null) ≡ false =
        ground (arith, v.not_null, count-append null front (x ∷ y ∷ zs)) in
      let split = append_assoc front (x ∷ []) (y ∷ zs) in
      let later =
        loops (front ++ x ∷ []) y zs (rw split v) (rw split out) (rw split small)
          (omega (arith, enough)) in
      rw some_y (rw (append_assoc front (x ∷ []) (placed l.node_number p (y ∷ zs))) at later)

  insert_order-Placed : (k : ℕ) → Loops k
  unfolding insert_order link_insert_prev
  insert_order-Placed zero front x ys v out small enough = absurd (omega (arith, enough))
  insert_order-Placed (suc k) front x ys v out small enough =
      let some_x : (x == null) ≡ false =
        ground (arith, v.not_null, count-append null front (x ∷ ys)) in
      let x_live : l.live x ≡ true = v.all_live x (ground (arith, count-append x front (x ∷ ys))) in
      elim (Bool-cases (leb (l.node_number x) (l.node_number p))) [
        | inl low ↦
            rw (some_x, low, x_live, Chain-next l.next l.head_node x front ys v.chain)
              (further k (insert_order-Placed k) front x ys v out small enough)
        | inr high ↦
            let in_front = link_insert_prev-IsDouble l p x ys some_p is_live front v out small in
            rw (some_x, high)
              (Returns-bind (rw some_x at in_front) (λ l' w. returns (w.0, w.1, refl)))
      ]

  link_insert_order_with_number-Placed :
      (xs : List Ptr)
      → IsDouble l xs
      → count p xs ≡ 0
      → length xs + 1 < u32
      → Returns (Placed l (placed l.node_number p xs)) (link_insert_order_with_number p l)
  unfolding link_insert_order_with_number
  link_insert_order_with_number-Placed [] v out small =
      let no_head : (l.head_node == null) ≡ true = ground (arith, v.chain) in
      rw no_head (
        Returns-bind (link-IsDouble l p [] v out some_p is_live small)
          (λ l' w. returns (w.0, w.1, refl)))
  link_insert_order_with_number-Placed (x ∷ xs) v out small =
      let some_head : (l.head_node == null) ≡ false = ground (arith, v.chain, v.not_null) in
      let rounds = l.node_link_count + 1 in
      let loop = insert_order-Placed rounds [] x xs v out small (omega (arith, v.links)) in
      rw some_head (
        subst
          (λ a. Returns (Placed l (placed l.node_number p (x ∷ xs))) (insert_order rounds p a l))
          (sym v.chain.0) loop)

  -- On a doubly linked list whose pointers and counter fit together, that has less than 2^32 - 1 nodes,
  -- and whose numbers never fall, `LinkInsertOrderWithNumber` of a node that is not linked ends
  -- within the rounds it is given, without undefined behaviour, and returns `TRUE`: forwards and
  -- backwards the node stands behind all nodes with no higher number and in front of the others,
  -- which keep their order, so the numbers never fall again; the contents of all nodes are as
  -- before, and all fits together.
  pub link_insert_order_with_number-Ascending :
      (xs : List Ptr)
      → IsDouble l xs
      → count p xs ≡ 0
      → length xs + 1 < u32
      → Ascending l.node_number xs
      → Returns (Placed l (placed l.node_number p xs)) (link_insert_order_with_number p l)
        × Ascending l.node_number (placed l.node_number p xs)
  link_insert_order_with_number-Ascending xs v out small a =
      (link_insert_order_with_number-Placed xs v out small, placed-Ascending l.node_number p xs a)
