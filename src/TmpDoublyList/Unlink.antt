-- ===== src/TmpDoublyList/Unlink.antt =====
-- `Unlink` of a doubly linked list takes a node out in one step.
use winsock_multi_thread_ser.Base.{
  ◌-◌, ◌<◌, ◌≡◌, ◌≢◌, refl, sym, ap, ==-refl, ==-eq, ◌∙◌, inl, inr, Bool, true, false, List, [],
  ◌∷◌, arith, ltb, ◌==◌, Bool-cases, lt→ltb, Ptr, null, count, erase, last_or, before, update,
  Chain, Chain-frame, Chain-erase, count-erase, length-erase, count-before, before-ne,
  last_or-erase_last, last_or-erase_other, Returns, returns,
}
use winsock_multi_thread_ser.TmpDoublyList.{
  TmpDoublyList, unlink, cut, cut_head, cut_middle, cut_tail,
}
use winsock_multi_thread_ser.TmpDoublyList.Back.{
  Back, behind, Back-frame, Back-before, Chain-behind, count-behind, behind-ne, behind-last,
  behind-last_or, Back-erase,
}
use winsock_multi_thread_ser.TmpDoublyList.Invariant.{IsDouble}

module _ {ℓ} {A : Type ℓ} where
  -- What `Unlink` leaves as it was.
  abbrev pub SameNodes : TmpDoublyList A → TmpDoublyList A → Type ℓ
  SameNodes l l' =
      (l'.node_data ≡ l.node_data)
      × (l'.node_number ≡ l.node_number)
      × (l'.node_use_count ≡ l.node_use_count)

  -- The result of `Unlink`: the nodes that are linked, and `TRUE`.
  abbrev pub Unlinked : TmpDoublyList A → List Ptr → TmpDoublyList A × Bool → Type ℓ
  Unlinked l xs r = (IsDouble r.0 xs × SameNodes l r.0) × (r.1 ≡ true)

  module _ (l : TmpDoublyList A) (t : Ptr) (xs : List Ptr) (v : IsDouble l xs)
      (inside : 0 < count t xs) where
    abbrev less : Ptr → Ptr → (Ptr → Ptr) → (Ptr → Ptr) → TmpDoublyList A
    less head' tail' next' prev' = record l {
      head_node = head';
      tail_node = tail';
      next = next';
      prev = prev';
      node_link_count = l.node_link_count - 1;
    }

    -- It is enough that the new links lead through the remaining nodes.
    less-IsDouble :
        (head' tail' : Ptr) (next' prev' : Ptr → Ptr)
        → Chain next' head' (erase t xs)
        → Back prev' null (erase t xs)
        → tail' ≡ last_or null (erase t xs)
        → IsDouble (less head' tail' next' prev') (erase t xs)
    less-IsDouble head' tail' next' prev' c b e = record {
      chain = c;
      back = b;
      tail = e;
      links = omega (arith, v.links, length-erase t xs inside);
      once = λ a. omega (arith, v.once a, count-erase a t xs inside);
      not_null = omega (arith, v.not_null, count-erase null t xs inside);
      all_live = λ a i. v.all_live a (omega (arith, count-erase a t xs inside));
    }

    target_live : l.live t ≡ true
    target_live = v.all_live t inside

    some_target : (t == null) ≡ false
    some_target = ground (arith, v.not_null, inside)

    some_links : ltb 0 l.node_link_count ≡ true
    some_links = lt→ltb _ _ (omega (arith, v.links, length-erase t xs inside))

  module _ (l : TmpDoublyList A) (x : Ptr) where
    -- The only node.
    unlink-only : IsDouble l (x ∷ []) → Returns (Unlinked l []) (unlink x l)
    unfolding unlink cut cut_head
    unlink-only v =
        let inside : 0 < count x (x ∷ []) = ground arith in
        let is_live = target_live l x (x ∷ []) v inside in
        let rest : erase x (x ∷ []) ≡ [] = ground arith in
        let no_front : (l.prev x == null) ≡ true = ground (arith, v.back.0) in
        let head : (l.head_node == x) ≡ true = ground (arith, v.chain.0) in
        let is_live' : l.live l.head_node ≡ true = rw v.chain.0 is_live in
        let no_next : (l.next l.head_node == null) ≡ true = ground (arith, v.chain) in
        let final =
          less-IsDouble l x (x ∷ []) v inside null null (update l.next x null)
            (update l.prev x null) (rw rest refl) (rw rest tt) (rw rest refl) in
        rw (some_target l x (x ∷ []) v inside, is_live, no_front, head, is_live', no_next, is_live)
          (rw (is_live, some_links l x (x ∷ []) v inside)
            (returns ((rw rest at final, (refl, refl, refl)), refl)))

    -- The first of several nodes.
    unlink-head :
        (y : Ptr) (ys : List Ptr)
        → IsDouble l (x ∷ y ∷ ys)
        → Returns (Unlinked l (y ∷ ys)) (unlink x l)
    unfolding unlink cut cut_head
    unlink-head y ys v =
        let inside : 0 < count x (x ∷ y ∷ ys) = ground arith in
        let is_live = target_live l x (x ∷ y ∷ ys) v inside in
        let rest : erase x (x ∷ y ∷ ys) ≡ y ∷ ys = ground arith in
        let no_front : (l.prev x == null) ≡ true = ground (arith, v.back.0) in
        let head : (l.head_node == x) ≡ true = ground (arith, v.chain.0) in
        let is_live' : l.live l.head_node ≡ true = rw v.chain.0 is_live in
        let to_y : l.next l.head_node ≡ y = ground (arith, v.chain) in
        let from_x : l.next x ≡ y = v.chain.1.0 in
        let some_next : (y == null) ≡ false = ground (arith, v.not_null) in
        let y_live : l.live y ≡ true = v.all_live y (ground arith) in
        let prev' = update (update l.prev y null) x null in
        let final =
          less-IsDouble l x (x ∷ y ∷ ys) v inside y l.tail_node (update l.next x null) prev'
            (rw rest (
              Chain-frame l.next (update l.next x null) y (y ∷ ys) (refl, v.chain.1.1)
                (λ a i. ground (arith, v.once x))))
            (rw rest (
              ground (arith, v.once x),
              Back-frame l.prev prev' y ys v.back.1.1 (λ a i. ground (arith, v.once x, v.once y)),
            ))
            (rw rest v.tail) in
        rw
          (
            some_target l x (x ∷ y ∷ ys) v inside,
            is_live,
            no_front,
            head,
            is_live',
            to_y,
            some_next,
          )
          (rw (y_live, is_live)
            (rw (is_live, some_links l x (x ∷ y ∷ ys) v inside)
              (returns ((rw rest at final, (refl, refl, refl)), refl))))

    unlink-first : (xs : List Ptr) → IsDouble l (x ∷ xs) → Returns (Unlinked l xs) (unlink x l)
    unlink-first [] v = unlink-only v
    unlink-first (y ∷ ys) v = unlink-head y ys v

  -- A node behind the first.
  module _ (l : TmpDoublyList A) (t x : Ptr) (xs : List Ptr) (v : IsDouble l (x ∷ xs))
      (later : 0 < count t xs) where
    abbrev front : Ptr
    front = before t x xs

    inside : 0 < count t (x ∷ xs)
    inside = ground (arith, later)

    not_first : (x == t) ≡ false
    not_first = ground (arith, v.once t, later)

    one : count t xs ≡ 1
    one = omega (arith, v.once t, later)

    prev-front : l.prev t ≡ front
    prev-front =
        let p = Back-before l.prev null t (x ∷ xs) v.back inside in ground (arith, not_first, p)

    front_apart : front ≢ t
    front_apart = before-ne t x xs later (omega (arith, v.once t))

    front_live : l.live front ≡ true
    front_live = v.all_live front (omega (arith, count-before t x xs later))

    some_front : (front == null) ≡ false
    some_front = ground (arith, v.not_null, count-before t x xs later)

    rest : erase t (x ∷ xs) ≡ x ∷ erase t xs
    rest = ground (arith, not_first)

    -- The links when the node is left out.
    past-Chain :
        (q : Ptr)
        → q ≡ l.next t
        → Chain (update (update l.next front q) t null) l.head_node (x ∷ erase t xs)
    past-Chain q e =
        Chain-erase l.next (update (update l.next front q) t null) l.head_node t x xs v.chain later
          (λ a. omega (arith, v.once a)) (ground (arith, front_apart)) (λ a i n m. ground arith)

    next-behind : l.next t ≡ behind t (x ∷ xs)
    next-behind = Chain-behind l.next l.head_node t (x ∷ xs) v.chain inside

    -- The last node.
    unlink-tail : l.next t ≡ null → Returns (Unlinked l (erase t (x ∷ xs))) (unlink t l)
    unfolding unlink cut cut_tail
    unlink-tail e =
        let is_live = target_live l t (x ∷ xs) v inside in
        let nothing : behind t (x ∷ xs) ≡ null = sym next-behind ∙ e in
        let last : last_or x xs ≡ t = behind-last t null (x ∷ xs) inside v.not_null nothing in
        let tail : (l.tail_node == t) ≡ true = ground (arith, v.tail, last) in
        let is_tail : l.tail_node ≡ t = v.tail ∙ last in
        let tail_live : l.live l.tail_node ≡ true = rw is_tail is_live in
        let from_tail : l.prev l.tail_node ≡ front = rw is_tail prev-front in
        let no_next : (l.next t == null) ≡ true = ground (arith, e) in
        let prev' = update l.prev t null in
        let final =
          less-IsDouble l t (x ∷ xs) v inside l.head_node front
            (update (update l.next front null) t null) prev' (rw rest (past-Chain null (sym e)))
            (Back-erase l.prev prev' null t (x ∷ xs) v.back inside (λ a. v.once a) v.not_null
              (λ n. absurd (n nothing)) (λ a i n m. ground arith))
            (rw rest (sym (last_or-erase_last t x xs one last))) in
        rw
          (
            some_target l t (x ∷ xs) v inside,
            is_live,
            prev-front,
            some_front,
            no_next,
            tail,
            tail_live,
            from_tail,
          )
          (rw (front_live, is_live)
            (rw (is_live, some_links l t (x ∷ xs) v inside)
              (returns ((final, (refl, refl, refl)), refl))))

    -- A node between two others.
    unlink-middle : l.next t ≢ null → Returns (Unlinked l (erase t (x ∷ xs))) (unlink t l)
    unfolding unlink cut cut_middle
    unlink-middle n =
        let is_live = target_live l t (x ∷ xs) v inside in
        let q = l.next t in
        let more : behind t (x ∷ xs) ≢ null = λ e. n (next-behind ∙ e) in
        let q_inside : 0 < count q (x ∷ xs) =
          omega (arith, ap (λ a. count a (x ∷ xs)) next-behind, count-behind t (x ∷ xs) more) in
        let q_live : l.live q ≡ true = v.all_live q q_inside in
        let q_apart : q ≢ t = λ e.
          behind-ne t (x ∷ xs) inside (v.once t)
            (λ k. ground (arith, some_target l t (x ∷ xs) v inside)) (sym next-behind ∙ e) in
        let other : last_or x xs ≢ t =
          λ e. more (behind-last_or t null (x ∷ xs) (λ a. v.once a) inside e) in
        let some_next : (q == null) ≡ false = ground (arith, n) in
        let prev' = update (update l.prev q front) t null in
        let final =
          less-IsDouble l t (x ∷ xs) v inside l.head_node l.tail_node
            (update (update l.next front q) t null) prev' (rw rest (past-Chain q refl))
            (Back-erase l.prev prev' null t (x ∷ xs) v.back inside (λ a. v.once a) v.not_null
              (λ k. ground (arith, next-behind, q_apart, prev-front))
              (λ a i k m. ground (arith, next-behind)))
            (rw rest (v.tail ∙ sym (last_or-erase_other t x xs one other))) in
        rw (some_target l t (x ∷ xs) v inside, is_live, prev-front, some_front, some_next)
          (rw (front_live, q_live, is_live)
            (rw (is_live, some_links l t (x ∷ xs) v inside)
              (returns ((final, (refl, refl, refl)), refl))))

  -- On a doubly linked list whose pointers and counter fit together, `Unlink` of a linked node ends
  -- without undefined behaviour and returns `TRUE`: forwards and backwards the other nodes stay in
  -- their order, the contents of all nodes are as before, and all fits together again.
  pub unlink-Unlinked :
      (l : TmpDoublyList A) (t : Ptr) (xs : List Ptr)
      → IsDouble l xs
      → 0 < count t xs
      → Returns (Unlinked l (erase t xs)) (unlink t l)
  unlink-Unlinked l t [] v inside = absurd (omega (arith, inside))
  unlink-Unlinked l t (x ∷ xs) v inside = elim (Bool-cases (x == t)) [
    | inl hit ↦ let e : t ≡ x = sym (==-eq x t hit) in rw (e, ==-refl x) (unlink-first l x xs v)
    | inr miss ↦
        let later : 0 < count t xs = ground (arith, inside, miss) in
        elim (Bool-cases (l.next t == null)) [
          | inl e ↦ unlink-tail l t x xs v later (==-eq (l.next t) null e)
          | inr n ↦ unlink-middle l t x xs v later (λ e. ground (arith, n, e))
        ]
  ]
