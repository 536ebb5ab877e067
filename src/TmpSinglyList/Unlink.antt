-- ===== src/TmpSinglyList/Unlink.antt =====
-- `Unlink` takes a node out of the list, wherever it stands in it.
use winsock_multi_thread_ser.Base.{
  ==-eq, sym, ◌∙◌, before-ne, Chain-last_or, ltb, lt→ltb, ap, ==-refl, ℕ, zero, suc, ◌+◌, ◌-◌, ◌<◌,
  ◌≡◌, refl, ◌≢◌, inl, inr, true, false, some, none, List, [], ◌∷◌, arith, length, ◌==◌, Bool-cases,
  Ptr, null, ok, Returns, returns, count, erase, update, before, last_or, Chain, Layout,
  count-erase, length-erase, count-last_or, count-before, last_or-erase_last, last_or-erase_other,
  Chain-erase, Chain-frame,
}
use winsock_multi_thread_ser.TmpSinglyList.{TmpSinglyList, find, detach, unlink}
use winsock_multi_thread_ser.TmpSinglyList.Invariant.{IsList}
use winsock_multi_thread_ser.TmpSinglyList.Link.{SameNodes}

module _ {ℓ} {A : Type ℓ} where
  -- The loop finds the node in front of the target, if the target is in the list.
  find-before :
      (l : TmpSinglyList A) (k : ℕ) (t d p : Ptr) (xs : List Ptr)
      → Chain l.next p xs
      → ((a : Ptr) → 0 < count a xs → l.live a ≡ true)
      → count null xs ≡ 0
      → length xs < k
      → 0 < count t xs
      → find k t d p l ≡ ok (some (before t d xs))
  unfolding find
  find-before l zero t d p xs c v z fuel i = absurd (omega arith)
  find-before l (suc k) t d p [] c v z fuel i = absurd (omega arith)
  find-before l (suc k) t d p (x ∷ xs) c v z fuel i =
      let is_live : l.live p ≡ true = v p (ground arith) in
      let some_node : (p == null) ≡ false = ground arith in
      let step : l.next p ≡ l.next x = ap l.next c.0 in
      elim (Bool-cases (x == t)) [
        | inl hit ↦ let hit' : (p == t) ≡ true = ground arith in rw (some_node, hit', hit) refl
        | inr miss ↦
            let miss' : (p == t) ≡ false = ground arith in
            let found =
              find-before l k t x (l.next x) xs c.1 (λ a j. v a (ground arith)) (ground arith)
                (omega arith) (ground arith) in
            rw (some_node, miss', miss, is_live, step, c.0) found
      ]

  find-none :
      (l : TmpSinglyList A) (k : ℕ) (t d p : Ptr) (xs : List Ptr)
      → Chain l.next p xs
      → ((a : Ptr) → 0 < count a xs → l.live a ≡ true)
      → count null xs ≡ 0
      → length xs < k
      → count t xs ≡ 0
      → find k t d p l ≡ ok none
  unfolding find
  find-none l zero t d p xs c v z fuel i = absurd (omega arith)
  find-none l (suc k) t d p [] c v z fuel i = ground arith
  find-none l (suc k) t d p (x ∷ xs) c v z fuel i =
      let is_live : l.live p ≡ true = v p (ground arith) in
      let some_node : (p == null) ≡ false = ground arith in
      let step : l.next p ≡ l.next x = ap l.next c.0 in
      let miss' : (p == t) ≡ false = ground arith in
      let found =
        find-none l k t x (l.next x) xs c.1 (λ a j. v a (ground arith)) (ground arith) (omega arith)
          (ground arith) in
      rw (some_node, miss', is_live, step, c.0) found

module _ {ℓ} {A : Type ℓ} ⦃y : Layout A⦄ where
  -- `Unlink` of a node that is not in the list, be it `NULL`, changes nothing.
  pub unlink-absent :
      (l : TmpSinglyList A) (t : Ptr) (xs hs fs : List Ptr)
      → IsList l xs hs fs
      → count t xs ≡ 0
      → unlink t l ≡ ok l
  unfolding unlink
  unlink-absent l t xs hs fs v out =
      let found =
        find-none l (l.node_link_count + 1) t null l.head_node xs v.chain
          (λ a i. v.all_live a (omega arith)) (omega (arith, v.not_null)) (omega (arith, v.links))
          out in
      elim (Bool-cases (t == null)) [ inl e ↦ rw e | inr e ↦ rw (e, found) ]

  module _ (l : TmpSinglyList A) (t : Ptr) (xs hs fs : List Ptr) (v : IsList l xs hs fs)
      (inside : 0 < count t xs) where
    -- The list with new links and one node less.
    abbrev less : Ptr → Ptr → (Ptr → Ptr) → TmpSinglyList A
    less head' tail' next' = record l {
      head_node = head';
      tail_node = tail';
      next = next';
      node_link_count = l.node_link_count - 1;
    }

    -- It is enough that the new links lead through the remaining nodes.
    less-IsList :
        (head' tail' : Ptr) (next' : Ptr → Ptr)
        → Chain next' head' (erase t xs)
        → tail' ≡ last_or null (erase t xs)
        → ((a : Ptr) → 0 < count a fs → next' a ≡ l.next a)
        → IsList (less head' tail' next') (erase t xs) (t ∷ hs) fs
    less-IsList head' tail' next' c e same = record {
      chain = c;
      tail = e;
      links = omega (arith, v.links, length-erase t xs inside);
      free_chain = Chain-frame l.next next' l.free_list fs v.free_chain same;
      frees = v.frees;
      uses = omega (arith, v.uses, length-erase t xs inside);
      once = λ a. omega (arith, v.once a, count-erase a t xs inside);
      not_null = omega (arith, v.not_null, count-erase null t xs inside);
      all_live = λ a i. v.all_live a (omega (arith, count-erase a t xs inside));
      blank_data = v.blank_data;
      blank_number = v.blank_number;
      small = omega (arith, v.small, length-erase t xs inside);
    }

    target_live : l.live t ≡ true
    target_live = v.all_live t (omega arith)

    some_links : ltb 0 l.node_link_count ≡ true
    some_links = lt→ltb _ _ (omega (arith, v.links, length-erase t xs inside))

    target_apart : (a : Ptr) → 0 < count a fs → a ≢ t
    target_apart a i e = ground (arith, v.once t)

  module _ (l : TmpSinglyList A) (x : Ptr) (hs fs : List Ptr) where
    abbrev Detached : List Ptr → TmpSinglyList A → Type ℓ
    Detached xs l' = IsList l' xs (x ∷ hs) fs × SameNodes l l'

    -- The only node.
    detach-only : IsList l (x ∷ []) hs fs → Returns (Detached []) (detach x l (some null))
    unfolding detach
    detach-only v =
        let inside : 0 < count x (x ∷ []) = ground arith in
        let is_live = target_live l x (x ∷ []) hs fs v inside in
        let head : l.head_node ≡ x = v.chain.0 in
        let tail : l.tail_node ≡ x = v.tail in
        let rest : erase x (x ∷ []) ≡ [] = ground arith in
        let final =
          less-IsList l x (x ∷ []) hs fs v inside (l.next x) (l.next x) (update l.next x null)
            (ground (arith, v.chain.1)) (ground (arith, v.chain.1))
            (λ a i. ground (arith, target_apart l x (x ∷ []) hs fs v inside a i)) in
        rw (head, tail, ==-refl x, is_live)
          (rw (is_live, some_links l x (x ∷ []) hs fs v inside)
            (returns (rw rest at final, (refl, refl))))

    -- The first of several nodes.
    detach-head :
        (z : Ptr) (xs : List Ptr)
        → IsList l (x ∷ z ∷ xs) hs fs
        → Returns (Detached (z ∷ xs)) (detach x l (some null))
    unfolding detach
    detach-head z xs v =
        let inside : 0 < count x (x ∷ z ∷ xs) = ground arith in
        let is_live = target_live l x (x ∷ z ∷ xs) hs fs v inside in
        let head : l.head_node ≡ x = v.chain.0 in
        let tail : (x == l.tail_node) ≡ false =
          ground (arith, v.tail, count-last_or z xs, v.once x) in
        let rest : erase x (x ∷ z ∷ xs) ≡ z ∷ xs = ground arith in
        let final =
          less-IsList l x (x ∷ z ∷ xs) hs fs v inside (l.next x) l.tail_node (update l.next x null)
            (rw rest (
              Chain-frame l.next (update l.next x null) (l.next x) (z ∷ xs) v.chain.1
                (λ a i. ground (arith, v.once x))))
            (rw rest v.tail)
            (λ a i. ground (arith, target_apart l x (x ∷ z ∷ xs) hs fs v inside a i)) in
        rw (head, tail, is_live)
          (rw (is_live, some_links l x (x ∷ z ∷ xs) hs fs v inside)
            (returns (rw rest at final, (refl, refl))))

    detach-first :
        (xs : List Ptr) → IsList l (x ∷ xs) hs fs → Returns (Detached xs) (detach x l (some null))
    detach-first [] v = detach-only v
    detach-first (z ∷ xs) v = detach-head z xs v

  -- A node behind the first.
  module _ (l : TmpSinglyList A) (t x : Ptr) (xs hs fs : List Ptr) (v : IsList l (x ∷ xs) hs fs)
      (behind : 0 < count t xs) where
    abbrev front : Ptr
    front = before t x xs

    -- The links after the node is left out.
    abbrev past : Ptr → Ptr → Ptr
    past q = update (update l.next front q) t null

    front_apart : front ≢ t
    front_apart = before-ne t x xs behind (omega (arith, v.once t))

    past-Chain : (q : Ptr) → q ≡ l.next t → Chain (past q) l.head_node (x ∷ erase t xs)
    past-Chain q e =
        Chain-erase l.next (past q) l.head_node t x xs v.chain behind (λ a. omega (arith, v.once a))
          (ground (arith, front_apart)) (λ a i n m. ground arith)

    past-free : (q a : Ptr) → 0 < count a fs → past q a ≡ l.next a
    past-free q a i = ground (arith, v.once a, v.once t, count-before t x xs behind)

    behind-first : erase t (x ∷ xs) ≡ x ∷ erase t xs
    behind-first = ground (arith, v.once t)

    front_live : l.live front ≡ true
    front_live = v.all_live front (omega (arith, count-before t x xs behind))

    some_front : (front == null) ≡ false
    some_front = ground (arith, v.not_null, count-before t x xs behind)

    behind_IsList :
        (q tail' : Ptr)
        → q ≡ l.next t
        → tail' ≡ last_or x (erase t xs)
        → IsList
            (less l t (x ∷ xs) hs fs v (omega arith) l.head_node tail' (past q))
            (x ∷ erase t xs)
            (t ∷ hs)
            fs
    behind_IsList q tail' e k =
        let final =
          less-IsList l t (x ∷ xs) hs fs v (omega arith) l.head_node tail' (past q)
            (rw behind-first (past-Chain q e)) (rw behind-first k) (past-free q) in
        rw behind-first at final

    detach-behind :
        Returns
          (λ l'. IsList l' (x ∷ erase t xs) (t ∷ hs) fs × SameNodes l l')
          (detach t l (some front))
    unfolding detach
    detach-behind =
        let is_live = target_live l t (x ∷ xs) hs fs v (omega arith) in
        let links = some_links l t (x ∷ xs) hs fs v (omega arith) in
        let one : count t xs ≡ 1 = omega (arith, v.once t) in
        elim (Bool-cases (t == l.tail_node)) [
          | inl e ↦
              let last : last_or x xs ≡ t = ground (arith, v.tail) in
              rw (some_front, e, front_live)
                (rw (is_live, links)
                  (returns (
                    behind_IsList null front
                        (ground (arith, Chain-last_or l.next l.head_node x xs v.chain))
                        (sym (last_or-erase_last t x xs one last)),
                    (refl, refl),
                  )))
          | inr e ↦
              let other : last_or x xs ≢ t = λ k. ground (arith, v.tail) in
              rw (some_front, e, is_live)
                (rw (front_live, is_live, links)
                  (returns (
                    behind_IsList (l.next t) l.tail_node refl
                        (v.tail ∙ sym (last_or-erase_other t x xs one other)),
                    (refl, refl),
                  )))
        ]

  -- `Unlink` of a node that is in the list ends without undefined behaviour: the other nodes stay
  -- in their order, the node is now held, the free list and the contents of all nodes are as before,
  -- and all fits together again.
  pub unlink-erase :
      (l : TmpSinglyList A) (t : Ptr) (xs hs fs : List Ptr)
      → IsList l xs hs fs
      → 0 < count t xs
      → Returns (λ l'. IsList l' (erase t xs) (t ∷ hs) fs × SameNodes l l') (unlink t l)
  unfolding unlink
  unlink-erase l t [] hs fs v inside = absurd (omega arith)
  unlink-erase l t (x ∷ xs) hs fs v inside =
      let some_node : (t == null) ≡ false = ground (arith, v.not_null) in
      let found =
        find-before l (l.node_link_count + 1) t null l.head_node (x ∷ xs) v.chain
          (λ a i. v.all_live a (omega arith)) (omega (arith, v.not_null)) (omega (arith, v.links))
          inside in
      elim (Bool-cases (x == t)) [
        | inl hit ↦
            let here : t ≡ x = sym (==-eq x t hit) in
            rw (some_node, found, hit) (rw here (detach-first l x hs fs xs v))
        | inr miss ↦ rw (some_node, found, miss) (detach-behind l t x xs hs fs v (ground arith))
      ]
