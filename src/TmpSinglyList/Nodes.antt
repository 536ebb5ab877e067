-- ===== src/TmpSinglyList/Nodes.antt =====
-- `Create`, `GetNode` and `FreeNode`: where nodes come from and where they go.
use winsock_multi_thread_ser.Base.{
  ℕ, suc, ◌+◌, ◌-◌, ◌<◌, ◌≡◌, refl, ◌≢◌, true, false, List, [], ◌∷◌, arith, ltb, lt→ltb, ◌==◌,
  if◌then◌else◌, Ptr, null, inc32, Returns, returns, count, erase, update, Chain, Layout,
  count-erase, length-erase, Chain-frame,
}
use winsock_multi_thread_ser.Memory.{MemoryPool}
use winsock_multi_thread_ser.TmpSinglyList.{TmpSinglyList, get_node, free_node}
use winsock_multi_thread_ser.TmpSinglyList.Invariant.{IsList, nodes_from, unused}

count-nodes_from :
    (size b k c a : ℕ)
    → c ≡ suc k
    → count a (nodes_from size b c)
      ≡ (if b == a then 1 else 0) + count a (nodes_from size (b + size) (c - 1))
count-nodes_from size b k c a e = let less : c - 1 ≡ k = omega arith in rw (less, e) refl

module _ {ℓ} {A : Type ℓ} ⦃y : Layout A⦄ where
  -- The caller holds a node that nobody owned, whose bytes are 0; the other nodes, the lists and
  -- the memory pool are as before.
  abbrev pub Got :
      TmpSinglyList A
      → List Ptr
      → List Ptr
      → List Ptr
      → MemoryPool
      → MemoryPool × TmpSinglyList A × Ptr
      → Type ℓ
  Got l xs hs fs m (m', l', p) =
      IsList l' xs (p ∷ hs) fs
      × (count p xs + count p hs ≡ 0)
      × (l'.node_data p ≡ y.zero_data)
      × (l'.node_number p ≡ 0)
      × (l'.next p ≡ null)
      × (l'.node_data ≡ l.node_data)
      × (m' ≡ m)

  module _ (b n : Ptr) (m : MemoryPool) (l : TmpSinglyList A) (xs hs : List Ptr) where
    -- On a list whose pointers and counters fit together and that has free nodes, `GetNode` ends without
    -- undefined behaviour and returns the node that was freed last: the caller holds it, its data,
    -- number and next pointer are 0, the linked nodes are the same, the data of all nodes and the
    -- pool are as before, and all fits together again.
    pub get_node-free :
        (p : Ptr) (fs : List Ptr)
        → IsList l xs hs (p ∷ fs)
        → Returns (λ r. Got l xs hs fs m r × (r.2 ≡ p)) (get_node b n m l)
    unfolding get_node
    get_node-free p fs v =
        let some_free : ltb 0 l.free_list_count ≡ true = lt→ltb _ _ (omega (arith, v.frees)) in
        let is_live : l.live p ≡ true = v.all_live p (ground arith) in
        let first : l.free_list ≡ p = v.free_chain.0 in
        let next' = update l.next p null in
        rw (some_free, first, is_live)
          (returns (
            (
              record {
                chain =
                    Chain-frame l.next next' l.head_node xs v.chain
                      (λ a i. ground (arith, v.once a, v.once p));
                tail = v.tail;
                links = v.links;
                free_chain =
                    Chain-frame l.next next' (l.next p) fs v.free_chain.1
                      (λ a i. ground (arith, v.once a, v.once p));
                frees = ground (arith, v.frees);
                uses = ground (arith, v.uses, v.small);
                once = λ a. ground (arith, v.once a);
                not_null = ground (arith, v.not_null);
                all_live = λ a i. v.all_live a (omega arith);
                blank_data = λ a i. v.blank_data a (omega arith);
                blank_number = λ a i. v.blank_number a (omega arith);
                small = ground (arith, v.small);
              },
              ground (arith, v.once p),
              v.blank_data p (ground arith),
              v.blank_number p (ground arith),
              ground arith,
              refl,
              refl,
            ),
            refl,
          ))

    -- On a list whose pointers and counters fit together and that has no free node, but an unused one in
    -- its array, `GetNode` ends without undefined behaviour and returns the next unused one: the
    -- caller holds it, its data, number and next pointer are 0, the linked nodes are the same, the
    -- data of all nodes and the pool are as before, and all fits together again.
    pub get_node-buffer :
        (k : ℕ)
        → IsList l xs hs []
        → l.buffer_list_count ≡ suc k
        → Returns (λ r. Got l xs hs [] m r × (r.2 ≡ l.buffer_list)) (get_node b n m l)
    unfolding get_node
    get_node-buffer k v e =
        let no_free : ltb 0 l.free_list_count ≡ false = ground (arith, v.frees) in
        let some_unused : ltb 0 l.buffer_list_count ≡ true = lt→ltb _ _ (omega arith) in
        let p = l.buffer_list in
        let split = λ (a : Ptr). count-nodes_from y.size_of p k l.buffer_list_count a e in
        let own : 0 < count p (unused l) = ground (arith, split p) in
        let is_live : l.live p ≡ true = v.all_live p (omega arith) in
        let next' = update l.next p null in
        rw (no_free, some_unused, is_live)
          (returns (
            (
              record {
                chain =
                    Chain-frame l.next next' l.head_node xs v.chain
                      (λ a i. ground (arith, v.once a, v.once p));
                tail = v.tail;
                links = v.links;
                free_chain = v.free_chain;
                frees = v.frees;
                uses = ground (arith, v.uses, v.small);
                once = λ a. ground (arith, v.once a, split a);
                not_null = ground (arith, v.not_null, split null);
                all_live = λ a i. v.all_live a (omega (arith, split a));
                blank_data = λ a i. v.blank_data a (omega (arith, split a));
                blank_number = λ a i. v.blank_number a (omega (arith, split a));
                small = ground (arith, v.small);
              },
              ground (arith, v.once p),
              v.blank_data p (omega arith),
              v.blank_number p (omega arith),
              ground arith,
              refl,
              refl,
            ),
            refl,
          ))

  module _ (l : TmpSinglyList A) (p : Ptr) (xs hs fs : List Ptr) (v : IsList l xs hs fs)
      (held : 0 < count p hs) where
    -- The list after a node is freed, with new links.
    abbrev freed : (Ptr → Ptr) → TmpSinglyList A
    freed next' = record l {
      free_list = p;
      free_list_count = inc32 l.free_list_count;
      node_use_count = l.node_use_count - 1;
      node_data = update l.node_data p y.zero_data;
      node_number = update l.node_number p 0;
      next = next';
    }

    freed-IsList :
        (next' : Ptr → Ptr)
        → Chain next' p (p ∷ fs)
        → ((a : Ptr) → a ≢ p → next' a ≡ l.next a)
        → IsList (freed next') xs (erase p hs) (p ∷ fs)
    freed-IsList next' c same = record {
      chain =
          Chain-frame l.next next' l.head_node xs v.chain
            (λ a i. same a (λ e. ground (arith, v.once p)));
      tail = v.tail;
      links = v.links;
      free_chain = c;
      frees = ground (arith, v.frees, v.small, length-erase p hs held);
      uses = ground (arith, v.uses, length-erase p hs held);
      once = λ a. ground (arith, v.once a, count-erase a p hs held);
      not_null = ground (arith, v.not_null, count-erase null p hs held);
      all_live = λ a i. ground (arith, v.all_live a, count-erase a p hs held);
      blank_data = λ a i. ground (arith, v.blank_data a);
      blank_number = λ a i. ground (arith, v.blank_number a);
      small = ground (arith, v.small, length-erase p hs held);
    }

    held_live : l.live p ≡ true
    held_live = v.all_live p (omega arith)

    some_held : (p == null) ≡ false
    some_held = ground (arith, v.not_null)

    in_use : (l.node_use_count == 0) ≡ false
    in_use = ground (arith, v.uses, length-erase p hs held)

    -- Its old successor does not matter: the rest of the free list is linked behind it.
    free_links : Chain (update (update l.next p null) p l.free_list) p (p ∷ fs)
    free_links =
        let next' = update (update l.next p null) p l.free_list in
        let here : next' p ≡ l.free_list = ground arith in
        (
          refl,
          rw here (
              Chain-frame l.next next' l.free_list fs v.free_chain
                (λ a i. ground (arith, v.once p))),
        )

  -- `FreeNode` of a node that a caller holds ends without undefined behaviour: the node stands in
  -- front of the free list, its bytes are 0, the caller's pointer is `NULL`, the linked nodes are
  -- the same in the same order, and all fits together again.
  pub free_node-IsList :
      (l : TmpSinglyList A) (p : Ptr) (xs hs fs : List Ptr)
      → IsList l xs hs fs
      → 0 < count p hs
      → Returns (λ r. IsList r.0 xs (erase p hs) (p ∷ fs) × (r.1 ≡ null)) (free_node p l)
  unfolding free_node
  free_node-IsList l p xs hs [] v held =
      let is_live = held_live l p xs hs [] v held in
      let no_free : ltb 0 l.free_list_count ≡ false = ground (arith, v.frees) in
      rw (some_held l p xs hs [] v held, in_use l p xs hs [] v held, is_live, no_free)
        (returns (
          freed-IsList l p xs hs [] v held (update l.next p null) (refl, ground arith)
              (λ a n. ground arith),
          refl,
        ))
  free_node-IsList l p xs hs (f ∷ fs) v held =
      let is_live = held_live l p xs hs (f ∷ fs) v held in
      let some_free : ltb 0 l.free_list_count ≡ true = lt→ltb _ _ (omega (arith, v.frees)) in
      rw (some_held l p xs hs (f ∷ fs) v held, in_use l p xs hs (f ∷ fs) v held, is_live, some_free)
        (rw is_live (
          returns (
            freed-IsList l p xs hs (f ∷ fs) v held (update (update l.next p null) p l.free_list)
                (free_links l p xs hs (f ∷ fs) v held) (λ a n. ground arith),
            refl,
          )))
