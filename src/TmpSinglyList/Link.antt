-- ===== src/TmpSinglyList/Link.antt =====
-- `Link` and `LinkToHead` put a held node at the end and at the front of the list.
use winsock_multi_thread_ser.Base.{
  ◌<◌, ◌≡◌, refl, ◌≢◌, true, false, List, [], ◌∷◌, ◌++◌, arith, length-append, ◌==◌, Ptr, null,
  inc32, Returns, returns, count, erase, update, last_or, Layout, count-erase, length-erase,
  count-append, count-last_or, last_or-append, Chain-append, Chain-frame,
}
use winsock_multi_thread_ser.TmpSinglyList.{TmpSinglyList, link, link_to_head}
use winsock_multi_thread_ser.TmpSinglyList.Invariant.{IsList}

module _ {ℓ} {A : Type ℓ} ⦃y : Layout A⦄ where
  -- What a link operation leaves as it was.
  abbrev pub SameNodes : TmpSinglyList A → TmpSinglyList A → Type ℓ
  SameNodes l l' = (l'.node_data ≡ l.node_data) × (l'.node_number ≡ l.node_number)

  module _ (l : TmpSinglyList A) (p : Ptr) (hs fs : List Ptr) (held : 0 < count p hs) where
    -- The list after a first node is linked.
    abbrev only : TmpSinglyList A
    only = record l {
      next = update l.next p null;
      tail_node = p;
      head_node = p;
      node_link_count = inc32 l.node_link_count;
    }

    only-IsList : IsList l [] hs fs → IsList only (p ∷ []) (erase p hs) fs
    only-IsList v = record {
      chain = (refl, ground arith);
      tail = refl;
      links = ground (arith, v.links);
      free_chain =
          Chain-frame l.next (update l.next p null) l.free_list fs v.free_chain
            (λ a i. ground (arith, v.once a, v.once p));
      frees = v.frees;
      uses = ground (arith, v.uses, length-erase p hs);
      once = λ a. ground (arith, v.once a, count-erase a p hs);
      not_null = ground (arith, v.not_null, count-erase null p hs);
      all_live = λ a i. ground (arith, v.all_live a, count-erase a p hs);
      blank_data = v.blank_data;
      blank_number = v.blank_number;
      small = ground (arith, v.small, length-erase p hs);
    }

    link-nil :
        IsList l [] hs fs
        → Returns (λ l'. IsList l' (p ∷ []) (erase p hs) fs × SameNodes l l') (link p l)
    unfolding link
    link-nil v =
        let is_live : l.live p ≡ true = v.all_live p (ground arith) in
        let some_node : (p == null) ≡ false = ground (arith, v.not_null) in
        let no_head : (l.head_node == null) ≡ true = ground (arith, v.chain) in
        rw (some_node, is_live, no_head) (returns (only-IsList v, (refl, refl)))

    link_to_head-nil :
        IsList l [] hs fs
        → Returns (λ l'. IsList l' (p ∷ []) (erase p hs) fs × SameNodes l l') (link_to_head p l)
    unfolding link_to_head
    link_to_head-nil v =
        let is_live : l.live p ≡ true = v.all_live p (ground arith) in
        let some_node : (p == null) ≡ false = ground (arith, v.not_null) in
        let no_head : (l.head_node == null) ≡ true = ground (arith, v.chain) in
        rw (some_node, is_live, no_head) (returns (only-IsList v, (refl, refl)))

    link-cons :
        (x : Ptr) (xs : List Ptr)
        → IsList l (x ∷ xs) hs fs
        → Returns (λ l'. IsList l' (x ∷ (xs ++ p ∷ [])) (erase p hs) fs × SameNodes l l') (link p l)
    unfolding link
    link-cons x xs v =
        let t = last_or x xs in
        let is_live : l.live p ≡ true = v.all_live p (ground arith) in
        let tail_live : l.live l.tail_node ≡ true =
          v.all_live l.tail_node (ground (arith, v.tail, count-last_or x xs)) in
        let some_node : (p == null) ≡ false = ground (arith, v.not_null) in
        let some_head : (l.head_node == null) ≡ false = ground (arith, v.chain, v.not_null) in
        let next' = update (update l.next p null) l.tail_node p in
        let apart : l.tail_node ≢ p = λ e. ground (arith, v.tail, count-last_or x xs, v.once p) in
        rw (some_node, is_live, some_head, tail_live)
          (returns (
            record {
              chain =
                  Chain-append l.next next' l.head_node p x xs v.chain
                    (λ a. ground (arith, v.once a)) (ground (arith, v.tail)) (ground arith)
                    (λ a i n. ground (arith, v.tail, v.once a, v.once p));
              tail = ground (arith, last_or-append x p xs);
              links =
                  ground (arith, v.links, v.small, length-append xs (p ∷ []), length-erase p hs);
              free_chain =
                  Chain-frame l.next next' l.free_list fs v.free_chain
                    (λ a i. ground (arith, v.once a, v.once p, v.tail, count-last_or x xs));
              frees = v.frees;
              uses = ground (arith, v.uses, length-erase p hs, length-append xs (p ∷ []));
              once = λ a. ground (arith, v.once a, count-erase a p hs, count-append a xs (p ∷ []));
              not_null =
                  ground (arith, v.not_null, count-erase null p hs, count-append null xs (p ∷ []));
              all_live = λ a i.
                  ground (arith, v.all_live a, count-erase a p hs, count-append a xs (p ∷ []));
              blank_data = v.blank_data;
              blank_number = v.blank_number;
              small = ground (arith, v.small, length-erase p hs, length-append xs (p ∷ []));
            },
            (refl, refl),
          ))

  -- On a list whose pointers and counters fit together, `Link` of a node that a caller holds ends
  -- without undefined behaviour: the node is the new last one behind the same others, it is no
  -- longer held, the free list and the contents of all nodes are as before, and all fits together
  -- again.
  pub link-IsList :
      (l : TmpSinglyList A) (p : Ptr) (xs hs fs : List Ptr)
      → IsList l xs hs fs
      → 0 < count p hs
      → Returns (λ l'. IsList l' (xs ++ p ∷ []) (erase p hs) fs × SameNodes l l') (link p l)
  link-IsList l p [] hs fs v held = link-nil l p hs fs held v
  link-IsList l p (x ∷ xs) hs fs v held = link-cons l p hs fs held x xs v

  -- The same for `LinkToHead`, which puts the node in front of all others.
  pub link_to_head-IsList :
      (l : TmpSinglyList A) (p : Ptr) (xs hs fs : List Ptr)
      → IsList l xs hs fs
      → 0 < count p hs
      → Returns (λ l'. IsList l' (p ∷ xs) (erase p hs) fs × SameNodes l l') (link_to_head p l)
  unfolding link_to_head
  link_to_head-IsList l p [] hs fs v held = link_to_head-nil l p hs fs held v
  link_to_head-IsList l p (x ∷ xs) hs fs v held =
      let is_live : l.live p ≡ true = v.all_live p (ground arith) in
      let some_node : (p == null) ≡ false = ground (arith, v.not_null) in
      let some_head : (l.head_node == null) ≡ false = ground (arith, v.chain, v.not_null) in
      let next' = update (update l.next p null) p l.head_node in
      rw (some_node, is_live, some_head, is_live)
        (returns (
          record {
            chain =
                let here : next' p ≡ l.head_node = ground arith in
                (
                  refl,
                  rw here (
                      Chain-frame l.next next' l.head_node (x ∷ xs) v.chain
                        (λ a i. ground (arith, v.once a, v.once p))),
                );
            tail = v.tail;
            links = ground (arith, v.links, v.small, length-erase p hs);
            free_chain =
                Chain-frame l.next next' l.free_list fs v.free_chain
                  (λ a i. ground (arith, v.once a, v.once p));
            frees = v.frees;
            uses = ground (arith, v.uses, length-erase p hs);
            once = λ a. ground (arith, v.once a, count-erase a p hs);
            not_null = ground (arith, v.not_null, count-erase null p hs);
            all_live = λ a i. ground (arith, v.all_live a, count-erase a p hs);
            blank_data = v.blank_data;
            blank_number = v.blank_number;
            small = ground (arith, v.small, length-erase p hs);
          },
          (refl, refl),
        ))
