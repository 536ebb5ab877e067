-- ===== src/TmpDoublyList/Link.antt =====
-- `Link` of a doubly linked list puts a node at the end.
use winsock_multi_thread_ser.Base.{
  ◌+◌, ◌<◌, ◌≡◌, ◌≢◌, refl, true, false, List, [], ◌∷◌, ◌++◌, arith, length, length-append, ◌==◌,
  Ptr, null, u32, count, count-append, count-last_or, last_or, last_or-append, update, Chain-append,
  Returns, returns,
}
use winsock_multi_thread_ser.TmpDoublyList.{TmpDoublyList, link}
use winsock_multi_thread_ser.TmpDoublyList.Back.{Back-append}
use winsock_multi_thread_ser.TmpDoublyList.Invariant.{IsDouble}
use winsock_multi_thread_ser.TmpDoublyList.Unlink.{SameNodes}

module _ {ℓ} {A : Type ℓ} where
  -- On a doubly linked list whose pointers and counter fit together and that has less than 2^32 - 1
  -- nodes, `Link` of a node that is not linked ends without undefined behaviour: forwards and
  -- backwards it is the new last one behind the same others, the contents of all nodes are as
  -- before, and all fits together again.
  pub link-IsDouble :
      (l : TmpDoublyList A) (p : Ptr) (xs : List Ptr)
      → IsDouble l xs
      → count p xs ≡ 0
      → p ≢ null
      → l.live p ≡ true
      → length xs + 1 < u32
      → Returns (λ l'. IsDouble l' (xs ++ p ∷ []) × SameNodes l l') (link p l)
  unfolding link
  link-IsDouble l p [] v out some_p is_live small =
      let some_node : (p == null) ≡ false = ground (arith, some_p) in
      let no_head : (l.head_node == null) ≡ true = ground (arith, v.chain) in
      rw (some_node, is_live)
        (rw (is_live, no_head)
          (returns (
            record {
              chain = (refl, ground arith);
              back = (ground arith, tt);
              tail = refl;
              links = ground (arith, v.links);
              once = λ a. ground arith;
              not_null = ground (arith, some_p);
              all_live = λ a i. ground (arith, is_live);
            },
            (refl, refl, refl),
          )))
  link-IsDouble l p (x ∷ xs) v out some_p is_live small =
      let some_node : (p == null) ≡ false = ground (arith, some_p) in
      let some_head : (l.head_node == null) ≡ false = ground (arith, v.chain, v.not_null) in
      let t = last_or x xs in
      let tail_live : l.live l.tail_node ≡ true =
        v.all_live l.tail_node (ground (arith, v.tail, count-last_or x xs)) in
      let apart : l.tail_node ≢ p = λ e. ground (arith, v.tail, count-last_or x xs, out) in
      rw (some_node, is_live)
        (rw (is_live, some_head)
          (rw tail_live (
            rw is_live (
              returns (
                record {
                  chain =
                      Chain-append l.next (update (update l.next p null) l.tail_node p) l.head_node
                        p x xs v.chain v.once (ground (arith, v.tail)) (ground (arith, apart))
                        (λ a i n. ground (arith, v.tail, out));
                  back =
                      Back-append l.prev (update (update l.prev p null) p l.tail_node) null p
                        (x ∷ xs) v.back (ground (arith, v.tail)) (λ a i. ground (arith, out));
                  tail = ground (arith, last_or-append x p xs);
                  links = ground (arith, v.links, small, length-append xs (p ∷ []));
                  once = λ a. ground (arith, v.once a, out, count-append a xs (p ∷ []));
                  not_null = ground (arith, v.not_null, some_p, count-append null xs (p ∷ []));
                  all_live =
                      λ a i. ground (arith, v.all_live a, is_live, count-append a xs (p ∷ []));
                },
                (refl, refl, refl),
              )))))
