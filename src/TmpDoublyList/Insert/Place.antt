-- ===== src/TmpDoublyList/Insert/Place.antt =====
-- A node is put in front of another one.
use winsock_multi_thread_ser.Base.{
  ◌+◌, ◌≤◌, ◌<◌, ◌≡◌, ◌≢◌, refl, sym, ◌∙◌, true, false, List, [], ◌∷◌, ◌++◌, arith, length,
  length-append, ◌==◌, Ptr, null, u32, inc32, count, count-append, count-last_or, last_or, update,
  Chain, Chain-frame, Returns, returns,
}
use winsock_multi_thread_ser.TmpDoublyList.{TmpDoublyList}
use winsock_multi_thread_ser.TmpDoublyList.Back.{Back, Back-frame, first_or}
use winsock_multi_thread_ser.TmpDoublyList.Invariant.{IsDouble}
use winsock_multi_thread_ser.TmpDoublyList.Unlink.{SameNodes}
use winsock_multi_thread_ser.TmpDoublyList.Insert.{link_insert_prev, insert_prev}

-- The pointers of an element in the middle of a chain.
pub Chain-next :
    (next : Ptr → Ptr) (b x : Ptr) (front ys : List Ptr)
    → Chain next b (front ++ x ∷ ys)
    → next x ≡ first_or null ys
Chain-next next b x [] [] c = c.1
Chain-next next b x [] (y ∷ ys) c = c.1.0
Chain-next next b x (f ∷ front) ys c = Chain-next next (next f) x front ys c.1

Back-prev :
    (prev : Ptr → Ptr) (b x : Ptr) (front ys : List Ptr)
    → Back prev b (front ++ x ∷ ys)
    → prev x ≡ last_or b front
Back-prev prev b x [] ys c = c.0
Back-prev prev b x (f ∷ front) ys c = Back-prev prev f x front ys c.1

-- The new element behind the first part of a chain.
Chain-insert :
    (next next' : Ptr → Ptr) (b p x f : Ptr) (front ys : List Ptr)
    → Chain next b (f ∷ (front ++ x ∷ ys))
    → ((a : Ptr) → count a (f ∷ (front ++ x ∷ ys)) ≤ 1)
    → next' (last_or f front) ≡ p
    → next' p ≡ x
    → ((a : Ptr) → 0 < count a (f ∷ (front ++ x ∷ ys)) → a ≢ last_or f front → next' a ≡ next a)
    → Chain next' b (f ∷ (front ++ p ∷ x ∷ ys))
Chain-insert next next' b p x f [] ys c one e e' same =
    let here : next' x ≡ next x = same x (ground arith) (λ k. ground (arith, one x, k)) in
    let behind =
      Chain-frame next next' (next x) ys c.1.1
        (λ a i. same a (ground (arith, i)) (λ k. ground (arith, one a, i, k))) in
    (c.0, (e, (e', rw here behind)))
Chain-insert next next' b p x f (g ∷ front) ys c one e e' same =
    let inside = count-last_or g front in
    let other : f ≢ last_or g front =
      λ k. ground (arith, one f, inside, k, count-append f front (x ∷ ys)) in
    let here : next' f ≡ next f = same f (ground arith) other in
    (
      c.0,
      rw here (
          Chain-insert next next' (next f) p x g front ys c.1 (λ a. ground (arith, one a)) e e'
            (λ a i n. same a (ground (arith, i)) n)),
    )

Back-insert :
    (prev prev' : Ptr → Ptr) (b p x : Ptr) (front ys : List Ptr)
    → Back prev b (front ++ x ∷ ys)
    → ((a : Ptr) → count a (front ++ x ∷ ys) ≤ 1)
    → prev' p ≡ last_or b front
    → prev' x ≡ p
    → ((a : Ptr) → 0 < count a (front ++ x ∷ ys) → a ≢ x → prev' a ≡ prev a)
    → Back prev' b (front ++ p ∷ x ∷ ys)
Back-insert prev prev' b p x [] ys c one e e' same =
    let behind =
      Back-frame prev prev' x ys c.1
        (λ a i. same a (ground (arith, i)) (λ k. ground (arith, one a, i, k))) in
    (e, (e', behind))
Back-insert prev prev' b p x (f ∷ front) ys c one e e' same =
    let other : f ≢ x = λ k. ground (arith, one f, k, count-append f front (x ∷ ys)) in
    let here : prev' f ≡ prev f = same f (ground arith) other in
    (
      rw here c.0,
      Back-insert prev prev' f p x front ys c.1 (λ a. ground (arith, one a)) e e'
          (λ a i n. same a (ground (arith, i)) n),
    )

last_or-insert :
    (d p x : Ptr) (front ys : List Ptr)
    → last_or d (front ++ p ∷ x ∷ ys) ≡ last_or d (front ++ x ∷ ys)
last_or-insert d p x [] ys = refl
last_or-insert d p x (f ∷ front) ys = last_or-insert f p x front ys

module _ {ℓ} {A : Type ℓ} (l : TmpDoublyList A) (p x : Ptr) (ys : List Ptr) (some_p : p ≢ null)
    (is_live : l.live p ≡ true) where
  -- What is the same wherever the node is put.
  placed-IsDouble :
      (front : List Ptr) (head' : Ptr) (next' prev' : Ptr → Ptr)
      → IsDouble l (front ++ x ∷ ys)
      → count p (front ++ x ∷ ys) ≡ 0
      → length (front ++ x ∷ ys) + 1 < u32
      → Chain next' head' (front ++ p ∷ x ∷ ys)
      → Back prev' null (front ++ p ∷ x ∷ ys)
      → IsDouble
          (record l {
            head_node = head';
            next = next';
            prev = prev';
            node_link_count = inc32 l.node_link_count;
          })
          (front ++ p ∷ x ∷ ys)
  placed-IsDouble front head' next' prev' v out small chain back = record {
    chain = chain;
    back = back;
    tail = v.tail ∙ sym (last_or-insert null p x front ys);
    links =
        omega
          (arith, v.links, small, length-append front (x ∷ ys), length-append front (p ∷ x ∷ ys));
    once = λ a.
        ground
          (arith, v.once a, out, count-append a front (x ∷ ys), count-append a front (p ∷ x ∷ ys));
    not_null = ground (
      arith,
      v.not_null,
      some_p,
      count-append null front (x ∷ ys),
      count-append null front (p ∷ x ∷ ys),
    );
    all_live = λ a i. ground (
      arith,
      v.all_live a,
      is_live,
      count-append a front (x ∷ ys),
      count-append a front (p ∷ x ∷ ys),
    );
  }

  -- `LinkInsertPrev` puts a node that is not linked in front of one that is.
  pub link_insert_prev-IsDouble :
      (front : List Ptr)
      → IsDouble l (front ++ x ∷ ys)
      → count p (front ++ x ∷ ys) ≡ 0
      → length (front ++ x ∷ ys) + 1 < u32
      → Returns (λ l'. IsDouble l' (front ++ p ∷ x ∷ ys) × SameNodes l l') (link_insert_prev x p l)
  unfolding link_insert_prev insert_prev
  link_insert_prev-IsDouble [] v out small =
      let some_node : (p == null) ≡ false = ground (arith, some_p) in
      let some_x : (x == null) ≡ false = ground (arith, v.not_null) in
      let x_live : l.live x ≡ true = v.all_live x (ground arith) in
      let first : l.prev x ≡ null = v.back.0 in
      let next' = update l.next p x in
      let prev' = update (update l.prev p null) x p in
      let from_x : next' x ≡ l.next x = ground (arith, out) in
      let behind =
        Chain-frame l.next next' (l.next x) ys v.chain.1 (λ a i. ground (arith, out, i)) in
      let final =
        placed-IsDouble [] p next' prev' v out small (refl, (ground arith, rw from_x behind))
          (
            ground (arith, out),
            (
              ground arith,
              Back-frame l.prev prev' x ys v.back.1 (λ a i. ground (arith, v.once x, out, i)),
            ),
          ) in
      rw (some_node, some_x, x_live, first)
        (rw is_live (rw is_live (rw x_live (returns (final, (refl, refl, refl))))))
  link_insert_prev-IsDouble (f ∷ front) v out small =
      let some_node : (p == null) ≡ false = ground (arith, some_p) in
      let some_x : (x == null) ≡ false =
        ground (arith, v.not_null, count-append null front (x ∷ ys)) in
      let x_live : l.live x ≡ true = v.all_live x (ground (arith, count-append x front (x ∷ ys))) in
      let q = last_or f front in
      let before_x : l.prev x ≡ q = Back-prev l.prev null x (f ∷ front) ys v.back in
      let some_q : (q == null) ≡ false =
        ground (arith, v.not_null, count-last_or f front, count-append null front (x ∷ ys)) in
      let inside : 0 < count q (f ∷ (front ++ x ∷ ys)) =
        omega (arith, count-last_or f front, count-append q front (x ∷ ys)) in
      let q_live : l.live q ≡ true = v.all_live q inside in
      let apart : q ≢ p = λ k. ground (arith, k, out, inside) in
      let x_apart : x ≢ p = λ k. ground (arith, k, out, count-append p front (x ∷ ys)) in
      let next' = update (update l.next p x) q p in
      let prev' = update (update l.prev p q) x p in
      let final =
        placed-IsDouble (f ∷ front) l.head_node next' prev' v out small
          (Chain-insert l.next next' l.head_node p x f front ys v.chain (λ a. v.once a)
            (ground arith) (ground (arith, apart)) (λ a i n. ground (arith, n, i, out)))
          (Back-insert l.prev prev' null p x (f ∷ front) ys v.back (λ a. v.once a)
            (ground (arith, x_apart)) (ground arith) (λ a i n. ground (arith, n, i, out))) in
      rw (some_node, some_x, x_live, before_x, some_q)
        (rw is_live (rw is_live (rw q_live (rw x_live (returns (final, (refl, refl, refl)))))))
