-- ===== src/DoublyList/Release.antt =====
-- What `Release` deletes.
use winsock_multi_thread_ser.Base.{
  ℕ, zero, suc, ◌+◌, ◌≤◌, ◌<◌, ◌≡◌, refl, true, false, List, [], ◌∷◌, ◌++◌, arith, length, ◌==◌,
  if◌then◌else◌, Ptr, null, count, count-append, Chain, update, Returns, returns, Returns-bind,
  Returns-map,
}
use winsock_multi_thread_ser.DoublyList.{DoublyList, create, release_chain, release}

-- Both chains of the list: linked nodes and free ones, with their counters. No node is in both.
pub record IsHeap (l : DoublyList) (linked free : List Ptr) : Type 0 where
  pub chain : Chain l.next l.head_node linked
  pub free_chain : Chain l.next l.free_list free
  pub links : l.node_link_count ≡ length linked
  pub frees : l.free_list_count ≡ length free
  pub once : (a : Ptr) → count a (linked ++ free) ≤ 1
  pub not_null : count null (linked ++ free) ≡ 0
  pub all_live : (a : Ptr) → 0 < count a (linked ++ free) → l.live a ≡ true

-- The nodes of a list are no longer there, and all others are as before, with the same pointers.
pub record Deleted (xs : List Ptr) (l l' : DoublyList) : Type 0 where
  pub memory : (a : Ptr) → l'.live a ≡ (if count a xs == 0 then l.live a else false)
  pub same_next : l'.next ≡ l.next
  pub same_free : l'.free_list ≡ l.free_list
  pub same_count : l'.free_list_count ≡ l.free_list_count

release_chain-Deleted :
    (k : ℕ) (p : Ptr) (xs : List Ptr) (l : DoublyList)
    → Chain l.next p xs
    → ((a : Ptr) → count a xs ≤ 1)
    → count null xs ≡ 0
    → ((a : Ptr) → 0 < count a xs → l.live a ≡ true)
    → length xs < k
    → Returns (Deleted xs l) (release_chain k p l)
unfolding release_chain
release_chain-Deleted zero p xs l c one n alive enough = absurd (omega (arith, enough))
release_chain-Deleted (suc k) p [] l c one n alive enough =
    rw c (
      returns
        (record { memory = λ a. refl; same_next = refl; same_free = refl; same_count = refl }))
release_chain-Deleted (suc k) p (x ∷ xs) l c one n alive enough =
    let some_p : (p == null) ≡ false = ground (arith, c.0, n) in
    let p_live : l.live p ≡ true = alive p (ground (arith, c.0)) in
    let gone : DoublyList = record l { live = update l.live p false } in
    let chain : Chain l.next (l.next p) xs = rw c.0 c.1 in
    let later =
      release_chain-Deleted k (l.next p) xs gone chain (λ a. ground (arith, one a))
        (ground (arith, n)) (λ a i. ground (arith, alive a, one a, i, c.0))
        (omega (arith, enough)) in
    rw (some_p, p_live)
      (Returns-map later (λ l' d. record {
        memory = λ a. ground (arith, d.memory a, c.0);
        same_next = d.same_next;
        same_free = d.same_free;
        same_count = d.same_count;
      }))

-- `Release` of a list whose linked and free nodes are all there, each in one of the two chains, with
-- counters that say how many they are, ends within the rounds it is given, without a read of a
-- deleted node and without deleting a node twice: exactly the nodes of the two chains are deleted,
-- and the list is empty.
pub release-Deleted :
    (l : DoublyList) (linked free : List Ptr)
    → IsHeap l linked free
    → Returns
        (λ l'.
          ((a : Ptr) → l'.live a ≡ (if count a (linked ++ free) == 0 then l.live a else false))
          × IsHeap l' [] [])
        (release l)
unfolding release create
release-Deleted l linked free v =
    let first =
      release_chain-Deleted (l.node_link_count + 1) l.head_node linked l v.chain
        (λ a. omega (arith, v.once a, count-append a linked free))
        (omega (arith, v.not_null, count-append null linked free))
        (λ a i. v.all_live a (omega (arith, i, count-append a linked free)))
        (omega (arith, v.links)) in
    Returns-bind first (λ l' d.
      let chain : Chain l'.next l'.free_list free = rw (d.same_next, d.same_free) v.free_chain in
      let second =
        release_chain-Deleted (l'.free_list_count + 1) l'.free_list free l' chain
          (λ a. omega (arith, v.once a, count-append a linked free))
          (omega (arith, v.not_null, count-append null linked free))
          (λ a i. ground (arith, d.memory a, v.all_live a, v.once a, i, count-append a linked free))
          (omega (arith, v.frees, d.same_count)) in
      Returns-bind second (λ l'' e. returns (
        (λ a. ground (arith, d.memory a, e.memory a, count-append a linked free)),
        record {
          chain = refl;
          free_chain = refl;
          links = refl;
          frees = refl;
          once = λ a. omega arith;
          not_null = refl;
          all_live = λ a i. ground (arith, i);
        },
      )))
