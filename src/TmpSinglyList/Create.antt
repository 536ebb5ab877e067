-- ===== src/TmpSinglyList/Create.antt =====
-- `Create` makes an empty list with an array of unused nodes.
use winsock_multi_thread_ser.Base.{
  ℕ, zero, suc, ◌+◌, ◌*◌, ◌/◌, ◌%◌, ◌≤◌, ◌<◌, ◌≡◌, refl, ◌≢◌, ap, inl, inr, true, false, [], arith,
  ltb, lt→ltb, ◌==◌, Bool-cases, Ptr, null, u32, count, update, Layout,
}
use mathlib.Core.Path.{ap₂}
use winsock_multi_thread_ser.Memory.{MemoryPool, s_memory_allocate}
use winsock_multi_thread_ser.TmpSinglyList.{TmpSinglyList, format, create, cleared}
use winsock_multi_thread_ser.TmpSinglyList.Invariant.{IsList, nodes_from, unused}

-- Nodes behind an address lie behind it.
count-nodes_from_below : (size p n a : ℕ) → a < p → count a (nodes_from size p n) ≡ 0
count-nodes_from_below size p zero a h = refl
count-nodes_from_below size p (suc n) a h =
    ground (arith, count-nodes_from_below size (p + size) n a)

count-nodes_from-le : (size p n a : ℕ) → 0 < size → count a (nodes_from size p n) ≤ 1
count-nodes_from-le size p zero a h = omega arith
count-nodes_from-le size p (suc n) a h =
    ground
      (arith, count-nodes_from-le size (p + size) n a, count-nodes_from_below size (p + size) n a)

array_size : (size n : ℕ) → 0 < size → size * n < u32 → ((size * n) % u32) / size ≡ n
array_size size n h k = grind arith

max-lt : (size n : ℕ) → 0 < size → size * n < u32 → n < u32
max-lt size n h k = grind arith

module _ {ℓ} {A : Type ℓ} ⦃y : Layout A⦄ where
  -- What formatting a block leaves as it was.
  format-keeps :
      (p : Ptr) (n : ℕ) (l : TmpSinglyList A)
      → let f = format p n l in
        ((f.object_count_max ≡ l.object_count_max)
          × (f.buffer_list ≡ l.buffer_list)
          × (f.buffer_list_count ≡ l.buffer_list_count))
        × ((f.head_node ≡ l.head_node)
            × (f.tail_node ≡ l.tail_node)
            × (f.node_use_count ≡ l.node_use_count))
        × ((f.node_link_count ≡ l.node_link_count)
            × (f.free_list ≡ l.free_list)
            × (f.free_list_count ≡ l.free_list_count))
  unfolding format
  format-keeps p zero l = ground arith
  format-keeps p (suc n) l = elim (Bool-cases (p == null)) [
    | inl e ↦ rw e (ground arith)
    | inr e ↦
        rw e (format-keeps (p + y.size_of) n (cleared p (record l { live = update l.live p true })))
  ]

  -- A node of a list whose bytes are 0.
  abbrev IsBlank : TmpSinglyList A → Ptr → Type ℓ
  IsBlank l a = (l.live a ≡ true) × (l.node_data a ≡ y.zero_data) × (l.node_number a ≡ 0)

  format-old :
      (p : Ptr) (n : ℕ) (l : TmpSinglyList A) (a : Ptr) → IsBlank l a → IsBlank (format p n l) a
  unfolding format
  format-old p zero l a h = h
  format-old p (suc n) l a h = elim (Bool-cases (p == null)) [
    | inl e ↦ rw e h
    | inr e ↦ rw e (
        format-old (p + y.size_of) n (cleared p (record l { live = update l.live p true })) a
          (ground arith))
  ]

  format-new :
      (p : Ptr) (n : ℕ) (l : TmpSinglyList A) (a : Ptr)
      → p ≢ null
      → 0 < count a (nodes_from y.size_of p n)
      → IsBlank (format p n l) a
  unfolding format
  format-new p zero l a h i = absurd (omega arith)
  format-new p (suc n) l a h i =
      let e : (p == null) ≡ false = ground arith in
      let l' = cleared p (record l { live = update l.live p true }) in
      elim (Bool-cases (p == a)) [
        | inl here ↦ rw e (format-old (p + y.size_of) n l' a (ground arith))
        | inr there ↦ rw e (format-new (p + y.size_of) n l' a (omega arith) (ground arith))
      ]

  -- The members that `Create` sets, before the block is formatted.
  abbrev set_up : ℕ → Ptr → TmpSinglyList A → TmpSinglyList A
  set_up object_max base l = record l {
    object_count_max = object_max;
    buffer_list = base;
    buffer_list_count = object_max;
    head_node = null;
    tail_node = null;
    node_use_count = 0;
    node_link_count = 0;
    free_list = null;
    free_list_count = 0;
  }

  set_up-IsList :
      (object_max : ℕ) (base : Ptr) (l : TmpSinglyList A)
      → object_max < u32
      → base ≢ null
      → IsList (format base object_max (set_up object_max base l)) [] [] []
  set_up-IsList object_max base l small some =
      let l' = set_up object_max base l in
      let k = format-keeps base object_max l' in
      let same : unused (format base object_max l') ≡ nodes_from y.size_of base object_max =
        ap₂ (λ p n. nodes_from y.size_of p n) k.0.1 k.0.2 in
      let blank = λ (a : Ptr) (i : 0 < count a (nodes_from y.size_of base object_max)).
        format-new base object_max l' a some i in
      record {
        chain = k.1.0;
        tail = k.1.1;
        links = k.2.0;
        free_chain = k.2.1;
        frees = k.2.2;
        uses = k.1.2;
        once = λ a.
            rw same (omega (arith, count-nodes_from-le y.size_of base object_max a y.size_pos));
        not_null =
            rw same
              (omega (arith, count-nodes_from_below y.size_of base object_max null (omega arith)));
        all_live = λ a i. (blank a (omega (arith, ap (count a) same))).0;
        blank_data = λ a i. (blank a (omega (arith, ap (count a) same))).1;
        blank_number = λ a i. (blank a (omega (arith, ap (count a) same))).2;
        small = omega (arith, k.0.2);
      }

  -- If the memory pool has a block for an array of `object_max` nodes, and its size fits in 32
  -- bits, then after `Create` no node is linked, held or free, all nodes of the array are unused,
  -- their number is `object_max`, and all fits together; the pool is the one after the request.
  pub create-IsList :
      (b n : Ptr) (object_max : ℕ) (m : MemoryPool) (l : TmpSinglyList A)
      → 0 < object_max
      → y.size_of * object_max < u32
      → (s_memory_allocate b n (y.size_of * object_max) m).1 ≢ null
      → let r = create b n object_max m l in
        IsList r.1 [] [] []
        × (r.1.buffer_list_count ≡ object_max)
        × (r.1.object_count_max ≡ object_max)
        × (r.0 ≡ (s_memory_allocate b n (y.size_of * object_max) m).0)
  unfolding create
  create-IsList b n object_max m l pos fits got =
      let some_max : ltb 0 object_max ≡ true = lt→ltb _ _ pos in
      let bytes : (y.size_of * object_max) % u32 ≡ y.size_of * object_max = omega arith in
      let array = array_size y.size_of object_max y.size_pos fits in
      let base = (s_memory_allocate b n (y.size_of * object_max) m).1 in
      let k = format-keeps base object_max (set_up object_max base l) in
      rw (some_max, array, bytes)
        (
          set_up-IsList object_max base l (max-lt y.size_of object_max y.size_pos fits) got,
          k.0.2,
          k.0.0,
          refl,
        )
