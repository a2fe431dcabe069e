-- ===== src/Pool/Ownership.antt =====
-- Who owns each block of the heap: the pools or the code that holds it, and never both.
use fast_net.Base.{
  ℕ, ◌+◌, ◌≤◌, ◌<◌, ◌≡◌, refl, inl, inr, Bool, true, false, List, [], ◌∷◌, Option, none, some,
  arith, ltb, ltb→lt, ◌==◌, Bool-cases, Option-cases, ==_iff, length, All,
}
use fast_net.Pool.{
  Heap, malloc, Vector, Pools, find, assign, World, free, free_buffer, allocate_new, take_back,
  allocate, deallocate,
}
use fast_net.Pool.Counting.{count, pooled, count-append, remove-count, count-assign}

module _ (P : ℕ → Vector → Type 0) where
  -- A predicate on each entry of the pools.
  abbrev pub AllPools : Pools → Type 0
  AllPools [] = Unit
  AllPools ((n, v) ∷ ps) = P n v × AllPools ps

  pub AllPools-find :
      (size : ℕ) (v : Vector) (ps : Pools) → find size ps ≡ some v → AllPools ps → P size v
  unfolding find
  AllPools-find size v [] e h = cc
  AllPools-find size v ((n, u) ∷ ps) e h = elim (Bool-cases (size == n)) [
    | inl here ↦
        let same : u ≡ v = ground arith in
        let key : size ≡ n = (==_iff size n).0 here in rw (key, ← same) h.0
    | inr later ↦ AllPools-find size v ps (rw (later, find) at e) h.1
  ]

  pub AllPools-assign :
      (size : ℕ) (w : Vector) (ps : Pools) → P size w → AllPools ps → AllPools (assign size w ps)
  unfolding assign
  AllPools-assign size w [] p h = (p, tt)
  AllPools-assign size w ((n, u) ∷ ps) p h = elim (Bool-cases (size == n)) [
    | inl here ↦ let key : size ≡ n = (==_iff size n).0 here in rw (here, assign) (rw key at p, h.1)
    | inr later ↦ rw (later, assign) (h.0, AllPools-assign size w ps p h.1)
  ]

-- A vector in the pool of `size`: its buffers have that size, and it does not exceed its capacity.
pub record IsClass (size_of : ℕ → ℕ) (size : ℕ) (v : Vector) : Type 0 where
  pub sized : All (λ b. size_of b ≡ size) v.items
  pub roomy : length v.items ≤ v.capacity

-- The blocks of the heap are the pooled buffers and the held ones, each exactly once.
pub record Inv (w : World) (held : List ℕ) : Type 0 where
  pub partition : (a : ℕ) → count a w.heap.live ≡ count a (pooled w.pools) + count a held
  pub unique : (a : ℕ) → count a w.heap.live ≤ 1
  pub fresh : (a : ℕ) → w.heap.next ≤ a → count a w.heap.live ≡ 0
  pub classes : AllPools (IsClass w.heap.size_of) w.pools

pub All-malloc :
    (h : Heap) (size n : ℕ) (bs : List ℕ)
    → count h.next bs ≡ 0
    → All (λ b. h.size_of b ≡ n) bs
    → All (λ b. (malloc size h).1.size_of b ≡ n) bs
All-malloc h size n [] absent sized = tt
All-malloc h size n (b ∷ bs) absent sized =
    (ground arith, All-malloc h size n bs (ground arith) sized.1)

AllPools-malloc :
    (h : Heap) (size : ℕ) (ps : Pools)
    → count h.next (pooled ps) ≡ 0
    → AllPools (IsClass h.size_of) ps
    → AllPools (IsClass (malloc size h).1.size_of) ps
AllPools-malloc h size [] absent classes = tt
AllPools-malloc h size ((n, v) ∷ ps) absent classes =
    let split = count-append h.next v.items (pooled ps) in
    (
      record {
        sized = All-malloc h size n v.items (omega arith) classes.0.sized;
        roomy = classes.0.roomy;
      },
      AllPools-malloc h size ps (omega arith) classes.1,
    )

-- A new block goes to the code that asked for it.
pub malloc-Inv :
    (size : ℕ) (w : World) (held : List ℕ)
    → Inv w held
    → Inv (allocate_new size w).1 ((allocate_new size w).0 ∷ held)
malloc-Inv size w held v = record {
  partition = λ a. omega (arith, v.partition a);
  unique = λ a. ground (arith, v.unique a, v.fresh a);
  fresh = λ a h. ground (arith, v.fresh a);
  classes =
      AllPools-malloc w.heap size w.pools
        (omega (arith, v.partition w.heap.next, v.fresh w.heap.next)) v.classes;
}

-- What `allocate` promises: the pool and the heap stay in order with the buffer among those held,
-- nobody held the buffer before, it has the size asked for, and held buffers keep their sizes.
pub record Allocated (size : ℕ) (w : World) (held : List ℕ) (r : ℕ × World) : Type 0 where
  pub inv : Inv r.1 (r.0 ∷ held)
  pub new : count r.0 held ≡ 0
  pub size_ok : r.1.heap.size_of r.0 ≡ size
  pub kept : (a : ℕ) → 0 < count a held → r.1.heap.size_of a ≡ w.heap.size_of a

module _ (size : ℕ) (w : World) (held : List ℕ) (v : Inv w held) where
  allocate_new-Allocated : Allocated size w held (allocate_new size w)
  allocate_new-Allocated = record {
    inv = malloc-Inv size w held v;
    new = omega (arith, v.partition w.heap.next, v.fresh w.heap.next);
    size_ok = ground arith;
    kept = λ a h. ground (arith, v.partition a, v.fresh a);
  }

  take_back-Allocated :
      (u : Vector) (xs : List ℕ)
      → find size w.pools ≡ some u
      → u.items ≡ xs
      → Allocated size w held (take_back size w u.capacity xs)
  unfolding take_back
  take_back-Allocated u [] found e = allocate_new-Allocated
  take_back-Allocated u (b ∷ bs) found e =
      let left : Vector = record { items = bs; capacity = u.capacity } in
      let class = AllPools-find (IsClass w.heap.size_of) size u w.pools found v.classes in
      let sized = rw e at class.sized in
      let roomy = rw e at class.roomy in
      let counted : (a : ℕ)
          → count a (pooled (assign size left w.pools)) + count a (b ∷ bs)
            ≡ count a (pooled w.pools) + count a bs =
        λ a. rw e at (count-assign a size u left w.pools found) in
      record {
        inv = record {
          partition = λ a. omega (arith, v.partition a, counted a);
          unique = v.unique;
          fresh = v.fresh;
          classes =
              AllPools-assign (IsClass w.heap.size_of) size left w.pools
                (record { sized = sized.1; roomy = omega arith }) v.classes;
        };
        new = ground (arith, counted b, v.partition b, v.unique b);
        size_ok = sized.0;
        kept = λ a h. refl;
      }

  allocate_pooled-Allocated :
      (o : Option Vector)
      → find size w.pools ≡ o
      → Allocated size w held
          (elim o [ none ↦ allocate_new size w | some u ↦ take_back size w u.capacity u.items ])
  allocate_pooled-Allocated none found = allocate_new-Allocated
  allocate_pooled-Allocated (some u) found = take_back-Allocated u u.items found refl

-- Where the blocks of the heap are the pooled and the held buffers, each once and pooled by its
-- size, `allocate`, with or without the pools in use, keeps that so with its buffer among the held
-- ones; the buffer was not held before, it has the size asked for, and held buffers keep their
-- sizes.
pub allocate-Allocated :
    (m : Bool) (size : ℕ) (w : World) (held : List ℕ)
    → Inv w held
    → Allocated size w held (allocate m size w)
unfolding allocate
allocate-Allocated true size w held v = allocate_new-Allocated size w held v
allocate-Allocated false size w held v =
    allocate_pooled-Allocated size w held v (find size w.pools) refl

free_buffer-Inv :
    (b : ℕ) (w : World) (held : List ℕ)
    → Inv w (b ∷ held)
    → (w' : World) × (free_buffer b w ≡ some w') × Inv w' held × (w'.heap.size_of ≡ w.heap.size_of)
free_buffer-Inv b w held v =
    let (bs, removed, counted) = remove-count b w.heap.live (ground (arith, v.partition b)) in
    rw (removed, free_buffer, free)
      (
        _,
        refl,
        record {
          partition = λ a. omega (arith, v.partition a, counted a);
          unique = λ a. omega (arith, v.unique a, counted a);
          fresh = λ a h. omega (arith, v.fresh a h, counted a);
          classes = v.classes;
        },
        refl,
      )

-- Where the blocks of the heap are the pooled and the held buffers, each once, giving back a held
-- buffer with its own size is never a fault: the pools or the heap take it, the same holds with
-- one buffer less held, and no block changes its size.
pub deallocate-Inv :
    (m : Bool) (b size : ℕ) (w : World) (held : List ℕ)
    → Inv w (b ∷ held)
    → w.heap.size_of b ≡ size
    → (w' : World) × (deallocate m b size w ≡ some w')
      × Inv w' held
      × (w'.heap.size_of ≡ w.heap.size_of)
unfolding deallocate
deallocate-Inv true b size w held v sized = free_buffer-Inv b w held v
deallocate-Inv false b size w held v sized = elim (Option-cases (find size w.pools)) [
  | inl none_found ↦ rw (none_found, deallocate) (free_buffer-Inv b w held v)
  | inr (u, found) ↦ elim (Bool-cases (ltb (length u.items) u.capacity)) [
    | inl room ↦
        let pushed : Vector = record { items = b ∷ u.items; capacity = u.capacity } in
        let class = AllPools-find (IsClass w.heap.size_of) size u w.pools found v.classes in
        let fits : length u.items < u.capacity = ltb→lt _ _ room in
        rw (found, deallocate)
          (rw room (
            _,
            refl,
            record {
              partition =
                  λ a. omega (arith, v.partition a, count-assign a size u pushed w.pools found);
              unique = v.unique;
              fresh = v.fresh;
              classes =
                  AllPools-assign (IsClass w.heap.size_of) size pushed w.pools
                    (record { sized = (sized, class.sized); roomy = fits }) v.classes;
            },
            refl,
          ))
    | inr full ↦ rw (found, deallocate) (rw full (free_buffer-Inv b w held v))
  ]
]
