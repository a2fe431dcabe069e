-- ===== src/Pool/Construction.antt =====
-- The constructor leaves every pooled buffer live, once, in the vector of its size.
use fast_net.Base.{
  ℕ, zero, suc, ◌+◌, ◌≤◌, ◌≡◌, refl, inl, inr, Bool, true, false, List, [], ◌∷◌, arith,
  Option-cases, length,
}
use fast_net.Pool.{
  Heap, no_heap, malloc, Vector, no_items, reserve, push_back, Pools, find, entry, assign, World,
  fill_pool, fill_pools, construct,
}
use fast_net.Pool.Counting.{count, pooled, count-assign, count-assign_new}
use fast_net.Pool.Ownership.{
  AllPools, AllPools-find, AllPools-assign, IsClass, Inv, malloc-Inv, All-malloc,
}

push_back-roomy :
    (b : ℕ) (v : Vector)
    → length v.items ≤ v.capacity
    → length (push_back b v).items ≤ (push_back b v).capacity
push_back-roomy b v h = ground arith

-- The buffers that the loop adds to a vector are held until the vector is put in its place.
record Filled (size : ℕ) (ps : Pools) (held : List ℕ) (v : Vector) (r : Vector × Heap)
    : Type 0 where
  taken : List ℕ
  inv : Inv (record { heap = r.1; pools = ps }) taken
  class : IsClass r.1.size_of size r.0
  added : (a : ℕ) → count a taken + count a v.items ≡ count a held + count a r.0.items

fill_pool-Filled :
    (n size : ℕ) (v : Vector) (h : Heap) (ps : Pools) (held : List ℕ)
    → Inv (record { heap = h; pools = ps }) held
    → IsClass h.size_of size v
    → ((a : ℕ) → h.next ≤ a → count a v.items ≡ 0)
    → Filled size ps held v (fill_pool n size v h)
unfolding fill_pool
fill_pool-Filled zero size v h ps held inv class fresh = record {
  taken = held;
  inv = inv;
  class = class;
  added = λ a. refl;
}
fill_pool-Filled (suc n) size v h ps held inv class fresh =
    let b = h.next in
    let h' = (malloc size h).1 in
    let v' = push_back b v in
    let class' : IsClass h'.size_of size v' = record {
      sized = (ground arith, All-malloc h size size v.items (fresh b (omega arith)) class.sized);
      roomy = push_back-roomy b v class.roomy;
    } in
    let r =
      fill_pool-Filled n size v' h' ps (b ∷ held) (malloc-Inv size _ held inv) class'
        (λ a above. ground (arith, fresh a)) in
    record { taken = r.taken; inv = r.inv; class = r.class; added = λ a. omega (arith, r.added a) }

entry-absent :
    (a size : ℕ) (ps : Pools) → count a (pooled ps) ≡ 0 → count a (entry size ps).items ≡ 0
entry-absent a size ps h = elim (Option-cases (find size ps)) [
  | inl new ↦ rw (new, entry) refl
  | inr (v, found) ↦ rw (found, entry) (omega (arith, count-assign a size v no_items ps found))
]

entry-IsClass :
    (f : ℕ → ℕ) (size : ℕ) (ps : Pools) → AllPools (IsClass f) ps → IsClass f size (entry size ps)
entry-IsClass f size ps h = elim (Option-cases (find size ps)) [
  | inl new ↦ rw (new, entry) (record { sized = tt; roomy = omega arith })
  | inr (v, found) ↦ rw (found, entry) (AllPools-find (IsClass f) size v ps found h)
]

count-assign-entry :
    (a size : ℕ) (w : Vector) (ps : Pools)
    → count a (pooled (assign size w ps)) + count a (entry size ps).items
      ≡ count a (pooled ps) + count a w.items
count-assign-entry a size w ps = elim (Option-cases (find size ps)) [
  | inl new ↦ rw (new, entry) (omega (arith, count-assign_new a size w ps new))
  | inr (v, found) ↦ rw (found, entry) (count-assign a size v w ps found)
]

fill_pools-Inv :
    (sizes : List ℕ) (initial_capacity : ℕ) (w : World) (held : List ℕ)
    → Inv w held
    → Inv (fill_pools sizes initial_capacity w) held
unfolding fill_pools
fill_pools-Inv [] c w held v = v
fill_pools-Inv (size ∷ sizes) c w held v =
    let u = entry size w.pools in
    let class = entry-IsClass w.heap.size_of size w.pools v.classes in
    let r =
      fill_pool-Filled c size (reserve c u) w.heap w.pools held v
        (record { sized = class.sized; roomy = omega (arith, class.roomy) })
        (λ a above. entry-absent a size w.pools (omega (arith, v.partition a, v.fresh a above))) in
    let (u', h') = fill_pool c size (reserve c u) w.heap in
    fill_pools-Inv sizes c (record { heap = h'; pools = assign size u' w.pools }) held
      (record {
        partition =
            λ a. omega (arith, r.inv.partition a, r.added a, count-assign-entry a size u' w.pools);
        unique = r.inv.unique;
        fresh = r.inv.fresh;
        classes = AllPools-assign (IsClass h'.size_of) size u' w.pools r.class r.inv.classes;
      })

-- Whether or not the pools are in use, and also where a size is listed twice, the constructor
-- starts with every block of the heap in the pools, once and by its size, and none held.
pub construct-Inv :
    (m : Bool) (buffer_sizes : List ℕ) (initial_capacity : ℕ)
    → Inv (construct m buffer_sizes initial_capacity no_heap) []
unfolding construct
construct-Inv true sizes c = record {
  partition = λ a. omega arith;
  unique = λ a. omega arith;
  fresh = λ a h. refl;
  classes = tt;
}
construct-Inv false sizes c =
    fill_pools-Inv sizes c (record { heap = no_heap; pools = [] }) []
      (record {
        partition = λ a. omega arith;
        unique = λ a. omega arith;
        fresh = λ a h. refl;
        classes = tt;
      })
