-- ===== src/Pool/Lifetime.antt =====
-- A pool from its constructor to its destructor, under any calls of its user.
use fast_net.Base.{
  ℕ, ◌+◌, ◌≤◌, ◌≡◌, refl, ap, subst, Bool, true, false, List, [], ◌∷◌, Option, some, arith,
}
use fast_net.Pool.{
  Heap, no_heap, Pools, World, free, free_all, free_pools, construct, allocate, deallocate, destroy,
}
use fast_net.Pool.Counting.{count, pooled, count-append, remove-count}
use fast_net.Pool.Ownership.{Inv, allocate-Allocated, deallocate-Inv}
use fast_net.Pool.Construction.{construct-Inv}

-- A call of the user, who holds the buffers of a list: it gives back only what it holds, with the
-- size that it asked for.
pub data Step (m : Bool) (w : World) (held : List ℕ) : World → List ℕ → Type 0 where
  allocates : (size : ℕ) → Step m w held (allocate m size w).1 ((allocate m size w).0 ∷ held)
  deallocates :
      (b size : ℕ) {w' : World} {held' : List ℕ}
      → ((a : ℕ) → count a held ≡ count a (b ∷ held'))
      → w.heap.size_of b ≡ size
      → deallocate m b size w ≡ some w'
      → Step m w held w' held'

pub data Reach (m : Bool) (sizes : List ℕ) (capacity : ℕ) : World → List ℕ → Type 0 where
  built : Reach m sizes capacity (construct m sizes capacity no_heap) []
  later :
      {w w' : World} {held held' : List ℕ}
      → Reach m sizes capacity w held
      → Step m w held w' held'
      → Reach m sizes capacity w' held'

-- Only the number of times that each buffer is held matters.
pub Inv-held :
    (w : World) (xs ys : List ℕ) → ((a : ℕ) → count a xs ≡ count a ys) → Inv w xs → Inv w ys
Inv-held w xs ys same v = record {
  partition = λ a. omega (arith, v.partition a, same a);
  unique = v.unique;
  fresh = v.fresh;
  classes = v.classes;
}

given_back : {A : Type 0} {o : Option A} {x y : A} → o ≡ some x → o ≡ some y → x ≡ y
given_back p q = cc

Step-Inv :
    {m : Bool} {w w' : World} {held held' : List ℕ}
    → Step m w held w' held'
    → Inv w held
    → Inv w' held'
Step-Inv {m} {w} {held = held} (allocates size) v = (allocate-Allocated m size w held v).inv
Step-Inv {m} {w} {held = held} (deallocates b size {held' = held'} same sized done) v =
    let (w'', done', inv, _) =
      deallocate-Inv m b size w held' (Inv-held w held (b ∷ held') same v) sized in
    subst (λ x. Inv x held') (given_back done' done) inv

pub Reach-Inv :
    {m : Bool} {sizes : List ℕ} {capacity : ℕ} {w : World} {held : List ℕ}
    → Reach m sizes capacity w held
    → Inv w held
Reach-Inv {m} {sizes} {capacity} built = construct-Inv m sizes capacity
Reach-Inv (later r st) = Step-Inv st (Reach-Inv r)

free_all-count :
    (bs : List ℕ) (h : Heap)
    → ((a : ℕ) → count a bs ≤ count a h.live)
    → (h' : Heap) × (free_all bs h ≡ some h')
      × ((a : ℕ) → count a h.live ≡ count a bs + count a h'.live)
unfolding free_all
free_all-count [] h enough = (h, refl, λ a. omega arith)
free_all-count (b ∷ bs) h enough =
    let (xs, removed, counted) = remove-count b h.live (ground (arith, enough b)) in
    let (h', freed, left) =
      free_all-count bs (record h { live = xs }) (λ a. omega (arith, enough a, counted a)) in
    rw (removed, free_all, free) (h', freed, λ a. omega (arith, left a, counted a))

free_pools-count :
    (ps : Pools) (h : Heap)
    → ((a : ℕ) → count a (pooled ps) ≤ count a h.live)
    → (h' : Heap) × (free_pools ps h ≡ some h')
      × ((a : ℕ) → count a h.live ≡ count a (pooled ps) + count a h'.live)
unfolding free_pools
free_pools-count [] h enough = (h, refl, λ a. omega arith)
free_pools-count ((n, v) ∷ ps) h enough =
    let (h', freed, left) =
      free_all-count v.items h (λ a. omega (arith, enough a, count-append a v.items (pooled ps))) in
    let (h'', freed', left') =
      free_pools-count ps h'
        (λ a. omega (arith, enough a, count-append a v.items (pooled ps), left a)) in
    rw (freed, free_pools)
      (h'', freed', λ a. omega (arith, left a, left' a, count-append a v.items (pooled ps)))

-- Without pools there is nothing that the destructor would have to free.
unpooled :
    {sizes : List ℕ} {capacity : ℕ} {w : World} {held : List ℕ}
    → Reach true sizes capacity w held
    → w.pools ≡ []
unfolding construct allocate deallocate
unpooled built = refl
unpooled (later r (allocates size)) = unpooled r
unpooled (later {w = w} r (deallocates b size {w' = w'} same sized done)) =
    let before = unpooled r in ground (arith, before)

-- The destructor of pools in order frees none of the buffers that are held.
pub destroy-held :
    (m : Bool) (w : World) (held : List ℕ)
    → Inv w held
    → (h : Heap) × (destroy m w ≡ some h) × ((a : ℕ) → count a held ≤ count a h.live)
unfolding destroy
destroy-held true w held v = (w.heap, refl, λ a. omega (arith, v.partition a))
destroy-held false w held v =
    let (h, freed, left) = free_pools-count w.pools w.heap (λ a. omega (arith, v.partition a)) in
    (h, freed, λ a. omega (arith, v.partition a, left a))

-- After any calls of a user that gives back what it holds, the destructor runs with no fault, and
-- what stays allocated is exactly what the user still holds: once it holds nothing, nothing leaks.
pub destroy_exact :
    {m : Bool} {sizes : List ℕ} {capacity : ℕ} {w : World} {held : List ℕ}
    → Reach m sizes capacity w held
    → (h : Heap) × (destroy m w ≡ some h) × ((a : ℕ) → count a h.live ≡ count a held)
unfolding destroy
destroy_exact {m = true} {w = w} r =
    let v = Reach-Inv r in
    (
      w.heap,
      refl,
      λ a. omega (arith, v.partition a, ap (λ (ps : Pools). count a (pooled ps)) (unpooled r)),
    )
destroy_exact {m = false} {w = w} r =
    let v = Reach-Inv r in
    let (h, freed, left) = free_pools-count w.pools w.heap (λ a. omega (arith, v.partition a)) in
    (h, freed, λ a. omega (arith, v.partition a, left a))

-- After any calls of a user that gives back what it holds, no buffer is held twice, nor held while
-- it waits in a pool.
pub held_once :
    {m : Bool} {sizes : List ℕ} {capacity : ℕ} {w : World} {held : List ℕ}
    → Reach m sizes capacity w held
    → (a : ℕ) → count a (pooled w.pools) + count a held ≤ 1
held_once r a = let v = Reach-Inv r in omega (arith, v.partition a, v.unique a)
