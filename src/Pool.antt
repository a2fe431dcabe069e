-- ===== src/Pool.antt =====
-- buffer_pool.hpp: buffers kept for reuse, by their size. `malloc` and `free` act on a heap of
-- blocks: a block's address is never given out twice, `malloc` does not fail, and `free` of an
-- address that holds no block is a fault. The macro ALLOCATE_MALLOC is an argument.
pub mod Counting
pub mod Ownership
pub mod Construction
pub mod Lifetime
pub mod Reuse
use Prim.Native.Nat.{zero, suc}
use fast_net.Base.{
  ℕ, ◌+◌, ◌*◌, Bool, true, false, List, [], ◌∷◌, ◌++◌, Option, none, some, ltb, ◌==◌, if◌then◌else◌,
  length, max,
}

pub record Heap : Type 0 where
  pub next : ℕ
  pub live : List ℕ
  pub size_of : ℕ → ℕ

abbrev pub no_heap : Heap
no_heap = record { next = 0; live = []; size_of = λ a. 0 }

abbrev pub malloc : ℕ → Heap → ℕ × Heap
malloc size h = (
  h.next,
  record {
    next = h.next + 1;
    live = h.next ∷ h.live;
    size_of = λ a. if a == h.next then size else h.size_of a;
  },
)

unfoldable pub remove : ℕ → List ℕ → Option (List ℕ)
remove a [] = none
remove a (b ∷ bs) =
    if a == b then some bs else elim (remove a bs) [ none ↦ none | some cs ↦ some (b ∷ cs) ]

abbrev pub free : ℕ → Heap → Option Heap
free a h = elim (remove a h.live) [ none ↦ none | some bs ↦ some (record h { live = bs }) ]

-- std::vector<char*>; the head of the list is the back of the vector.
pub record Vector : Type 0 where
  pub items : List ℕ
  pub capacity : ℕ

abbrev pub no_items : Vector
no_items = record { items = []; capacity = 0 }

abbrev pub reserve : ℕ → Vector → Vector
reserve n v = record v { capacity = max v.capacity n }

-- A full vector doubles its capacity.
abbrev pub push_back : ℕ → Vector → Vector
push_back b v = record {
  items = b ∷ v.items;
  capacity = if ltb (length v.items) v.capacity then v.capacity else max 1 (2 * v.capacity);
}

-- std::unordered_map<size_t, std::vector<char*>>
abbrev pub Pools : Type 0
Pools = List (ℕ × Vector)

unfoldable pub find : ℕ → Pools → Option Vector
find size [] = none
find size ((n, v) ∷ ps) = if size == n then some v else find size ps

-- `pools[size] = v`, also where the key is new.
unfoldable pub assign : ℕ → Vector → Pools → Pools
assign size w [] = (size, w) ∷ []
assign size w ((n, v) ∷ ps) = if size == n then (n, w) ∷ ps else (n, v) ∷ assign size w ps

-- `pools[size]`, an empty vector where the key is new.
abbrev pub entry : ℕ → Pools → Vector
entry size ps = elim (find size ps) [ none ↦ no_items | some v ↦ v ]

pub record World : Type 0 where
  pub heap : Heap
  pub pools : Pools

-- The inner loop of the constructor: `n` more buffers for one size.
unfoldable pub fill_pool : ℕ → ℕ → Vector → Heap → Vector × Heap
fill_pool zero size v h = (v, h)
fill_pool (suc n) size v h = let (b, h') = malloc size h in fill_pool n size (push_back b v) h'

unfoldable pub fill_pools : List ℕ → ℕ → World → World
unfolding fill_pool
fill_pools [] initial_capacity w = w
fill_pools (size ∷ sizes) initial_capacity w =
    let v = reserve initial_capacity (entry size w.pools) in
    let (v', h') = fill_pool initial_capacity size v w.heap in
    fill_pools sizes initial_capacity (record { heap = h'; pools = assign size v' w.pools })

-- What `allocate` does with the vector that it found, of these items and this capacity.
unfoldable pub take_back : ℕ → World → ℕ → List ℕ → ℕ × World
take_back size w c [] = let (b, h') = malloc size w.heap in (b, record w { heap = h' })
take_back size w c (b ∷ bs) =
    (b, record w { pools = assign size (record { items = bs; capacity = c }) w.pools })

abbrev pub allocate_new : ℕ → World → ℕ × World
allocate_new size w = let (b, h') = malloc size w.heap in (b, record w { heap = h' })

abbrev pub free_buffer : ℕ → World → Option World
free_buffer b w = elim (free b w.heap) [ none ↦ none | some h ↦ some (record w { heap = h }) ]

-- What the destructor does with the buffers of one vector.
unfoldable pub free_all : List ℕ → Heap → Option Heap
free_all [] h = some h
free_all (b ∷ bs) h = elim (free b h) [ none ↦ none | some h' ↦ free_all bs h' ]

unfoldable pub free_pools : Pools → Heap → Option Heap
unfolding free_all
free_pools [] h = some h
free_pools ((n, v) ∷ ps) h = elim (free_all v.items h) [ none ↦ none | some h' ↦ free_pools ps h' ]

module _ (allocate_malloc : Bool) where
  unfoldable pub construct : List ℕ → ℕ → Heap → World
  unfolding fill_pools
  construct buffer_sizes initial_capacity h =
      let w : World = record { heap = h; pools = [] } in
      if allocate_malloc then w else fill_pools buffer_sizes initial_capacity w

  unfoldable pub allocate : ℕ → World → ℕ × World
  unfolding take_back
  allocate size w = if allocate_malloc then allocate_new size w else elim (find size w.pools) [
    | none ↦ allocate_new size w
    | some v ↦ take_back size w v.capacity v.items
  ]

  unfoldable pub deallocate : ℕ → ℕ → World → Option World
  deallocate buffer size w =
      if allocate_malloc then free_buffer buffer w else elim (find size w.pools) [
        | none ↦ free_buffer buffer w
        | some v ↦
            if ltb (length v.items) v.capacity
            then some (record w { pools = assign size (push_back buffer v) w.pools })
            else free_buffer buffer w
      ]

  unfoldable pub destroy : World → Option Heap
  unfolding free_pools
  destroy w = if allocate_malloc then some w.heap else free_pools w.pools w.heap
