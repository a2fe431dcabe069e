-- ===== src/PageServer/Buffers.antt =====
-- Each request in flight owns its block and its buffer, through the whole event loop.
use fast_net.Base.{
  ℕ, zero, suc, ◌+◌, ◌≤◌, ◌≡◌, refl, ◌∙◌, subst, inl, inr, List, [], ◌∷◌, ◌++◌, Option, none, some,
  arith, length, Option-cases,
}
use fast_net.Server.{Call}
use fast_net.Pool.{Heap, malloc, free}
use fast_net.Pool.Counting.{count, remove-count, count-append}
use fast_net.Simple.{take_out}
use fast_net.PageServer.{
  read, write, CustomRequest, Loop, add_read_request, add_write_request, Outcome, goes_on, returns,
  fault, and_then, free_block, free_base,
}

-- The blocks of a heap are exactly the held ones, each once.
pub record Holds (h : Heap) (held : List ℕ) : Type 0 where
  pub exact : (a : ℕ) → count a h.live ≡ count a held
  pub unique : (a : ℕ) → count a h.live ≤ 1
  pub fresh : (a : ℕ) → h.next ≤ a → count a h.live ≡ 0

abbrev pub base_blocks : Option ℕ → List ℕ
base_blocks none = []
base_blocks (some b) = b ∷ []

-- The blocks that a request owns, and those that all requests in flight own.
abbrev pub blocks_of : CustomRequest → List ℕ
blocks_of r = r.address ∷ base_blocks r.iov_base

abbrev pub owned : List CustomRequest → List ℕ
owned [] = []
owned (r ∷ rs) = blocks_of r ++ owned rs

abbrev pub reads : List CustomRequest → ℕ
reads [] = 0
reads (r ∷ rs) = elim r.event_type [ read ↦ suc (reads rs) | write ↦ reads rs ]

-- Everything that is allocated belongs to a request in flight; `n` of these are reads.
pub record IsLoop (n : ℕ) (s : Loop) : Type 0 where
  pub holds : Holds s.heap (owned s.in_flight)
  pub reads_ok : reads s.in_flight ≡ n

pub Holds-same :
    (h : Heap) (xs ys : List ℕ) → ((a : ℕ) → count a xs ≡ count a ys) → Holds h xs → Holds h ys
Holds-same h xs ys same v = record {
  exact = λ a. v.exact a ∙ same a;
  unique = v.unique;
  fresh = v.fresh;
}

pub malloc-Holds :
    (size : ℕ) (h : Heap) (held : List ℕ)
    → Holds h held
    → Holds (malloc size h).1 ((malloc size h).0 ∷ held)
malloc-Holds size h held v = record {
  exact = λ a. omega (arith, v.exact a);
  unique = λ a. ground (arith, v.unique a, v.fresh a);
  fresh = λ a above. ground (arith, v.fresh a);
}

-- Freeing a held block.
pub free_block-Holds :
    (b : ℕ) (s : Loop) (held : List ℕ)
    → Holds s.heap (b ∷ held)
    → (h : Heap) × (free_block b s ≡ goes_on (record s { heap = h })) × Holds h held
free_block-Holds b s held v =
    let (bs, removed, counted) = remove-count b s.heap.live (ground (arith, v.exact b)) in
    rw (removed, free_block, free)
      (
        _,
        refl,
        record {
          exact = λ a. omega (arith, v.exact a, counted a);
          unique = λ a. omega (arith, v.unique a, counted a);
          fresh = λ a above. omega (arith, v.fresh a above, counted a);
        },
      )

pub free_base-Holds :
    (base : Option ℕ) (s : Loop) (held : List ℕ)
    → Holds s.heap (base_blocks base ++ held)
    → (h : Heap) × (free_base base s ≡ goes_on (record s { heap = h })) × Holds h held
free_base-Holds none s held v = (s.heap, refl, v)
free_base-Holds (some b) s held v = free_block-Holds b s held v

-- A request is off the ring, and not yet dealt with.
pub record Off (n : ℕ) (q : CustomRequest) (s : Loop) : Type 0 where
  pub holds : Holds s.heap (blocks_of q ++ owned s.in_flight)
  pub reads_ok : reads (q ∷ s.in_flight) ≡ n

abbrev pub Pair : Type 0
Pair = CustomRequest × List CustomRequest

pub record Taken (rs : List CustomRequest) (p : Pair) : Type 0 where
  pub counted : (a : ℕ) → count a (owned rs) ≡ count a (blocks_of p.0 ++ owned p.1)
  pub numbered : reads rs ≡ reads (p.0 ∷ p.1)

Taken-later :
    (r q : CustomRequest) (rs qs : List CustomRequest)
    → Taken rs (q, qs)
    → Taken (r ∷ rs) (q, r ∷ qs)
Taken-later r q rs qs t = record {
  counted = λ a. omega (
    arith,
    t.counted a,
    count-append a (blocks_of r) (owned rs),
    count-append a (blocks_of q) (owned qs),
    count-append a (blocks_of r) (owned qs),
    count-append a (blocks_of q) (blocks_of r ++ owned qs),
  );
  numbered = ground (arith, t.numbered);
}

pub take_out-Taken :
    (i : ℕ) (rs : List CustomRequest) (p : Pair) → take_out i rs ≡ some p → Taken rs p
unfolding take_out
take_out-Taken i [] p e = cc
take_out-Taken zero (r ∷ rs) p e =
    let same : (r, rs) ≡ p = cc in
    subst (Taken (r ∷ rs)) same (record { counted = λ a. refl; numbered = refl })
take_out-Taken (suc i) (r ∷ rs) p e = elim (Option-cases (take_out i rs)) [
  | inl gone ↦ cc (rw (gone, take_out) at e)
  | inr ((q, qs), found) ↦
      let same : (q, r ∷ qs) ≡ p = some_eq (rw (found, take_out) at e) in
      subst (Taken (r ∷ rs)) same (Taken-later r q rs qs (take_out-Taken i rs (q, qs) found))
]
  where
    some_eq : {x y : Pair} → some x ≡ some y → x ≡ y
    some_eq e = cc

-- What an outcome must satisfy: no fault, and where the loop goes on, it does so in order; where it
-- returns, what requests in flight own, and perhaps one more owns, is still allocated.
abbrev pub IsSafe : ℕ → Outcome → Type 0
IsSafe n (goes_on s) = IsLoop n s
IsSafe n (returns s) =
    (lost : List ℕ) × Holds s.heap (lost ++ owned s.in_flight)
    × (n ≤ length lost + reads s.in_flight)
IsSafe n fault = ⊥

-- What `serve` does behind the answer leaves all in order, with one more write.
pub served :
    (n : ℕ) (call : Call) (q : CustomRequest) (s : Loop)
    → Off n q s
    → q.event_type ≡ read
    → (u : Loop) × (and_then
          (free_base q.iov_base (add_write_request call s))
          (λ t. free_block q.address (add_read_request t))
        ≡ goes_on u)
      × IsLoop n u
      × (u.writes ≡ call ∷ s.writes)
unfolding add_write_request add_read_request
served n call q s off kind =
    let rest = owned s.in_flight in
    let written = add_write_request call s in
    let w = s.heap.next in
    let (h, freed, holds) = free_base-Holds q.iov_base written (q.address ∷ w ∷ rest) (
      Holds-same written.heap (w ∷ (blocks_of q ++ rest))
        (base_blocks q.iov_base ++ (q.address ∷ w ∷ rest))
        (λ a. omega (
          arith,
          count-append a (base_blocks q.iov_base) rest,
          count-append a (base_blocks q.iov_base) (q.address ∷ w ∷ rest),
        ))
        (malloc-Holds 24 s.heap (blocks_of q ++ rest) off.holds)) in
    let t : Loop = record written { heap = h } in
    let asked = add_read_request t in
    let (h', deleted, holds') =
      free_block-Holds q.address asked ((h.next + 1) ∷ h.next ∷ w ∷ rest) (
        Holds-same asked.heap ((h.next + 1) ∷ h.next ∷ q.address ∷ w ∷ rest)
          (q.address ∷ (h.next + 1) ∷ h.next ∷ w ∷ rest) (λ a. omega arith)
          (malloc-Holds 8 (malloc 24 h).1 (h.next ∷ q.address ∷ w ∷ rest)
            (malloc-Holds 24 h (q.address ∷ w ∷ rest) holds))) in
    rw (freed, and_then)
      (
        _,
        deleted,
        record {
          holds =
              Holds-same h' ((h.next + 1) ∷ h.next ∷ w ∷ rest) (h.next ∷ (h.next + 1) ∷ w ∷ rest)
                (λ a. omega arith) holds';
          reads_ok = ground (arith, off.reads_ok);
        },
        refl,
      )
