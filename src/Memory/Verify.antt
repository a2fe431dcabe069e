-- ===== src/Memory/Verify.antt =====
-- When a page passes the test of a client.
use fast_net.Base.{
  ℕ, ◌+◌, ◌*◌, ◌%◌, ◌≤◌, ◌<◌, ◌≡◌, refl, ◌↔◌, inl, inr, true, List, [], ◌∷◌, arith, leb, leb→le,
  not_leb→lt, length, Bool-cases,
}
use fast_net.Memory.{FillingStrategy, verify, verify_loop, size_t_mod, MemoryBlockVerifier}
use fast_net.Memory.Filling.{values_from}

verify_loop-values_from :
    (s : FillingStrategy) (base i : ℕ) (cs : List ℕ)
    → base + i + length cs ≤ size_t_mod
    → (verify_loop s base i cs ≡ true) ↔ (cs ≡ values_from s (base + i) (length cs))
unfolding verify_loop
verify_loop-values_from s base i [] h = (λ e. refl, λ e. refl)
verify_loop-values_from s base i (c ∷ cs) h =
    let (sound, complete) = verify_loop-values_from s base (i + 1) cs (omega arith) in
    let e : base + (i + 1) ≡ base + i + 1 = omega arith in
    let m : (base + i) % size_t_mod ≡ base + i = omega arith in
    rw (m, ← e) (ground (arith, sound, complete))

pub page_in_block : (p n m : ℕ) → p < n → p * m + m ≤ n * m
page_in_block p n m h = grind arith

-- If the page has the page size and the block's size fits in a size_t, the test accepts exactly
-- the contents of the pages that exist: the number is below the page count, and every byte is the
-- strategy's value at its place in the block.
pub verify_iff :
    (page_size : ℕ) (v : MemoryBlockVerifier) (page : List ℕ) (page_number : ℕ)
    → length page ≡ page_size
    → v.page_count * page_size < size_t_mod
    → (verify page_size v page page_number ≡ true) ↔ (
        (page_number < v.page_count)
        × (page ≡ values_from v.strategy (page_number * page_size) page_size))
unfolding verify
verify_iff page_size v page page_number len fits =
    elim (Bool-cases (leb v.page_count page_number)) [
      | inl outside ↦ rw outside (λ e. cc, λ e. absurd (omega (arith, leb→le _ _ outside, e.0)))
      | inr inside ↦
          let below : page_number < v.page_count = not_leb→lt _ _ inside in
          let room = page_in_block page_number v.page_count page_size below in
          let exact : page_number * page_size % size_t_mod ≡ page_number * page_size =
            omega arith in
          let start : page_number * page_size + 0 ≡ page_number * page_size = omega arith in
          let loop =
            verify_loop-values_from v.strategy (page_number * page_size) 0 page (omega arith) in
          let same = rw (start, len) at loop in
          rw (inside, exact) (λ e. (below, same.0 e), λ e. same.1 e.1)
    ]
