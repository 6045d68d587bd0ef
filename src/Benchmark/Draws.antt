-- ===== src/Benchmark/Draws.antt =====
-- Benchmark.cpp: what a round draws. `main` passes 10000 elements and the update ratio 5000.
use smr_implementations.Prelude.{arith, lt→ltb, refl, some, ℕ, ◌%◌, ◌*◌, ◌+◌, ◌<◌, ◌^◌, ◌≡◌}
use smr_implementations.Machine.{ret, ◌>>=◌}
use smr_implementations.Benchmark.{
  Container, Draw, SearchList, draw, list_round, queue_round, remove_back, seed, stack_round,
  take_back,
}

-- That `seed` fits an `int`, and that there is an element to draw.
abbrev pub Fits : (total_elements drawn : ℕ) → Type 0
Fits total_elements drawn = (0 < total_elements) × (drawn * total_elements + 1 < 2 ^ 31)

-- Where a draw is defined, its product fits.
pub draw-Fits :
    (total_elements drawn : ℕ) {d : Draw}
    → draw total_elements drawn ≡ some d
    → Fits total_elements drawn
unfolding draw seed
draw-Fits n drawn e = ground arith

draw-main : (drawn : ℕ) → drawn * 10000 + 1 < 2 ^ 31 → draw 10000 drawn ≡ some (1, 1)
unfolding draw seed
draw-main drawn h =
    let one : (drawn * 10000 + 1) % 10000 ≡ 1 = omega arith in
    rw (lt→ltb _ _ h, seed, draw) (rw one)

-- With what `main` passes, and as long as the draw is below 214749: each round of `benchmarkStacks` in
-- hazardpointer and intervalbasedrec inserts element 1, whatever it draws; each round of
-- `benchmarkQueues`, and of `benchmarkStacks` in hazarderas and urcu, takes an element, and inserts
-- element 1 where it got one; each round of `benchmarkLinkedList` removes element 1, and adds it again
-- where it was removed.
pub rounds-main :
    (c : Container) (l : SearchList) (element : ℕ → ℕ) (thread drawn : ℕ)
    → drawn < 214749
    → (queue_round c 5000 10000 element thread drawn ≡ take_back c (element 1) thread)
      × (stack_round c 5000 10000 element thread drawn
          ≡ (c.insert (element 1) thread >>= λ _. ret 1))
      × (list_round l 5000 10000 element thread drawn ≡ remove_back l (element 1) thread)
unfolding queue_round stack_round list_round
rounds-main c l element thread drawn h =
    let e = draw-main drawn (omega arith) in (rw e refl, rw e refl, rw e refl)
