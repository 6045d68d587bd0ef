-- ===== src/Urcu/Manager.antt =====
-- urcu/URCU.hpp: the class `URCU`. `max_threads` is an argument `n` of the methods that read it.
use smr_implementations.Prelude.{if◌then◌else◌, incr, leb, suc, zero, ℕ, ◌-◌, ◌==◌, ◌^◌}
use smr_implementations.Machine.{
  Prog, ask, cas, clock, delete_reservations, for_loop, load, new_reservations, reservation, ret,
  retry, run, store, ◌>>=◌, ◌>>◌,
}

-- NOT_READING and UNASSIGNED.
abbrev pub not_reading : ℕ
not_reading = 2 ^ 64 - 2

abbrev pub unassigned : ℕ
unassigned = 2 ^ 64 - 3

-- The initial `updaterVersion{0}`, and the constructor.
unfoldable pub construct : (n : ℕ) → Prog (Unit {0})
construct n = do
  run (store clock 0)
  run (new_reservations n)
  for_loop n 0 λ i. run (store (reservation i) unassigned)

-- The destructor.
unfoldable pub destruct : Prog (Unit {0})
destruct = run delete_reservations

unfoldable pub read_lock : (thread : ℕ) → Prog (Unit {0})
read_lock thread = do
  rv ← ask (load clock)
  run (store (reservation thread) rv)
  nrv ← ask (load clock)
  if rv == nrv then ret tt else run (store (reservation thread) nrv)

unfoldable pub read_unlock : (thread : ℕ) → Prog (Unit {0})
read_unlock thread = run (store (reservation thread) not_reading)

-- `while (readersVersion[i].load() <= waitForVersion) { }`.
unfoldable pub wait_reader : (fuel version i : ℕ) → Prog (Unit {0})
wait_reader zero version i = retry
wait_reader (suc fuel) version i = do
  v ← ask (load (reservation i))
  if leb v version then wait_reader fuel version i else ret tt

unfoldable pub synchronize_rcu : (fuel n : ℕ) → Prog (Unit {0})
synchronize_rcu fuel n = do
  version ← ask (load clock)
  ask (cas clock version (incr version)) >>= λ _. for_loop n 0 (wait_reader fuel version)
