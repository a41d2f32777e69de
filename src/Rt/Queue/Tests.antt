-- ===== src/Rt/Queue/Tests.antt =====
-- A queue to which elements are added, and from which they are taken.
use verona.Prelude.{◌≡◌, refl, List, [], ◌∷◌, some, arith}
use verona.Rt.Queue.Defs.{Queue, enqueue, dequeue, length_of}
use verona.Rt.Queue.Refine.{
  Op, adds, takes, run, run_elements, run-run_elements, length_of-length, Holds,
}

abbrev two : Queue
two = record { first = 8; last = 16; next = λ n. 16 }

abbrev calls : List Op
calls = adds 24 ∷ takes ∷ takes ∷ adds 8 ∷ takes ∷ takes ∷ []

calls_run : run calls two ≡ some (8 ∷ 16 ∷ 24 ∷ 8 ∷ [])
unfolding run enqueue dequeue
calls_run = refl

two-Holds : Holds two (8 ∷ 16 ∷ [])
two-Holds = (refl, (refl, refl), omega arith, omega arith)

run-run_elements_example : run calls two ≡ run_elements calls (8 ∷ 16 ∷ [])
run-run_elements_example = run-run_elements calls two (8 ∷ 16 ∷ []) (omega arith) two-Holds

length_two : length_of 3 two ≡ some 2
length_two = length_of-length 3 two (8 ∷ 16 ∷ []) two-Holds (omega arith)
