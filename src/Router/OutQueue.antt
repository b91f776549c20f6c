-- ===== src/Router/OutQueue.antt =====
-- A session's outbound queue (node/src/router.rs): a high lane in front of a bulk lane.
use glade.Prelude.{
  ◌≡◌, refl, Bool, true, false, Option, none, some, List, [], ◌∷◌, ◌++◌, map, subst, sym, ap, ◌∙◌,
  arith, inl, inr, Option-cases, Bytes, if◌then◌else◌,
}
use glade.Wire.{Priority}

pub record OutQueue : Type 0 where
  pub hi : List Bytes
  pub lo : List Bytes

abbrev pub empty : OutQueue
empty = record { hi = []; lo = [] }

unfoldable pub push : Priority → Bytes → OutQueue → OutQueue
push Priority.bulk frame q = record { hi = q.hi; lo = q.lo ++ frame ∷ [] }
push _ frame q = record { hi = q.hi ++ frame ∷ []; lo = q.lo }

-- The next frame to send, and the queue without it.
unfoldable pub pop : OutQueue → Option Bytes × OutQueue
pop q = elim q.hi [
  | frame ∷ hi ↦ (some frame, record { hi = hi; lo = q.lo })
  | [] ↦ elim q.lo [ frame ∷ lo ↦ (some frame, record { hi = []; lo = lo }) | [] ↦ (none, q) ]
]

unfoldable pub is_empty : OutQueue → Bool
is_empty q = elim q.hi [ frame ∷ hi ↦ false | [] ↦ elim q.lo [ frame ∷ lo ↦ false | [] ↦ true ] ]

-- What callers ask of a queue, in the order that they ask it.
pub data Action : Type 0 where
  pushed : Priority → Bytes → Action
  popped : Action

-- The frames that the pops answer.
unfoldable pub run : List Action → OutQueue → List (Option Bytes)
run [] q = []
run (Action.pushed pri frame ∷ actions) q = run actions (push pri frame q)
run (Action.popped ∷ actions) q = (pop q).0 ∷ run actions (pop q).1

-- The abstract queue: every frame not yet sent, with its priority, in the order of arrival.
abbrev pub Pending : Type 0
Pending = List (Priority × Bytes)

abbrev pub is_urgent : Priority → Bool
is_urgent Priority.bulk = false
is_urgent _ = true

-- The first frame that is not bulk, and what waits without it.
unfoldable pub first_urgent : Pending → Option (Bytes × Pending)
first_urgent [] = none
first_urgent ((pri, frame) ∷ waiting) =
    let rest = first_urgent waiting in
    if is_urgent pri
    then some (frame, waiting)
    else (elim rest [ none ↦ none | some (f, others) ↦ some (f, (pri, frame) ∷ others) ])

unfoldable pub next : Pending → Option Bytes × Pending
next waiting = elim (first_urgent waiting) [
  | some (frame, rest) ↦ (some frame, rest)
  | none ↦ elim waiting [ [] ↦ (none, []) | (pri, frame) ∷ rest ↦ (some frame, rest) ]
]

unfoldable pub run_pending : List Action → Pending → List (Option Bytes)
run_pending [] waiting = []
run_pending (Action.pushed pri frame ∷ actions) waiting =
    run_pending actions (waiting ++ (pri, frame) ∷ [])
run_pending (Action.popped ∷ actions) waiting =
    (next waiting).0 ∷ run_pending actions (next waiting).1

-- The frames of one lane, in the order of arrival.
unfoldable lane : Bool → Pending → List Bytes
lane urgent [] = []
lane true ((Priority.bulk, frame) ∷ waiting) = lane true waiting
lane false ((Priority.bulk, frame) ∷ waiting) = frame ∷ lane false waiting
lane true ((_, frame) ∷ waiting) = frame ∷ lane true waiting
lane false ((_, frame) ∷ waiting) = lane false waiting

abbrev lanes : Pending → OutQueue
lanes waiting = record { hi = lane true waiting; lo = lane false waiting }

lanes-arrival :
    (pri : Priority) (frame : Bytes) (waiting : Pending)
    → lanes (waiting ++ (pri, frame) ∷ []) ≡ push pri frame (lanes waiting)
unfolding lane push
lanes-arrival pri frame [] = ground arith
lanes-arrival pri frame ((p, f) ∷ waiting) = ground (arith, lanes-arrival pri frame waiting)

-- What the first urgent frame leaves of the lanes.
abbrev Leaves : Pending → Option (Bytes × Pending) → Type 0
Leaves waiting none = (lane true waiting ≡ []) × (lane false waiting ≡ map (λ x. x.1) waiting)
Leaves waiting (some (frame, rest)) =
    (lane true waiting ≡ frame ∷ lane true rest) × (lane false waiting ≡ lane false rest)

first_urgent-lanes : (waiting : Pending) → Leaves waiting (first_urgent waiting)
unfolding lane first_urgent
first_urgent-lanes [] = ground arith
first_urgent-lanes ((p, f) ∷ waiting) = ground (arith, first_urgent-lanes waiting)

no_urgent : (waiting : Pending) → first_urgent waiting ≡ none → lane true waiting ≡ []
no_urgent waiting e = (subst (Leaves waiting) e (first_urgent-lanes waiting)).0

empty-lanes : lanes [] ≡ empty
unfolding lane
empty-lanes = refl

no_urgent_tail :
    (x : Priority × Bytes) (waiting : Pending)
    → first_urgent (x ∷ waiting) ≡ none
    → (lanes (x ∷ waiting) ≡ record { hi = []; lo = x.1 ∷ lane false waiting })
      × (lane true waiting ≡ [])
unfolding lane first_urgent
no_urgent_tail (Priority.bulk, frame) waiting e = ground (arith, no_urgent waiting)
no_urgent_tail (Priority.control, frame) waiting e = cc
no_urgent_tail (Priority.interactive, frame) waiting e = cc

pop-lanes-none :
    (waiting : Pending)
    → first_urgent waiting ≡ none
    → pop (lanes waiting) ≡ ((next waiting).0, lanes (next waiting).1)
unfolding next pop
pop-lanes-none [] e = ground (arith, empty-lanes)
pop-lanes-none (x ∷ rest) e = let (l, t) = no_urgent_tail x rest e in ground (arith, l, t)

-- A pop of the lanes answers what the abstract queue does, and leaves its lanes.
pop-lanes : (waiting : Pending) → pop (lanes waiting) ≡ ((next waiting).0, lanes (next waiting).1)
unfolding next pop
pop-lanes waiting = elim (Option-cases (first_urgent waiting)) [
  | inl e ↦ pop-lanes-none waiting e
  | inr ((frame, rest), e) ↦ ground (arith, subst (Leaves waiting) e (first_urgent-lanes waiting))
]

run-lanes :
    (actions : List Action) (waiting : Pending)
    → run actions (lanes waiting) ≡ run_pending actions waiting
unfolding run run_pending
run-lanes [] waiting = refl
run-lanes (Action.pushed pri frame ∷ actions) waiting =
    ap (run actions) (sym (lanes-arrival pri frame waiting))
    ∙ run-lanes actions (waiting ++ (pri, frame) ∷ [])
run-lanes (Action.popped ∷ actions) waiting =
    ground (arith, pop-lanes waiting, run-lanes actions (next waiting).1)

-- Whatever order the pushes and the pops come in, the queue sends what one list in the order of
-- arrival would, from which a pop takes the first frame that is not bulk, or else the first.
pub run-run_pending : (actions : List Action) → run actions empty ≡ run_pending actions []
run-run_pending actions = ap (run actions) (sym empty-lanes) ∙ run-lanes actions []
