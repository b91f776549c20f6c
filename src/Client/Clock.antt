-- ===== src/Client/Clock.antt =====
-- The session's clock and chains (client-rs/src/session.rs): what every step of a session keeps.
use glade.Prelude.{
  ℤ, ◌≡◌, sym, ap, subst, inl, inr, Bool, true, false, some, List, [], ◌∷◌, ◌++◌, Text, Bytes,
  arith, bytes_eq, bytes_discrete, int_eq, ◌≤ℤ◌, ◌<ℤ◌, suc_ℤ, suc_ℤ_parts, suc_i64, i64_max, last?,
  last?-eq-none, All, All-append, Result-cases, Option-cases, Bool-cases,
}
use glade.Prelude.BTreeMap.{get, insert, get-insert_self, get-insert_ne}
use glade.Prelude.Order.{bytes_ord}
use glade.External.{External}
use glade.Wire.{Op, Shape, Zone, op_eq}
use glade.Client.{
  Session, Logs, key_of_op, chain_key, log_of, accepts, store_append, require_op, next_op, append,
  before, refused, resumed, require_all, take_remote, take_all, apply_remote,
}
use glade.Client.Refusal.{before-split, refused-cases}

-- What a session is asked to do.
pub data Step : Type 0 where
  appended : Zone → Shape → Bytes → Step
  received : List Op → Step
  refusal : Op → Step
  resumption : Zone → Step

unfoldable pub step : External → Step → Session → Session
step x (Step.appended z shape payload) s = (append x z shape payload s).1
step x (Step.received ops) s = (apply_remote ops s).1
step x (Step.refusal op) s = refused op s
step x (Step.resumption z) s = resumed z s

-- Each op is at the seq after the one before it.
abbrev pub IsRun : List Op → Type 0
IsRun [] = Unit
IsRun (a ∷ []) = Unit
IsRun (a ∷ b ∷ ops) = (b.seq ≡ suc_i64 a.seq) × IsRun (b ∷ ops)

-- A log is a run of ops that the clock has passed.
abbrev pub IsLogAt : ℤ → List Op → Type 0
IsLogAt clock log = IsRun log × All (λ o. o.lamport ≤ℤ clock) log

abbrev pub IsClocked : Session → Type 0
IsClocked s = (k : Text) → IsLogAt s.lamport (log_of s.logs k)

IsRun-snoc :
    (log : List Op) (last op : Op)
    → IsRun log
    → last? log ≡ some last
    → op.seq ≡ suc_i64 last.seq
    → IsRun (log ++ op ∷ [])
IsRun-snoc [] last op r e h = tt
IsRun-snoc (a ∷ []) last op r e h = (ground arith, tt)
IsRun-snoc (a ∷ b ∷ log) last op r e h = (r.0, IsRun-snoc (b ∷ log) last op r.1 e h)

accepts-IsRun :
    (log : List Op) (op : Op) → IsRun log → accepts log op ≡ true → IsRun (log ++ op ∷ [])
unfolding accepts
accepts-IsRun [] op r h = tt
accepts-IsRun (a ∷ log) op r h = elim (Option-cases (last? (a ∷ log))) [
  | inl e ↦ ground (arith, last?-eq-none (a ∷ log))
  | inr (last, e) ↦ IsRun-snoc (a ∷ log) last op r e (ground (arith, e))
]

raise :
    (a b : ℤ) (log : List Op)
    → a ≤ℤ b
    → All (λ o. o.lamport ≤ℤ a) log
    → All (λ o. o.lamport ≤ℤ b) log
raise a b [] h l = tt
raise a b (o ∷ log) h l = (omega (arith, l.0), raise a b log h l.1)

log_of-insert :
    (P : List Op → Type 0) (logs : Logs) (k : Text) (log : List Op)
    → P log
    → ((j : Text) → P (log_of logs j))
    → (j : Text) → P (log_of (insert k log logs) j)
unfolding log_of
log_of-insert P logs k log p h j = elim (bytes_discrete k j) [
  | yes e ↦ subst P (sym (ground (arith, get-insert_self k log logs))) p
  | no n ↦ subst P (sym (ground (arith, get-insert_ne k j log logs n))) (h j)
]

store_append-true :
    (op : Op) (logs : Logs)
    → accepts (log_of logs (key_of_op op)) op ≡ true
    → store_append op logs
      ≡ (true, insert (key_of_op op) (log_of logs (key_of_op op) ++ op ∷ []) logs)
unfolding store_append
store_append-true op logs e = ground (arith, e)

store_append-false :
    (op : Op) (logs : Logs)
    → accepts (log_of logs (key_of_op op)) op ≡ false
    → store_append op logs ≡ (false, logs)
unfolding store_append
store_append-false op logs e = ground (arith, e)

store_append-IsLogAt :
    (op : Op) (logs : Logs) (a b : ℤ)
    → a ≤ℤ b
    → ((store_append op logs).0 ≡ true → op.lamport ≤ℤ b)
    → ((k : Text) → IsLogAt a (log_of logs k))
    → (k : Text) → IsLogAt b (log_of (store_append op logs).1 k)
store_append-IsLogAt op logs a b h l v =
    elim (Bool-cases (accepts (log_of logs (key_of_op op)) op)) [
      | inl e ↦
          let taken = store_append-true op logs e in
          let held = v (key_of_op op) in
          subst (λ (r : Bool × Logs). (k : Text) → IsLogAt b (log_of r.1 k)) (sym taken)
            (log_of-insert (IsLogAt b) logs (key_of_op op) _
              (
                accepts-IsRun _ op held.0 e,
                All-append _ _ _ (raise a b _ h held.1)
                    (l (ap (λ (r : Bool × Logs). r.0) taken), tt),
              )
              older)
      | inr e ↦
          subst (λ (r : Bool × Logs). (k : Text) → IsLogAt b (log_of r.1 k))
            (sym (store_append-false op logs e)) older
    ]
  where
    older : (k : Text) → IsLogAt b (log_of logs k)
    older k = ((v k).0, raise a b _ h (v k).1)

take_remote-IsClocked : (op : Op) (s : Session) → IsClocked s → IsClocked (take_remote op s)
unfolding take_remote
take_remote-IsClocked op s v =
    store_append-IsLogAt op s.logs s.lamport (take_remote op s).lamport (ground arith)
      (λ e. ground arith) v

take_all-IsClocked : (ops : List Op) (s : Session) → IsClocked s → IsClocked (take_all ops s)
unfolding take_all
take_all-IsClocked [] s v = v
take_all-IsClocked (op ∷ ops) s v =
    take_all-IsClocked ops (take_remote op s) (take_remote-IsClocked op s v)

apply_remote-IsClocked :
    (ops : List Op) (s : Session) → IsClocked s → IsClocked (apply_remote ops s).1
unfolding apply_remote
apply_remote-IsClocked ops s v = elim (Result-cases (require_all ops)) [
  | inl (u, e) ↦ rw (apply_remote, e) (take_all-IsClocked ops s v)
  | inr (why, e) ↦ rw (apply_remote, e) v
]

prefix-IsRun : (xs ys : List Op) → IsRun (xs ++ ys) → IsRun xs
prefix-IsRun [] ys r = tt
prefix-IsRun (a ∷ []) ys r = tt
prefix-IsRun (a ∷ b ∷ xs) ys r = (r.0, prefix-IsRun (b ∷ xs) ys r.1)

prefix-All : (P : Op → Type 0) (xs ys : List Op) → All P (xs ++ ys) → All P xs
prefix-All P [] ys h = tt
prefix-All P (a ∷ xs) ys h = (h.0, prefix-All P xs ys h.1)

before-IsLogAt :
    (clock : ℤ) (op : Op) (log kept : List Op)
    → before op log ≡ some kept
    → IsLogAt clock log
    → IsLogAt clock kept
before-IsLogAt clock op log kept e v =
    let (rest, q) = before-split op log kept e in
    let w : IsLogAt clock (kept ++ op ∷ rest) = subst (IsLogAt clock) q v in
    (prefix-IsRun kept (op ∷ rest) w.0, prefix-All _ kept (op ∷ rest) w.1)

log_of-get : (logs : Logs) (k : Text) (log : List Op) → get k logs ≡ some log → log_of logs k ≡ log
unfolding log_of
log_of-get logs k log e = ground (arith, e)

refused-IsClocked : (op : Op) (s : Session) → IsClocked s → IsClocked (refused op s)
refused-IsClocked op s v = elim (refused-cases op s) [
  | inl e ↦ subst (λ t. IsClocked t) (sym e) v
  | inr (log, kept, o, e, b, q) ↦
      subst (λ t. IsClocked t) (sym q)
        (log_of-insert (IsLogAt s.lamport) s.logs (key_of_op op) kept
          (before-IsLogAt s.lamport op log kept b
            (subst (IsLogAt s.lamport) (log_of-get s.logs (key_of_op op) log e) (v (key_of_op op))))
          v)
]

pub suc_i64-parts : (a : ℤ) → a <ℤ i64_max → suc_i64 a ≡ suc_ℤ a
unfolding suc_i64
suc_i64-parts a h = ground arith

grown_lem :
    (x : External) (z : Zone) (shape : Shape) (payload : Bytes) (s : Session)
    → s.lamport <ℤ i64_max
    → IsClocked s
    → (k : Text)
    → IsLogAt (suc_i64 s.lamport) (log_of (store_append (next_op x s z shape payload) s.logs).1 k)
unfolding next_op
grown_lem x z shape payload s h v =
    store_append-IsLogAt (next_op x s z shape payload) s.logs s.lamport (suc_i64 s.lamport)
      (ground (arith, suc_i64-parts s.lamport h, suc_ℤ_parts s.lamport)) (λ e. omega arith) v

append-IsClocked :
    (x : External) (z : Zone) (shape : Shape) (payload : Bytes) (s : Session)
    → s.lamport <ℤ i64_max
    → IsClocked s
    → IsClocked (append x z shape payload s).1
unfolding append
append-IsClocked x z shape payload s h v = elim (Result-cases (require_op shape payload)) [
  | inr (why, e) ↦ rw (append, e) v
  | inl (sh, e) ↦ elim (Option-cases (get (chain_key z s.origin) s.unresumed)) [
    | inr (seq, q) ↦ rw (append, e, q) v
    | inl q ↦ rw (append, e, q) (grown_lem x z shape payload s h v)
  ]
]

-- Every step of a session, an append with the clock below the greatest i64, a batch received, a
-- refusal or a resumption, keeps each chain a run of ops at successive seqs whose clocks the
-- session's has reached.
pub step-IsClocked :
    (x : External) (a : Step) (s : Session)
    → s.lamport <ℤ i64_max
    → IsClocked s
    → IsClocked (step x a s)
unfolding step resumed
step-IsClocked x (Step.appended z shape payload) s h v = append-IsClocked x z shape payload s h v
step-IsClocked x (Step.received ops) s h v = apply_remote-IsClocked ops s v
step-IsClocked x (Step.refusal op) s h v = refused-IsClocked op s v
step-IsClocked x (Step.resumption z) s h v = v
