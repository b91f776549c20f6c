-- ===== src/Tests/Stores.antt =====
-- Examples of the store: two appends to an empty one.
use glade.Prelude.{◌≡◌, ◌≢◌, refl, sym, subst, [], ◌++◌, arith, InI64}
use glade.Prelude.BTreeMap.{get}
use glade.Prelude.Order.{bytes_ord, pair_ord}
use glade.Directory
use glade.Wire.{ChainId}
use glade.External.{}
use glade.Store.Types.{Store, healthy}
use glade.Store.Classify.{held_of}
use glade.Store.Append.{append}
use glade.Store.Effects
use glade.Store.Effects.{added}
use glade.Store.Invariant
use glade.Store.Valid.{IsLog, IsValid, empty-IsLog}
use glade.Store.Surfaces
use glade.Store.Surfaces.{IsContracted, AllAgree}
use glade.Tests.{toy, op_0, op_1, no_ops}

nothing_held : (c : ChainId) → held_of no_ops.logs c ≡ []
unfolding held_of get
nothing_held c = refl

pub no_ops-IsValid : IsValid toy no_ops
no_ops-IsValid = record {
  logs = λ c. subst (IsLog toy c) (sym (nothing_held c)) (empty-IsLog toy c);
  register = tt;
  sorted = tt;
}

no_ops-IsContracted : IsContracted no_ops
unfolding AllAgree
no_ops-IsContracted = record {
  keyed = λ c. rw (nothing_held c) tt;
  agree = λ b c e. rw (nothing_held b) tt;
}

-- The store after the first op.
abbrev pub one_op : Store
one_op = (append toy healthy op_0 no_ops).1

-- And after both.
abbrev pub two_ops : Store
two_ops = (append toy healthy op_1 one_op).1

pub op_0-in_range : InI64 op_0.seq
op_0-in_range = record { above = omega arith; below = omega arith }

pub op_1-in_range : InI64 op_1.seq
op_1-in_range = record { above = omega arith; below = omega arith }

pub one_op-IsValid : IsValid toy one_op
one_op-IsValid = Invariant.append-IsValid toy healthy op_0 no_ops op_0-in_range no_ops-IsValid

append-IsValid_example : IsValid toy two_ops
append-IsValid_example =
    Invariant.append-IsValid toy healthy op_1 one_op op_1-in_range one_op-IsValid

application : op_1.share ≡ Directory.home → op_1.glade_id ≢ Directory.g_checkpoints
application e g = cc

first_application : op_0.share ≡ Directory.home → op_0.glade_id ≢ Directory.g_checkpoints
first_application e g = cc

append-IsContracted_example : IsContracted two_ops
append-IsContracted_example =
    Surfaces.append-IsContracted toy healthy op_1 one_op application
      (Surfaces.append-IsContracted toy healthy op_0 no_ops first_application no_ops-IsContracted)

append-Adds_example :
    (two_ops.register ≡ one_op.register)
    × ((c : ChainId)
        → held_of two_ops.logs c
          ≡ held_of one_op.logs c ++ added op_1 (append toy healthy op_1 one_op).0 c)
append-Adds_example = Effects.append-Adds toy healthy op_1 one_op application
