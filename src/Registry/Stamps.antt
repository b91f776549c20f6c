-- ===== src/Registry/Stamps.antt =====
-- The order of the stamps (`Stamp` of node/src/registry.rs), among the records of one origin.
use glade.Prelude.{
  ◌≡◌, ap, ◌∙◌, true, false, arith, bytes_eq, int_eq, DecEq, ℕ_discrete, maybe_bytes_eq,
}
use glade.Prelude.Order.{bytes_ord, pair_ord, lt_bytes, lt_bytes_irrefl}
use glade.Registry.Bindings.{Stamp, Newest, stamp_lt}

unfoldable pub newest_discrete : Discrete Newest
newest_discrete = hlevel ℕ_discrete

instance abbrev pub newest_eq : DecEq Newest
newest_eq = record { dec = newest_discrete }

pub stamp_lt_self : (a : Stamp) → stamp_lt a a ≡ false
unfolding stamp_lt
stamp_lt_self a = ground (arith, lt_bytes_irrefl a.origin)

pub stamp_lt_chain :
    (a b c : Stamp)
    → a.origin ≡ b.origin
    → b.origin ≡ c.origin
    → stamp_lt a b ≡ false
    → stamp_lt b c ≡ false
    → stamp_lt a c ≡ false
unfolding stamp_lt
stamp_lt_chain a b c e f h k =
    ground (arith, lt_bytes_irrefl c.origin, ap (λ t. lt_bytes t c.origin) (e ∙ f))

pub stamp_lt_flip : (a b : Stamp) → a.origin ≡ b.origin → stamp_lt a b ≡ true → stamp_lt b a ≡ false
unfolding stamp_lt
stamp_lt_flip a b e h = ground (arith, lt_bytes_irrefl b.origin, ap (λ t. lt_bytes b.origin t) e)
