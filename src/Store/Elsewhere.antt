-- ===== src/Store/Elsewhere.antt =====
-- A placed checkpoint, and a home op, touch the home share alone (node/src/store.rs).
use glade.Prelude.{
  ℕ, ℤ, ◌≡◌, ◌≢◌, refl, sym, ap, ◌∙◌, none, some, Bool, true, false, List, [], ◌∷◌, arith, Text,
  bytes_eq, keep,
}
use glade.Prelude.BTreeMap.{get-insert_ne}
use glade.Prelude.Order.{bytes_ord, pair_ord, dec_pair}
use glade.External.{External}
use glade.Directory
use glade.Wire.{Op, ChainId, chain_of}
use glade.Store.Types.{Store}
use glade.Store.Classify.{held_of}
use glade.Store.Held.{held_of-insert_ne}
use glade.Store.Append.{place, rewrite_journal, journal_of, journal_key}
use glade.Store.Open.{on_chain}

abbrev pub Key : Type 0
Key = Text × Text

unfoldable pub in_journal : Key → Op → Bool
in_journal k op = elim (dec_pair (journal_key op) k) [ yes _ ↦ true | no _ ↦ false ]

pub chain_of-home :
    (op : Op) (c : ChainId) → op.share ≡ Directory.home → c.0.0 ≢ Directory.home → chain_of op ≢ c
unfolding chain_of
chain_of-home op c h n e = n (sym (ap (λ (c : ChainId). c.0.0) e) ∙ h)

pub keep-home :
    (op : Op) (c : ChainId)
    → op.share ≡ Directory.home
    → c.0.0 ≢ Directory.home
    → keep (on_chain c) (op ∷ []) ≡ []
unfolding on_chain
keep-home op c h n = ground (arith, chain_of-home op c h n)

pub keep-home_journal :
    (op : Op) (k : Key)
    → op.share ≡ Directory.home
    → k.0 ≢ Directory.home
    → keep (in_journal k) (op ∷ []) ≡ []
unfolding in_journal
keep-home_journal op k h n =
    ground (arith, λ (e : journal_key op ≡ k). n (sym (ap (λ (k : Key). k.0) e) ∙ h))

-- A placed checkpoint touches the home share alone.
pub place-elsewhere :
    (op : Op) (folded : ChainId) (floor : ℤ × List ℕ) (s : Store) (c : ChainId)
    → op.share ≡ Directory.home
    → folded.0.0 ≡ Directory.home
    → c.0.0 ≢ Directory.home
    → held_of (place op folded floor s).logs c ≡ held_of s.logs c
unfolding place
place-elsewhere op folded floor s c h f n =
    held_of-insert_ne _ (chain_of op) c _ (chain_of-home op c h n)
    ∙ held_of-insert_ne s.logs folded c _ (λ e. n (sym (ap (λ (c : ChainId). c.0.0) e) ∙ f))

pub journal_of-place :
    (op : Op) (folded : ChainId) (floor : ℤ × List ℕ) (s : Store) (k : Key)
    → journal_of (place op folded floor s).journals k ≡ journal_of s.journals k
unfolding place
journal_of-place op folded floor s k = refl

pub journal_of-rewrite :
    (x : External) (origin : Text) (s : Store) (k : Key)
    → k.0 ≢ Directory.home
    → journal_of (rewrite_journal x origin s).journals k ≡ journal_of s.journals k
unfolding rewrite_journal journal_of
journal_of-rewrite x origin s k n =
    ap (λ o. elim o [ none ↦ [] | some ops ↦ ops ])
      (get-insert_ne (Directory.home, origin) k _ s.journals
        (λ e. n (sym (ap (λ (k : Key). k.0) e))))

pub logs-rewrite :
    (x : External) (origin : Text) (s : Store) (c : ChainId)
    → held_of (rewrite_journal x origin s).logs c ≡ held_of s.logs c
unfolding rewrite_journal
logs-rewrite x origin s c = refl
