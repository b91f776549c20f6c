-- ===== src/Sync/Order.antt =====
-- The order that a serve walks its zones in (node/src/session.rs).
use glade.Prelude.{
  ◌≡◌, refl, sym, ap, ◌∙◌, Bool, true, false, not, List, [], ◌∷◌, ◌++◌, arith, keep, All,
  All-append, Bool-cases, inl, inr,
}
use mathlib.Core.List.{append-nil, append_assoc}
use glade.Wire.{Zone}
use glade.Sync.{serves_checkpoints, insert_zone, sort_zones, serve_order}

abbrev pub is_rest : Zone → Bool
is_rest z = not (serves_checkpoints z)

insert_zone-first :
    (z : Zone) (firsts rest : List Zone)
    → All (λ y. serves_checkpoints y ≡ true) firsts
    → All (λ y. serves_checkpoints y ≡ false) rest
    → serves_checkpoints z ≡ true
    → insert_zone z (firsts ++ rest) ≡ firsts ++ z ∷ rest
unfolding insert_zone
insert_zone-first z [] [] f r h = refl
insert_zone-first z [] (y ∷ rest) f r h = ground (arith, r.0)
insert_zone-first z (y ∷ firsts) rest f r h =
    ground (arith, f.0, insert_zone-first z firsts rest f.1 r h)

insert_zone-last :
    (z : Zone) (zones : List Zone)
    → serves_checkpoints z ≡ false
    → insert_zone z zones ≡ zones ++ z ∷ []
unfolding insert_zone
insert_zone-last z [] h = refl
insert_zone-last z (y ∷ zones) h = ground (arith, insert_zone-last z zones h)

sort_zones-partition :
    (firsts rest zones : List Zone)
    → All (λ y. serves_checkpoints y ≡ true) firsts
    → All (λ y. serves_checkpoints y ≡ false) rest
    → sort_zones (firsts ++ rest) zones
      ≡ (firsts ++ keep serves_checkpoints zones) ++ (rest ++ keep is_rest zones)
unfolding sort_zones
sort_zones-partition firsts rest [] f r =
    sym (ap (λ l. l ++ (rest ++ [])) (append-nil firsts) ∙ ap (◌++◌ firsts) (append-nil rest))
sort_zones-partition firsts rest (z ∷ zones) f r = elim (Bool-cases (serves_checkpoints z)) [
  | inl h ↦
      ap (λ l. sort_zones l zones)
        (insert_zone-first z firsts rest f r h ∙ sym (append_assoc firsts (z ∷ []) rest))
      ∙ sort_zones-partition (firsts ++ z ∷ []) rest zones (All-append _ firsts (z ∷ []) f (h, tt))
          r
      ∙ ap (λ l. l ++ (rest ++ keep is_rest zones))
          (append_assoc firsts (z ∷ []) (keep serves_checkpoints zones))
      ∙ ap (λ (p : List Zone × List Zone). (firsts ++ p.0) ++ (rest ++ p.1)) (ground (arith, h))
  | inr h ↦
      ap (λ l. sort_zones l zones)
        (insert_zone-last z (firsts ++ rest) h ∙ append_assoc firsts rest (z ∷ []))
      ∙ sort_zones-partition firsts (rest ++ z ∷ []) zones f (All-append _ rest (z ∷ []) r (h, tt))
      ∙ ap (λ l. (firsts ++ keep serves_checkpoints zones) ++ l)
          (append_assoc rest (z ∷ []) (keep is_rest zones))
      ∙ ap (λ (p : List Zone × List Zone). (firsts ++ p.0) ++ (rest ++ p.1)) (ground (arith, h))
]

-- A serve walks the zones of the checkpoint register first and then the others, each part in the
-- order that it was given: no zone is lost, and none comes twice that did not before.
pub serve_order-partition :
    (zones : List Zone) → serve_order zones ≡ keep serves_checkpoints zones ++ keep is_rest zones
unfolding serve_order
serve_order-partition zones = sort_zones-partition [] [] zones tt tt
