-- ===== src/Diff/Sorted.antt =====
-- The order of the deltas of `diff_events` (diff.py).
use sesslint.Prelude.{
  ◌≡◌, refl, sym, ap, ◌∙◌, Bool, true, ◌⊎◌, inl, inr, ℕ, zero, suc, ◌<◌, Option, none, some, List,
  arith, Bool-cases, eqb, eqb_iff,
}
use sesslint.Prelude.Sort.{Ordered, IsSorted-Ordered, sort-IsSorted}
use sesslint.Prelude.Text.{le_text, le_text-total}
use sesslint.Session.{SessionEvent}
use sesslint.Diff.Data.{
  DeltaCategory, added, removed, kind_changed, parent_relinked, seq_reordered, content_changed,
  Delta, Codec, le_delta, category_order, then_by, index_rank, or_empty,
}
use sesslint.Diff.Emit.{diff_events}

then_by-total :
    (a b : ℕ) (x y : Bool)
    → (x ≡ true) ⊎ (y ≡ true)
    → (then_by a b x ≡ true) ⊎ (then_by b a y ≡ true)
then_by-total a b x y h = ground arith

le_delta-total : (c d : Delta) → (le_delta c d ≡ true) ⊎ (le_delta d c ≡ true)
unfolding le_delta
le_delta-total c d =
    let ids = le_text-total (or_empty c.event_id) (or_empty d.event_id) in
    let in_b = then_by-total (index_rank c.b_index) (index_rank d.b_index) _ _ ids in
    let in_a = then_by-total (index_rank c.a_index) (index_rank d.a_index) _ _ in_b in
    then_by-total (category_order c.category) (category_order d.category) _ _ in_a

-- The categories as they are listed: added, removed, kind, parent, sequence, content.
abbrev place : DeltaCategory → ℕ
place added = 0
place removed = 1
place kind_changed = 2
place parent_relinked = 3
place seq_reordered = 4
place content_changed = 5

-- A missing index is before every index.
abbrev pub IsEarlier : Option ℕ → Option ℕ → Type 0
IsEarlier o none = ⊥
IsEarlier none (some j) = Unit
IsEarlier (some i) (some j) = i < j

-- A delta may stand before another: by category, by the index in A, by that in B, by the id.
pub data MayPrecede (c d : Delta) : Type 0 where
  by_category : place c.category < place d.category → MayPrecede c d
  by_a_index : c.category ≡ d.category → IsEarlier c.a_index d.a_index → MayPrecede c d
  by_b_index :
      c.category ≡ d.category
      → c.a_index ≡ d.a_index
      → IsEarlier c.b_index d.b_index
      → MayPrecede c d
  by_event_id :
      c.category ≡ d.category
      → c.a_index ≡ d.a_index
      → c.b_index ≡ d.b_index
      → le_text (or_empty c.event_id) (or_empty d.event_id) ≡ true
      → MayPrecede c d

category_order-place : (c : DeltaCategory) → category_order c ≡ place c
unfolding category_order
category_order-place added = refl
category_order-place removed = refl
category_order-place kind_changed = refl
category_order-place parent_relinked = refl
category_order-place seq_reordered = refl
category_order-place content_changed = refl

category_at : ℕ → DeltaCategory
category_at zero = added
category_at (suc zero) = removed
category_at (suc (suc zero)) = kind_changed
category_at (suc (suc (suc zero))) = parent_relinked
category_at (suc (suc (suc (suc zero)))) = seq_reordered
category_at _ = content_changed

category_at-place : (c : DeltaCategory) → category_at (place c) ≡ c
unfolding category_at
category_at-place added = refl
category_at-place removed = refl
category_at-place kind_changed = refl
category_at-place parent_relinked = refl
category_at-place seq_reordered = refl
category_at-place content_changed = refl

index_rank-lt : (o p : Option ℕ) → index_rank o < index_rank p → IsEarlier o p
index_rank-lt none none h = omega arith
index_rank-lt (some i) none h = omega arith
index_rank-lt none (some j) h = tt
index_rank-lt (some i) (some j) h = omega arith

index_rank-eq : (o p : Option ℕ) → index_rank o ≡ index_rank p → o ≡ p
index_rank-eq none none h = refl
index_rank-eq (some i) none h = absurd (omega arith)
index_rank-eq none (some j) h = absurd (omega arith)
index_rank-eq (some i) (some j) h = ap some (omega arith)

then_by-cases :
    (a b : ℕ) (rest : Bool) → then_by a b rest ≡ true → (a < b) ⊎ ((a ≡ b) × (rest ≡ true))
then_by-cases a b rest h = elim (Bool-cases (eqb a b)) [
  | inl e ↦ inr ((eqb_iff a b).0 e, ground arith)
  | inr e ↦ inl (ground arith)
]

le_delta-MayPrecede : (c d : Delta) → le_delta c d ≡ true → MayPrecede c d
unfolding le_delta
le_delta-MayPrecede c d h = elim (then_by-cases _ _ _ h) [
  | inl e ↦
      let lower : category_order c.category < category_order d.category = e in
      MayPrecede.by_category
        (omega (arith, category_order-place c.category, category_order-place d.category))
  | inr (e, h1) ↦
      let same : c.category ≡ d.category =
        sym (category_at-place c.category)
        ∙ ap category_at
            (sym (category_order-place c.category) ∙ e ∙ category_order-place d.category)
        ∙ category_at-place d.category in
      elim (then_by-cases _ _ _ h1) [
        | inl f ↦ MayPrecede.by_a_index same (index_rank-lt c.a_index d.a_index f)
        | inr (f, h2) ↦
            let same_a = index_rank-eq c.a_index d.a_index f in
            elim (then_by-cases _ _ _ h2) [
              | inl k ↦ MayPrecede.by_b_index same same_a (index_rank-lt c.b_index d.b_index k)
              | inr (k, ids) ↦
                  MayPrecede.by_event_id same same_a (index_rank-eq c.b_index d.b_index k) ids
            ]
      ]
]

-- The deltas of any two sessions stand by category (added, removed, kind, parent, sequence, content),
-- then by the index in A, then by that in B (a missing index first), then by the event's id.
pub diff_events-IsSorted :
    (codec : Codec) (events_a events_b : List SessionEvent)
    → Ordered MayPrecede (diff_events codec events_a events_b)
unfolding diff_events
diff_events-IsSorted codec events_a events_b =
    IsSorted-Ordered le_delta MayPrecede le_delta-MayPrecede _
      (sort-IsSorted le_delta le_delta-total _)
