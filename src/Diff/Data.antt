-- ===== src/Diff/Data.antt =====
-- The deltas of diff.py and their order.
use sesslint.Prelude.{
  ℕ, suc, String, Bool, true, false, Option, none, some, List, [], ◌∷◌, if◌then◌else◌, ltb, eqb,
  map, length, keep,
}
use sesslint.Prelude.Text.{le_text}
use sesslint.Session.{SessionEvent}

pub data DeltaCategory : Type 0 where
  added removed kind_changed parent_relinked seq_reordered content_changed : DeltaCategory

unfoldable pub category_order : DeltaCategory → ℕ
category_order added = 0
category_order removed = 1
category_order kind_changed = 2
category_order parent_relinked = 3
category_order seq_reordered = 4
category_order content_changed = 5

abbrev pub delta_categories : List DeltaCategory
delta_categories =
    added ∷ removed ∷ kind_changed ∷ parent_relinked ∷ seq_reordered ∷ content_changed ∷ []

pub record Delta : Type 0 where
  pub category : DeltaCategory
  pub event_id : Option String
  pub a_index : Option ℕ
  pub b_index : Option ℕ
  pub detail : List (String × String)

-- What an alignment calls: `content_identity_hash` of the active codec, and whether
-- `enforce_content_free_text` returns for a text.
pub record Codec : Type 0 where
  pub content_identity_hash : SessionEvent → String
  pub content_free : String → Bool

-- `i if i is not None else -1`, moved up by one.
abbrev pub index_rank : Option ℕ → ℕ
index_rank none = 0
index_rank (some i) = suc i

-- `s or ""`.
abbrev pub or_empty : Option String → String
or_empty none = ""
or_empty (some s) = s

abbrev pub then_by : ℕ → ℕ → Bool → Bool
then_by a b rest = if eqb a b then rest else ltb a b

-- The key of `deltas.sort`, as an order.
unfoldable pub le_delta : Delta → Delta → Bool
unfolding category_order
le_delta c d = then_by (category_order c.category) (category_order d.category) (
    then_by (index_rank c.a_index) (index_rank d.a_index) (
      then_by (index_rank c.b_index) (index_rank d.b_index)
        (le_text (or_empty c.event_id) (or_empty d.event_id))))

-- `SessionDiff.identical`.
unfoldable pub identical : List Delta → Bool
identical [] = true
identical (d ∷ ds) = false

-- `SessionDiff.counts`.
unfoldable pub count_of : DeltaCategory → List Delta → ℕ
unfolding category_order
count_of c ds = length (keep (λ d. eqb (category_order d.category) (category_order c)) ds)

unfoldable pub counts : List Delta → List (DeltaCategory × ℕ)
unfolding count_of
counts ds = map (λ c. (c, count_of c ds)) delta_categories
