-- ===== src/Samples/Diffs.antt =====
-- `diff_events` and the content-free test at work.
use sesslint.Prelude.{◌==◌, ◌||◌, Bool, String}
use sesslint.Prelude.Sort.{Ordered}
use sesslint.Diff.Data.{or_empty}
use sesslint.Diff.Sorted.{MayPrecede}
use mathlib.Core.List.{Perm}
use sesslint.Prelude.{
  ℕ, String, ◌≡◌, ◌≢◌, ◌⊎◌, refl, true, false, Option, none, some, List, [], ◌∷◌, ◌++◌, length,
  get_elem?, All, enumerate_from,
}
use sesslint.Prelude.Sort.{IsSorted}
use sesslint.Session.{SessionEvent}
use sesslint.Finding.ContentFree.{
  Regex, pattern, ignore_case, either, Python, enforce_content_free_text, enforce_ordered,
  enforce_content_free_text-eq-enforce_ordered,
}
use sesslint.Diff.Data.{Codec}
use sesslint.Diff.Pairing.{Indexed, align, fallback_key}
use sesslint.Diff.Emit.{diff_events}
use sesslint.Diff.Matching.{side_a, side_b, Among}
use sesslint.Diff.Sorted.{diff_events-IsSorted}
use sesslint.Diff.Aligned.{align-partition, align-Partners, align-maximal}
use sesslint.Diff.Itself.{diff_events_itself}
use sesslint.Diff.Same.{Alike, diff_events_nil}
use sesslint.Samples.Data.{event, child_event, chain, tangled, answered_twice}

abbrev codec : Codec
codec = record { content_identity_hash = λ ev. ev.kind; content_free = λ s. true }

-- The chain with its first event under another id.
abbrev renamed : List SessionEvent
renamed =
    event "m9" "message" none
    ∷ child_event "c1" "tool_call" "m1"
    ∷ child_event "r1" "tool_result" "c1"
    ∷ []

diff-IsSorted_example : Ordered MayPrecede (diff_events codec chain answered_twice)
diff-IsSorted_example = diff_events-IsSorted codec chain answered_twice

partition_example :
    Perm
      (side_a (align codec chain answered_twice).pairs
        ++ (align codec chain answered_twice).removed)
      (enumerate_from 0 chain)
    × Perm
        (side_b (align codec chain answered_twice).pairs
          ++ (align codec chain answered_twice).added)
        (enumerate_from 0 answered_twice)
partition_example = align-partition codec chain answered_twice

partners_example :
    All
      (λ (p : Indexed × Indexed).
        (p.0.1.id ≡ p.1.1.id)
        ⊎ ((p.0.1.kind ≡ p.1.1.kind)
            × (or_empty p.0.1.parent_id ≡ or_empty p.1.1.parent_id)
            × (codec.content_identity_hash p.0.1 ≡ codec.content_identity_hash p.1.1)))
      (align codec chain renamed).pairs
partners_example = align-Partners codec chain renamed

maximal_example :
    All
      (λ x.
        (y : Indexed)
        → Among y (align codec tangled chain).added
        → (x.1.id ≢ y.1.id) × (fallback_key codec x.1 ≢ fallback_key codec y.1))
      (align codec tangled chain).removed
maximal_example = align-maximal codec tangled chain

itself_example : diff_events codec tangled tangled ≡ []
itself_example = diff_events_itself codec tangled

no_difference_runs : diff_events codec chain renamed ≡ []
unfolding diff_events sesslint.Prelude.Sort.sort
no_difference_runs = refl

no_difference_example :
    (length chain ≡ length renamed)
    × ((i : ℕ) (a b : SessionEvent)
        → get_elem? chain i ≡ some a
        → get_elem? renamed i ≡ some b
        → Alike codec a b)
no_difference_example = diff_events_nil codec chain renamed no_difference_runs

-- A stand-in for `re` that finds a pattern in its own text only.
unfoldable search_sample : Regex → String → Bool
search_sample (pattern p) s = p == s
search_sample (ignore_case r) s = search_sample r s
search_sample (either r q) s = search_sample r s || search_sample q s

search_sample-either :
    (r q : Regex) (s : String)
    → search_sample (either r q) s ≡ (search_sample r s || search_sample q s)
unfolding search_sample
search_sample-either r q s = refl

abbrev python : Python
python = record { search = search_sample; category = λ c. "Lu" }

content_free_example :
    enforce_content_free_text python "-----BEGIN [A-Z ]+KEY-----"
    ≡ enforce_ordered python "-----BEGIN [A-Z ]+KEY-----"
content_free_example =
    enforce_content_free_text-eq-enforce_ordered python "-----BEGIN [A-Z ]+KEY-----"
      search_sample-either
