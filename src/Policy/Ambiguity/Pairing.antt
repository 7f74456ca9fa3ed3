-- ===== src/Policy/Ambiguity/Pairing.antt =====
-- The second part of `find_ambiguous_events`: the calls and results that share a correlation id.
-- The source walks the correlation ids in the arbitrary order of a set; here it is that of their last
-- occurrence, which shows in the order of the reasons alone.
use sesslint.Prelude.{
  ℕ, suc, String, ◌==◌, Bool, false, ◌&&◌, ◌||◌, Option, none, some, List, [], ◌∷◌, ◌++◌,
  if◌then◌else◌, mem_text, all, ltb,
}
use sesslint.Values.{Value, text, get}
use sesslint.Session.{SessionEvent, Host, content_fingerprint}
use sesslint.Policy.SideEffects.{is_call, is_result}
use sesslint.Policy.Ambiguity.Entries.{
  Entry, AmbiguityReason, unpaired_call_no_correlation, orphan_result_no_correlation,
  reused_correlation, dangling_call, orphan_result, unknown_side_effects, unknown_execution,
  reversed_pairing, unknown_side_effects_at, entry,
}

-- What one correlation id adds: the entries to mark, and the reasons.
pub record Verdict : Type 0 where
  pub marked : List Entry
  pub reasons : List AmbiguityReason

abbrev pub nothing : Verdict
nothing = record { marked = []; reasons = [] }

abbrev pub also : Verdict → Verdict → Verdict
also a b = record { marked = a.marked ++ b.marked; reasons = a.reasons ++ b.reasons }

abbrev pub says_unknown : Value → Bool
says_unknown (text s) = s == "unknown"
says_unknown _ = false

-- `payload.get("execution") == "unknown"`.
abbrev pub execution_unknown : Entry → Bool
execution_unknown e = says_unknown (get e.event.payload "execution")

-- One call with one result: each of the three faults marks both.
unfoldable pub judge_pair : String → Entry → Entry → Verdict
judge_pair corr c r =
    let both = c ∷ r ∷ [] in
    also
      (if ltb r.index c.index
        then record { marked = both; reasons = reversed_pairing corr r.index c.index ∷ [] }
        else nothing)
      (also
        (if c.side_effects == "unknown"
          then record { marked = both; reasons = unknown_side_effects_at corr c.index ∷ [] }
          else nothing)
        (if execution_unknown r
          then record { marked = both; reasons = unknown_execution corr r.index ∷ [] }
          else nothing))

unfoldable pub unknown_executions : String → List Entry → Verdict
unknown_executions corr [] = nothing
unknown_executions corr (r ∷ rs) =
    let rest = unknown_executions corr rs in
    if execution_unknown r
    then also (record { marked = r ∷ []; reasons = unknown_execution corr r.index ∷ [] }) rest
    else rest

abbrev pub same_content : Host → Entry → List Entry → Bool
same_content host r rs =
    all (λ s. content_fingerprint host s.event == content_fingerprint host r.event) rs

-- One call with several results, the first of them apart.
unfoldable pub judge_repeated : Host → String → Entry → Entry → List Entry → Verdict
unfolding unknown_executions
judge_repeated host corr c r rs =
    if same_content host r rs
    then also
        (if c.side_effects == "unknown"
          then record { marked = c ∷ r ∷ rs; reasons = unknown_side_effects corr ∷ [] }
          else nothing)
        (unknown_executions corr (r ∷ rs))
    else record { marked = c ∷ r ∷ rs; reasons = [] }

-- The chain of branches on the numbers of calls and results.
unfoldable pub judge : Host → String → List Entry → List Entry → Verdict
unfolding judge_pair judge_repeated
judge host corr [] [] = nothing
judge host corr [] (r ∷ rs) = record { marked = r ∷ rs; reasons = orphan_result corr ∷ [] }
judge host corr (c ∷ []) [] = record { marked = c ∷ []; reasons = dangling_call corr c.index ∷ [] }
judge host corr (c ∷ []) (r ∷ []) = judge_pair corr c r
judge host corr (c ∷ []) (r ∷ s ∷ rs) = judge_repeated host corr c r (s ∷ rs)
judge host corr (c ∷ d ∷ cs) rs = record {
  marked = (c ∷ d ∷ cs) ++ rs;
  reasons = reused_correlation corr ∷ [];
}

abbrev pub correlates : String → SessionEvent → Bool
correlates corr ev = elim ev.correlation_id [ none ↦ false | some c ↦ c == corr ]

-- `calls_by_corr[corr]` and `results_by_corr[corr]`, for the test that tells the kind.
unfoldable pub collect : Host → (SessionEvent → Bool) → String → ℕ → List SessionEvent → List Entry
collect host is corr i [] = []
collect host is corr i (ev ∷ evs) =
    let rest = collect host is corr (suc i) evs in
    if is ev && correlates corr ev then entry host i ev ∷ rest else rest

abbrev pub add_correlation : Option String → List String → List String
add_correlation none cs = cs
add_correlation (some c) cs = if mem_text c cs then cs else c ∷ cs

-- `set(calls_by_corr) | set(results_by_corr)`.
unfoldable pub correlations : List SessionEvent → List String
correlations [] = []
correlations (ev ∷ evs) =
    let rest = correlations evs in
    if is_call ev || is_result ev then add_correlation ev.correlation_id rest else rest

-- Tool events with no correlation id.
unfoldable pub uncorrelated : Host → ℕ → List SessionEvent → Verdict
uncorrelated host i [] = nothing
uncorrelated host i (ev ∷ evs) =
    let rest = uncorrelated host (suc i) evs in
    elim ev.correlation_id [
      | some c ↦ rest
      | none ↦
          if is_call ev
          then also
              (record {
                marked = entry host i ev ∷ [];
                reasons = unpaired_call_no_correlation i ∷ [];
              })
              rest
          else if is_result ev
          then also
              (record {
                marked = entry host i ev ∷ [];
                reasons = orphan_result_no_correlation i ∷ [];
              })
              rest
          else rest
    ]

unfoldable pub judge_all : Host → List SessionEvent → List String → Verdict
unfolding judge collect
judge_all host evs [] = nothing
judge_all host evs (corr ∷ cs) =
    also (judge host corr (collect host is_call corr 0 evs) (collect host is_result corr 0 evs))
      (judge_all host evs cs)
