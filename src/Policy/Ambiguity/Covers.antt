-- ===== src/Policy/Ambiguity/Covers.antt =====
-- `find_ambiguous_events` against the meaning of a settled correlation id.
use sesslint.Prelude.{
  ℕ, suc, ◌≡◌, refl, sym, ◌∙◌, String, Bool, true, false, ◌||◌, none, some, List, [], ◌∷◌, arith,
  mem_ℕ, mem_ℕ-append, mem_text, get_elem?, At, At-get_elem?, Option-cases, or-true, or-false, inl,
  inr, eq_iff, eq_refl,
}
use sesslint.Session.{SessionEvent, Host}
use sesslint.Finding.{Finding}
use sesslint.Policy.SideEffects.{is_call, is_result}
use sesslint.Policy.Ambiguity.Entries.{Entry, mark}
use sesslint.Policy.Ambiguity.Subjects.{sl203_marks}
use sesslint.Policy.Ambiguity.Pairing.{judge, collect, correlations, uncorrelated, judge_all}
use sesslint.Policy.Ambiguity.Settled.{
  IsSettled, at_entry, mem_ℕ-mark, at_entry-append, judge-IsSettled,
}
use sesslint.Policy.Ambiguity.Find.{pairing_verdict, initial_marks, find_ambiguous_events}
use sesslint.Policy.Ambiguity.Closure.{complete-indices}

false_of : (b : Bool) → ¬ (b ≡ true) → b ≡ false
false_of true h = absurd (h refl)
false_of false h = refl

-- What is not ambiguous was not marked by any pairing.
unmarked_of :
    (host : Host) (evs : List SessionEvent) (fs : List Finding) (j : ℕ)
    → mem_ℕ j (find_ambiguous_events host evs fs).indices ≡ false
    → at_entry j (pairing_verdict host evs).marked ≡ false
unfolding find_ambiguous_events
unmarked_of host evs fs j h =
    let ms = (pairing_verdict host evs).marked in
    false_of _ λ e.
      let both = mem_ℕ-append j (sl203_marks fs evs).indices (mark ms).indices in
      let kept = complete-indices 0 j evs (initial_marks host evs fs) in
      let marked = mem_ℕ-mark j ms in ground arith

module _ (host : Host) (corr : String) where
  -- An event with the correlation id is among the collected ones.
  collect-At :
      (is : SessionEvent → Bool) (i j : ℕ) (evs : List SessionEvent) (ev : SessionEvent)
      → At i evs j ev
      → is ev ≡ true
      → ev.correlation_id ≡ some corr
      → at_entry j (collect host is corr i evs) ≡ true
  unfolding collect
  collect-At is i j [] ev at k c = elim at [ ]
  collect-At is i j (x ∷ evs) ev (inl (p, q)) k c = ground (arith, eq_refl corr)
  collect-At is i j (x ∷ evs) ev (inr at) k c =
      let rest = collect-At is (suc i) j evs ev at k c in ground arith

correlations-mem :
    (corr : String) (i j : ℕ) (evs : List SessionEvent) (ev : SessionEvent)
    → At i evs j ev
    → (is_call ev || is_result ev) ≡ true
    → ev.correlation_id ≡ some corr
    → mem_text corr (correlations evs) ≡ true
unfolding correlations
correlations-mem corr i j [] ev at k c = elim at [ ]
correlations-mem corr i j (x ∷ evs) ev (inl (p, q)) k c = ground (arith, eq_refl corr)
correlations-mem corr i j (x ∷ evs) ev (inr at) k c =
    let rest = correlations-mem corr (suc i) j evs ev at k c in ground arith

uncorrelated-At :
    (host : Host) (i j : ℕ) (evs : List SessionEvent) (ev : SessionEvent)
    → At i evs j ev
    → (is_call ev || is_result ev) ≡ true
    → ev.correlation_id ≡ none
    → at_entry j (uncorrelated host i evs).marked ≡ true
unfolding uncorrelated
uncorrelated-At host i j [] ev at k c = elim at [ ]
uncorrelated-At host i j (x ∷ evs) ev (inl (p, q)) k c = ground arith
uncorrelated-At host i j (x ∷ evs) ev (inr at) k c =
    let rest = uncorrelated-At host (suc i) j evs ev at k c in ground arith

judge_all-judge :
    (host : Host) (evs : List SessionEvent) (corr : String) (j : ℕ) (cs : List String)
    → mem_text corr cs ≡ true
    → at_entry j (judge_all host evs cs).marked ≡ false
    → at_entry j
        (judge host corr
          (collect host is_call corr 0 evs)
          (collect host is_result corr 0 evs)).marked
      ≡ false
unfolding judge_all
judge_all-judge host evs corr j [] m u = cc
judge_all-judge host evs corr j (c ∷ cs) m u = ground (
  arith,
  eq_iff corr c,
  judge_all-judge host evs corr j cs,
  at_entry-append j
      (judge host c (collect host is_call c 0 evs) (collect host is_result c 0 evs)).marked
      (judge_all host evs cs).marked,
)

-- The calls and the results of a correlation id.
abbrev pub calls_of : Host → String → List SessionEvent → List Entry
calls_of host corr evs = collect host is_call corr 0 evs

abbrev pub results_of : Host → String → List SessionEvent → List Entry
results_of host corr evs = collect host is_result corr 0 evs

IsSettled-At :
    (host : Host) (evs : List SessionEvent) (j : ℕ) (ev : SessionEvent) (corr : String)
    → At 0 evs j ev
    → (is_call ev || is_result ev) ≡ true
    → ev.correlation_id ≡ some corr
    → at_entry j (judge_all host evs (correlations evs)).marked ≡ false
    → IsSettled host (calls_of host corr evs) (results_of host corr evs)
IsSettled-At host evs j ev corr at k c u =
    judge-IsSettled host corr j _ _ among (
      judge_all-judge host evs corr j (correlations evs) (correlations-mem corr 0 j evs ev at k c)
        u)
  where
    among : (at_entry j (calls_of host corr evs) || at_entry j (results_of host corr evs)) ≡ true
    among = elim (or-true (is_call ev) (is_result ev) k) [
      | inl call ↦ rw (collect-At host corr is_call 0 j evs ev at call c)
      | inr result ↦ ground (arith, collect-At host corr is_result 0 j evs ev at result c)
    ]

-- A tool call or tool result that `find_ambiguous_events` leaves out has a correlation id, and the
-- calls and results of that id are settled: there is one call and it is answered, its side effects
-- are known, all answers have the same content, and a single answer stands behind the call and has
-- a known execution.
pub unambiguous-IsSettled :
    (host : Host) (evs : List SessionEvent) (fs : List Finding) (j : ℕ) (ev : SessionEvent)
    → get_elem? evs j ≡ some ev
    → (is_call ev || is_result ev) ≡ true
    → mem_ℕ j (find_ambiguous_events host evs fs).indices ≡ false
    → (corr : String) × (ev.correlation_id ≡ some corr)
      × IsSettled host (calls_of host corr evs) (results_of host corr evs)
unfolding pairing_verdict
unambiguous-IsSettled host evs fs j ev at k h =
    let here = At-get_elem? evs j ev at in
    let loose = (uncorrelated host 0 evs).marked in
    let judged = (judge_all host evs (correlations evs)).marked in
    let (quiet, settled) =
      or-false (at_entry j loose) (at_entry j judged)
        (sym (at_entry-append j loose judged) ∙ unmarked_of host evs fs j h) in
    elim (Option-cases ev.correlation_id) [
      | inl c ↦ absurd (ground (arith, uncorrelated-At host 0 j evs ev here k c))
      | inr (corr, c) ↦ (corr, c, IsSettled-At host evs j ev corr here k c settled)
    ]
