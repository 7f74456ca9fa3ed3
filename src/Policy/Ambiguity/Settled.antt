-- ===== src/Policy/Ambiguity/Settled.antt =====
-- What it means that the calls and results of one correlation id are settled, and how `judge` decides.
use sesslint.Prelude.{
  ℕ, ◌≡◌, refl, String, ◌==◌, Bool, true, false, ◌||◌, List, [], ◌∷◌, ◌++◌, arith, mem_ℕ, eqb, ltb,
}
use sesslint.Session.{Host}
use sesslint.Policy.Ambiguity.Entries.{Entry, mark}
use sesslint.Policy.Ambiguity.Pairing.{
  judge, judge_pair, judge_repeated, unknown_executions, same_content, execution_unknown,
}

-- One call, answered; its side effects are known; all answers have the same content; and a single
-- answer stands behind the call, with a known execution.
pub record IsSettled (host : Host) (calls results : List Entry) : Type 0 where
  pub call : Entry
  pub first : Entry
  pub others : List Entry
  pub only_call : calls ≡ call ∷ []
  pub answered : results ≡ first ∷ others
  pub known : (call.side_effects == "unknown") ≡ false
  pub same : same_content host first others ≡ true
  pub in_order : others ≡ [] → ltb first.index call.index ≡ false
  pub executed : others ≡ [] → execution_unknown first ≡ false

abbrev pub at_entry : ℕ → List Entry → Bool
at_entry j [] = false
at_entry j (e ∷ es) = eqb j e.index || at_entry j es

pub mem_ℕ-mark : (j : ℕ) (es : List Entry) → mem_ℕ j (mark es).indices ≡ at_entry j es
mem_ℕ-mark j [] = refl
mem_ℕ-mark j (e ∷ es) = ground (arith, mem_ℕ-mark j es)

pub at_entry-append :
    (j : ℕ) (es ds : List Entry) → at_entry j (es ++ ds) ≡ (at_entry j es || at_entry j ds)
at_entry-append j [] ds = refl
at_entry-append j (e ∷ es) ds = ground (arith, at_entry-append j es ds)

module _ (host : Host) (corr : String) (j : ℕ) where
  judge_pair-IsSettled :
      (c r : Entry)
      → at_entry j (c ∷ r ∷ []) ≡ true
      → at_entry j (judge_pair corr c r).marked ≡ false
      → IsSettled host (c ∷ []) (r ∷ [])
  unfolding judge_pair
  judge_pair-IsSettled c r h u = record {
    call = c;
    first = r;
    others = [];
    only_call = refl;
    answered = refl;
    known = ground arith;
    same = refl;
    in_order = λ _. ground arith;
    executed = λ _. ground arith;
  }

  judge_repeated-IsSettled :
      (c r s : Entry) (rs : List Entry)
      → at_entry j (c ∷ r ∷ s ∷ rs) ≡ true
      → at_entry j (judge_repeated host corr c r (s ∷ rs)).marked ≡ false
      → IsSettled host (c ∷ []) (r ∷ s ∷ rs)
  unfolding judge_repeated
  judge_repeated-IsSettled c r s rs h u = record {
    call = c;
    first = r;
    others = s ∷ rs;
    only_call = refl;
    answered = refl;
    known = ground (arith, at_entry-append j rs (unknown_executions corr (r ∷ s ∷ rs)).marked);
    same = ground arith;
    in_order = λ e. cc;
    executed = λ e. cc;
  }

  pub judge-IsSettled :
      (calls results : List Entry)
      → (at_entry j calls || at_entry j results) ≡ true
      → at_entry j (judge host corr calls results).marked ≡ false
      → IsSettled host calls results
  unfolding judge
  judge-IsSettled [] [] h u = cc
  judge-IsSettled [] (r ∷ rs) h u = cc
  judge-IsSettled (c ∷ []) [] h u = ground arith
  judge-IsSettled (c ∷ []) (r ∷ []) h u = judge_pair-IsSettled c r (ground arith) u
  judge-IsSettled (c ∷ []) (r ∷ s ∷ rs) h u = judge_repeated-IsSettled c r s rs (ground arith) u
  judge-IsSettled (c ∷ d ∷ cs) rs h u = ground (arith, at_entry-append j cs rs)
