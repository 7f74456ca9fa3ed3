-- ===== src/Repair/Recipes/Reunion/Pair.antt =====
-- The pair and the boundary that a reunion works on.
use sesslint.Prelude.{
  ℕ, suc, ◌-◌, ◌<◌, ◌≤◌, min, max, ◌≡◌, refl, String, Bool, true, false, ◌&&◌, Option, none, some,
  List, [], ◌∷◌, keep, length, arith, get_elem?, ltb, Bool-cases, inl, inr, At-lt_length,
  At-get_elem?, and-true, All, All-map_of,
}
use mathlib.Core.Path.{subst}
use sesslint.Session.{SessionEvent}
use sesslint.Repair.Result.{ok}
use sesslint.Repair.Recipes.Edits.{positions}
use sesslint.Repair.Recipes.Reunion.{
  calls_with, results_with, is_boundary, ends_of, boundaries_between, only_boundary, ends_or_error,
  correlation_or_error, no_endpoint,
}

-- The event at a position passes a test.
abbrev pub Holds : (SessionEvent → Bool) → List SessionEvent → ℕ → Type 0
Holds p evs j = (ev : SessionEvent) × (get_elem? evs j ≡ some ev) × (p ev ≡ true)

positions-All :
    (p : SessionEvent → Bool) (i : ℕ) (evs : List SessionEvent)
    → All (λ j. (i ≤ j) × Holds p evs (j - i)) (positions p i evs)
unfolding positions
positions-All p i [] = tt
positions-All p i (x ∷ xs) =
    let rest =
      All-map_of _ (λ j. (i ≤ j) × Holds p (x ∷ xs) (j - i)) later (positions p (suc i) xs)
        (positions-All p (suc i) xs) in
    elim (Bool-cases (p x)) [ inl e ↦ rw e ((omega arith, (x, here, e)), rest) | inr e ↦ rw e rest ]
  where
    here : get_elem? (x ∷ xs) (i - i) ≡ some x
    here = let none_left : i - i ≡ 0 = omega arith in rw none_left refl

    later : (j : ℕ) → (suc i ≤ j) × Holds p xs (j - suc i) → (i ≤ j) × Holds p (x ∷ xs) (j - i)
    later j (low, (ev, at, passed)) =
        let next : j - i ≡ suc (j - suc i) = omega arith in (omega arith, (ev, rw next at, passed))

All-keep :
    (P : ℕ → Type 0) (q : ℕ → Bool) (is : List ℕ)
    → All P is
    → All (λ j. P j × (q j ≡ true)) (keep q is)
All-keep P q [] h = tt
All-keep P q (i ∷ is) h = elim (Bool-cases (q i)) [
  | inl e ↦ rw e ((h.0, e), All-keep P q is h.1)
  | inr e ↦ rw e (All-keep P q is h.1)
]

-- What a reunion has established: one call and one result with the correlation id, at the positions `lo`
-- and `hi`, and one boundary between them, at `b`.
pub record IsSplitPair (evs : List SessionEvent) (corr : String) (lo b hi : ℕ) : Type 0 where
  pub call : ℕ
  pub result : ℕ
  pub one_call : calls_with corr evs ≡ call ∷ []
  pub one_result : results_with corr evs ≡ result ∷ []
  pub ends : (lo ≡ min call result) × (hi ≡ max call result)
  pub between : (lo < b) × (b < hi) × (hi < length evs)
  pub boundary : Holds is_boundary evs b
  pub only : boundaries_between (lo, hi) evs ≡ b ∷ []

ends_of-some :
    (cs rs : List ℕ) (e : ℕ × ℕ)
    → ends_of cs rs ≡ some e
    → (c r : ℕ) × (cs ≡ c ∷ []) × (rs ≡ r ∷ []) × (e.0 ≡ min c r) × (e.1 ≡ max c r)
ends_of-some (c ∷ []) (r ∷ []) e h = (c, r, refl, refl, lower h, upper h)
  where
    lower : some (min c r, max c r) ≡ some e → e.0 ≡ min c r
    lower q = cc

    upper : some (min c r, max c r) ≡ some e → e.1 ≡ max c r
    upper q = cc
ends_of-some [] rs e h = cc
ends_of-some (c ∷ []) [] e h = cc
ends_of-some (c ∷ []) (r ∷ s ∷ rs) e h = cc
ends_of-some (c ∷ d ∷ cs) rs e h = cc

only_boundary-ok : (bs : List ℕ) (b : ℕ) → only_boundary bs ≡ ok b → bs ≡ b ∷ []
only_boundary-ok [] b h = cc
only_boundary-ok (c ∷ []) b h = cc
only_boundary-ok (c ∷ d ∷ bs) b h = cc

pub no_endpoint-ok : (t : Bool) (ends e : ℕ × ℕ) → no_endpoint t ends ≡ ok e → e ≡ ends
no_endpoint-ok true ends e h = cc
no_endpoint-ok false ends e h = cc

-- The only position of a list of positions that hold an event.
only_holds :
    (p : SessionEvent → Bool) (evs : List SessionEvent) (j : ℕ)
    → positions p 0 evs ≡ j ∷ []
    → Holds p evs j
only_holds p evs j h =
    let (_, held) =
      (subst (All (λ k. (0 ≤ k) × Holds p evs (k - 0))) h (positions-All p 0 evs)).0 in
    let same : j - 0 ≡ j = omega arith in rw same at held

pub split_pair :
    (evs : List SessionEvent) (corr : String) (ends : ℕ × ℕ) (b : ℕ)
    → ends_of (calls_with corr evs) (results_with corr evs) ≡ some ends
    → only_boundary (boundaries_between ends evs) ≡ ok b
    → IsSplitPair evs corr ends.0 b ends.1
split_pair evs corr ends b paired bounded =
    let (c, r, one_call, one_result, low, high) = ends_of-some _ _ ends paired in
    let (_, call_at, _) = only_holds _ evs c one_call in
    let (_, result_at, _) = only_holds _ evs r one_result in
    let only = only_boundary-ok (boundaries_between ends evs) b bounded in
    let found =
      (subst
        (All (λ k.
          ((0 ≤ k) × Holds is_boundary evs (k - 0)) × ((ltb ends.0 k && ltb k ends.1) ≡ true)))
        only
        (All-keep _ (λ i. ltb ends.0 i && ltb i ends.1) (positions is_boundary 0 evs)
          (positions-All is_boundary 0 evs))).0 in
    let same : b - 0 ≡ b = omega arith in
    let (above, below) = and-true (ltb ends.0 b) (ltb b ends.1) found.1 in
    record {
      call = c;
      result = r;
      one_call = one_call;
      one_result = one_result;
      ends = (low, high);
      between = (
        ground arith,
        ground arith,
        omega (
          arith,
          At-lt_length 0 evs c _ (At-get_elem? evs c _ call_at),
          At-lt_length 0 evs r _ (At-get_elem? evs r _ result_at),
        ),
      );
      boundary = rw same at found.0.1;
      only = only;
    }

pub ends_or_error-ok : (o : Option (ℕ × ℕ)) (e : ℕ × ℕ) → ends_or_error o ≡ ok e → o ≡ some e
ends_or_error-ok none e h = cc
ends_or_error-ok (some d) e h = cc

pub correlation_or_error-ok :
    (o : Option String) (s : String) → correlation_or_error o ≡ ok s → o ≡ some s
correlation_or_error-ok none s h = cc
correlation_or_error-ok (some t) s h = cc
