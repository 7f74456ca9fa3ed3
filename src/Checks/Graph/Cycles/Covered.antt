-- ===== src/Checks/Graph/Cycles/Covered.antt =====
-- What `check_cycles` (checks/graph.py) reports, against every id of the graph.
use mathlib.Core.Path.{subst}
use sesslint.Prelude.{
  suc, ◌<◌, String, ◌≡◌, ◌↔◌, refl, sym, ap, ◌∙◌, inl, inr, true, none, some, List, [], ◌∷◌, arith,
  Bool-cases, All, length, all, mem_text,
}
use sesslint.Session.{SessionEvent}
use sesslint.Checks.Graph.Occurrence.{Graph, Node, next_of, has_id, occurrence_graph}
use sesslint.Checks.Graph.Cycles.{
  gray, black, color_of, blacken, Walk, walk, Search, note_cycle, explore, visit, visit_all,
  find_cycles,
}
use sesslint.Checks.Graph.Cycles.Links.{Grounded, Linked, Linked-loops}
use sesslint.Checks.Graph.Cycles.Complete.{
  whites, whites-le, walk-blackness, blacken-black, Visit, visit-Visit, has_id-All, All-has_id,
  absent-next_of,
}
use sesslint.Checks.Graph.Cycles.Sound.{
  IsCycle, IsSound, Visit-IsSound, note_cycle-colors, find_cycles-All-IsCycle,
}
use sesslint.Checks.Graph.Cycles.Starts.{some_inj, walk-start, walk-path}
use sesslint.Checks.Graph.Cycles.Noted.{
  is_reported, IsNoted, note_cycle-keeps, note_cycle-reports, note_cycle-IsNoted,
}

-- Following parents from an id comes to an end, or to an id of one of the cycles.
pub data Ends (g : Graph) (cs : List (List String)) : String → Type 0 where
  root : {s : String} → next_of g s ≡ none → Ends g cs s
  reported : {s : String} → is_reported cs s ≡ true → Ends g cs s
  child : {s p : String} → next_of g s ≡ some p → Ends g cs p → Ends g cs s

Ends-more :
    (g : Graph) (cs ds : List (List String))
    → ((k : String) → is_reported cs k ≡ true → is_reported ds k ≡ true)
    → (s : String) → Ends g cs s
    → Ends g ds s
Ends-more g cs ds f s (Ends.root e) = Ends.root e
Ends-more g cs ds f s (Ends.reported m) = Ends.reported (f s m)
Ends-more g cs ds f s (Ends.child {p} e r) = Ends.child e (Ends-more g cs ds f p r)

module _ (g : Graph) where
  -- What the search keeps: from every black id parents come to an end or to a reported cycle.
  record IsCovered (s : Search) : Type 0 where
    sound : IsSound g s
    noted : IsNoted s
    ended : (k : String) → color_of s.colors k ≡ black → Ends g s.cycles k

  -- What a visit of a start node gives.
  abbrev Covers : String → Search → Search → Type 0
  Covers start s t =
      IsCovered t
      × Ends g t.cycles start
      × ((k : String) → is_reported s.cycles k ≡ true → is_reported t.cycles k ≡ true)

  explore-Covers :
      (start : String) (s : Search)
      → has_id g start ≡ true
      → IsCovered s
      → IsSound g (explore g start s)
      → Covers start s (explore g start s)
  unfolding explore
  explore-Covers start s inside h sound =
      let w : Walk = walk g (suc (length g)) (some start) [] s.colors in
      let t : Search = record s { colors = blacken w.path w.colors } in
      let more : (k : String)
          → is_reported s.cycles k ≡ true
          → is_reported (note_cycle w.cycle t).cycles k ≡ true =
        note_cycle-keeps w.cycle t in
      let P : String → Type 0 = Ends g (note_cycle w.cycle t).cycles in
      let known : (k : String) → color_of s.colors k ≡ black → P k =
        λ k b. Ends-more g _ _ more k (h.ended k b) in
      let grays = λ (k : String) (e : color_of s.colors k ≡ gray).
        absurd {A = mem_text k [] ≡ true} (h.sound.no_gray k e) in
      let fits : whites s.colors g < suc (length g) = omega (arith, whites-le s.colors g) in
      let within : (k : String) → some start ≡ some k → has_id g k ≡ true =
        λ k e. subst (λ x. has_id g x ≡ true) (some_inj start k e) inside in
      let met : (raw : List String)
          → w.cycle ≡ some raw
          → (k : String) → mem_text k raw ≡ true
          → P k =
        λ raw e k m. Ends.reported (
          subst (λ c. is_reported (note_cycle c t).cycles k ≡ true) (sym e)
            (note_cycle-reports t h.noted raw k m)) in
      let up = λ (c : String) (n : next_of g c ≡ none). root_of (note_cycle w.cycle t).cycles c n in
      let down = λ (c p : String) (n : next_of g c ≡ some p) (r : P p). child_of _ c p n r in
      (
        record {
          sound = sound;
          noted = note_cycle-IsNoted w.cycle t h.noted;
          ended = λ k b.
              blacken-black g P w.path w.colors
                (walk-path g P up down (suc (length g)) (some start) [] s.colors known grays fits
                  within met (λ f. tt))
                (λ q c. known q (walk-blackness g (suc (length g)) (some start) [] s.colors q c)) k
                (sym (ap (λ c. color_of c k) (note_cycle-colors g w.cycle t)) ∙ b);
        },
        walk-start g P up down (suc (length g)) (some start) [] s.colors known grays fits within met
            start refl,
        more,
      )
    where
      root_of : (cs : List (List String)) (c : String) → next_of g c ≡ none → Ends g cs c
      root_of cs c n = Ends.root n

      child_of :
          (cs : List (List String)) (c p : String)
          → next_of g c ≡ some p
          → Ends g cs p
          → Ends g cs c
      child_of cs c p n r = Ends.child n r

  ended-Covers :
      (start : String) (s t : Search)
      → IsCovered s
      → IsSound g t
      → Ends g s.cycles start
      → t ≡ record s { colors = (start, black) ∷ s.colors }
      → Covers start s t
  ended-Covers start s t h sound ends e =
      subst (λ t. IsSound g t → Covers start s t) (sym e)
        (λ sound. (
          record {
            sound = sound;
            noted = h.noted;
            ended = λ k b.
                unfold blacken in
                blacken-black g (Ends g s.cycles) (start ∷ []) s.colors (ends, tt) h.ended k b;
          },
          ends,
          λ k m. m,
        ))
        sound

  Visit-Covers :
      (start : String) (s t : Search)
      → has_id g start ≡ true
      → IsCovered s
      → Visit g start s t
      → Covers start s t
  Visit-Covers start s t inside h (Visit.done b e) =
      subst (Covers start s) (sym e) (h, h.ended start b, λ k m. m)
  Visit-Covers start s t inside h (Visit.rooted n e) =
      ended-Covers start s t h (Visit-IsSound g start s t h.sound (Visit.rooted n e)) (Ends.root n)
        e
  Visit-Covers start s t inside h (Visit.settled p n b e) =
      ended-Covers start s t h (Visit-IsSound g start s t h.sound (Visit.settled p n b e))
        (Ends.child n (h.ended p b)) e
  Visit-Covers start s t inside h (Visit.explored e) = subst (Covers start s) (sym e) (
      explore-Covers start s inside h
        (subst (IsSound g) e (Visit-IsSound g start s t h.sound (Visit.explored e))))

  visit_all-Ends :
      (ns : List Node) (s : Search)
      → All (λ (n : Node). has_id g n.id ≡ true) ns
      → IsCovered s
      → All (λ (n : Node). Ends g (visit_all g ns s).cycles n.id) ns
        × ((k : String)
            → is_reported s.cycles k ≡ true
            → is_reported (visit_all g ns s).cycles k ≡ true)
  unfolding visit_all
  visit_all-Ends [] s inside h = (tt, λ k m. m)
  visit_all-Ends (n ∷ ns) s inside h =
      let (covered, ends, more) =
        Visit-Covers n.id s (visit g n.id s) inside.0 h (visit-Visit g n.id s) in
      let (later, rest) = visit_all-Ends ns (visit g n.id s) inside.1 covered in
      ((Ends-more g _ _ rest n.id ends, later), λ k m. rest k (more k m))

find_cycles-Ends :
    (evs : List SessionEvent) (s : String) → Ends (occurrence_graph evs) (find_cycles evs) s
unfolding find_cycles
find_cycles-Ends evs s =
    let g = occurrence_graph evs in
    let start : Search = record { colors = []; cycles = []; seen = [] } in
    let (all, _) = visit_all-Ends g g start (has_id-All g g (λ s m. m)) (record {
      sound = record { no_gray = λ k e. unfold color_of in cc; cycles = tt };
      noted = λ raw k h m. cc;
      ended = λ k b. unfold color_of in cc;
    }) in
    elim (Bool-cases (has_id g s)) [
      | inl m ↦ All-has_id (Ends g (visit_all g g start).cycles) g s all m
      | inr m ↦ Ends.root (absent-next_of g s m)
    ]

Ends-Grounded :
    (g : Graph) (cs : List (List String)) (s : String) → cs ≡ [] → Ends g cs s → Grounded g s
Ends-Grounded g cs s e (Ends.root n) = Grounded.root n
Ends-Grounded g cs s e (Ends.reported m) = cc (subst (λ ds. is_reported ds s ≡ true) e m)
Ends-Grounded g cs s e (Ends.child {p} n r) = Grounded.child n (Ends-Grounded g cs p e r)

-- Following parents from any id comes to an end, or to an id of a cycle that `check_cycles` reports: no
-- cycle is missed, and the fuel is enough. It reports nothing exactly when following parents comes to an
-- end from every id.
pub find_cycles_iff :
    (evs : List SessionEvent)
    → ((s : String) → Ends (occurrence_graph evs) (find_cycles evs) s)
      × ((find_cycles evs ≡ []) ↔ ((s : String) → Grounded (occurrence_graph evs) s))
find_cycles_iff evs = (
  find_cycles-Ends evs,
  (
    λ h s. Ends-Grounded (occurrence_graph evs) (find_cycles evs) s h (find_cycles-Ends evs s),
    λ all. none_of all (find_cycles evs) (find_cycles-All-IsCycle evs),
  ),
)
  where
    none_of :
        ((s : String) → Grounded (occurrence_graph evs) s)
        → (cs : List (List String)) → All (IsCycle (occurrence_graph evs)) cs
        → cs ≡ []
    none_of all [] h = refl
    none_of all (c ∷ cs) h = absurd (
        Linked-loops (occurrence_graph evs) h.0.first h.0.rest
          (subst (Linked (occurrence_graph evs)) h.0.closed h.0.linked) (all h.0.first))
