-- ===== src/Checks/Graph/Occurrence/Missing.antt =====
-- What `check_missing_parent` (SL004, checks/graph.py) reports, said of the events.
use mathlib.Core.Path.{subst}
use sesslint.Prelude.{
  ℕ, zero, suc, ◌+◌, ◌≡◌, ◌↔◌, refl, sym, ap, ◌∙◌, ◌⊎◌, inl, inr, String, ◌==◌, Bool, true, false,
  ◌&&◌, not, none, some, List, [], ◌∷◌, map, take, any, get_elem?, mem_text, arith, eq_iff,
  Bool-cases, Option-cases, or-false,
}
use sesslint.Session.{SessionEvent}
use sesslint.Checks.Graph.Occurrence.{
  Node, Graph, node, is_blank, has_id, occurrences_from, occurrence_graph, missing_from,
  missing_parents, with_missing,
}

-- The first event with its id, which is not blank.
pub record FirstAt (evs : List SessionEvent) (k : ℕ) (ev : SessionEvent) : Type 0 where
  pub here : get_elem? evs k ≡ some ev
  pub full : is_blank ev.id ≡ false
  pub fresh : mem_text ev.id (map (λ e. e.id) (take k evs)) ≡ false

-- An event of the session has the id, which is not blank.
abbrev pub names_event : List SessionEvent → String → Bool
names_event evs s = not (is_blank s) && any (λ e. e.id == s) evs

abbrev pub Listed : Node → List Node → Type 0
Listed n [] = ⊥
Listed n (m ∷ ms) = (m ≡ n) ⊎ Listed n ms

module _ (idx : ℕ) (ev : SessionEvent) (evs : List SessionEvent) (seen : List String) where
  skip-blank :
      is_blank ev.id ≡ true
      → occurrences_from idx (ev ∷ evs) seen ≡ occurrences_from (suc idx) evs seen
  unfolding occurrences_from
  skip-blank e = rw e refl

  skip-seen :
      mem_text ev.id seen ≡ true
      → occurrences_from idx (ev ∷ evs) seen ≡ occurrences_from (suc idx) evs seen
  unfolding occurrences_from
  skip-seen e = elim (Bool-cases (is_blank ev.id)) [ inl b ↦ rw b refl | inr b ↦ rw b (rw e refl) ]

  add-first :
      is_blank ev.id ≡ false
      → mem_text ev.id seen ≡ false
      → occurrences_from idx (ev ∷ evs) seen
        ≡ node idx ev ∷ occurrences_from (suc idx) evs (ev.id ∷ seen)
  unfolding occurrences_from
  add-first b e = rw b (rw e refl)

-- Whether an event is entered, with what its test gives.
entry-cases :
    (ev : SessionEvent) (seen : List String)
    → ((is_blank ev.id ≡ true) ⊎ (mem_text ev.id seen ≡ true))
      ⊎ ((is_blank ev.id ≡ false) × (mem_text ev.id seen ≡ false))
entry-cases ev seen = elim (Bool-cases (is_blank ev.id)) [
  | inl b ↦ inl (inl b)
  | inr b ↦ elim (Bool-cases (mem_text ev.id seen)) [ inl e ↦ inl (inr e) | inr e ↦ inr (b, e) ]
]

skipped :
    (idx : ℕ) (ev : SessionEvent) (evs : List SessionEvent) (seen : List String)
    → (is_blank ev.id ≡ true) ⊎ (mem_text ev.id seen ≡ true)
    → occurrences_from idx (ev ∷ evs) seen ≡ occurrences_from (suc idx) evs seen
skipped idx ev evs seen (inl b) = skip-blank idx ev evs seen b
skipped idx ev evs seen (inr e) = skip-seen idx ev evs seen e

not_first :
    (s t : String) (seen : List String)
    → t == s ≡ false
    → mem_text s seen ≡ false
    → mem_text s (t ∷ seen) ≡ false
not_first s t seen e h = ground (arith, eq_iff s t, eq_iff t s)

has_id-other :
    (idx : ℕ) (ev : SessionEvent) (g : Graph) (s : String)
    → ev.id == s ≡ false
    → has_id (node idx ev ∷ g) s ≡ has_id g s
unfolding has_id
has_id-other idx ev g s e = rw e refl

has_id-occurrences :
    (idx : ℕ) (evs : List SessionEvent) (seen : List String) (s : String)
    → mem_text s seen ≡ false
    → has_id (occurrences_from idx evs seen) s ≡ names_event evs s
has_id-occurrences idx [] seen s h = unfold occurrences_from has_id in ground arith
has_id-occurrences idx (ev ∷ evs) seen s h = elim (entry-cases ev seen) [
  | inl skip ↦
      ap (λ g. has_id g s) (skipped idx ev evs seen skip)
      ∙ (has_id-occurrences (suc idx) evs seen s h ∙ elim (Bool-cases (ev.id == s)) [
        | inr e ↦ rw e refl
        | inl e ↦ elim skip [
          | inl b ↦ rw (sym (ap is_blank ((eq_iff ev.id s).0 e)) ∙ b) refl
          | inr m ↦ absurd (clash _ (sym (ap (λ t. mem_text t seen) ((eq_iff ev.id s).0 e)) ∙ m) h)
        ]
      ])
  | inr (b, m) ↦
      ap (λ g. has_id g s) (add-first idx ev evs seen b m) ∙ elim (Bool-cases (ev.id == s)) [
        | inl e ↦
            let same : is_blank s ≡ false = sym (ap is_blank ((eq_iff ev.id s).0 e)) ∙ b in
            unfold has_id in rw e (rw same refl)
        | inr e ↦
            let unseen : mem_text s (ev.id ∷ seen) ≡ false = not_first s ev.id seen e h in
            let later = has_id-occurrences (suc idx) evs (ev.id ∷ seen) s unseen in
            has_id-other idx ev _ s e ∙ (later ∙ rw e refl)
      ]
]
  where
    clash : (b : Bool) → b ≡ true → b ≡ false → ⊥
    clash b p q = cc

module _ (idx : ℕ) (ev : SessionEvent) (evs : List SessionEvent) where
  FirstAt-cons :
      (k : ℕ) (e : SessionEvent)
      → FirstAt evs k e
      → e.id == ev.id ≡ false
      → FirstAt (ev ∷ evs) (suc k) e
  FirstAt-cons k e f n = record { here = f.here; full = f.full; fresh = rw n f.fresh }

  FirstAt-tail :
      (k : ℕ) (e : SessionEvent)
      → FirstAt (ev ∷ evs) (suc k) e
      → FirstAt evs k e × (e.id == ev.id ≡ false)
  FirstAt-tail k e f =
      let parts = or-false (e.id == ev.id) _ f.fresh in
      (record { here = f.here; full = f.full; fresh = parts.1 }, parts.0)

  FirstAt-head : (e : SessionEvent) → FirstAt (ev ∷ evs) 0 e → ev ≡ e
  FirstAt-head e f = some_inj ev e f.here
    where
      some_inj : (a b : SessionEvent) → some a ≡ some b → a ≡ b
      some_inj a b q = cc

-- The nodes of the graph are the first events with their ids.
Listed-FirstAt :
    (idx : ℕ) (evs : List SessionEvent) (seen : List String) (n : Node)
    → Listed n (occurrences_from idx evs seen)
    → (k : ℕ) × (ev : SessionEvent) × (n ≡ node (idx + k) ev)
      × FirstAt evs k ev
      × (mem_text ev.id seen ≡ false)
Listed-FirstAt idx [] seen n l =
    let empty : occurrences_from idx [] seen ≡ [] = unfold occurrences_from in refl in
    elim (subst (Listed n) empty l) [ ]
Listed-FirstAt idx (ev ∷ evs) seen n l = elim (entry-cases ev seen) [
  | inl skip ↦
      let (k, e, p, f, m) =
        Listed-FirstAt (suc idx) evs seen n (subst (Listed n) (skipped idx ev evs seen skip) l) in
      (
        suc k,
        e,
        p ∙ ap (λ j. node j e) (omega arith),
        FirstAt-cons idx ev evs k e f (apart ev e seen skip f.full m),
        m,
      )
  | inr (b, u) ↦
      let both : Listed n (node idx ev ∷ occurrences_from (suc idx) evs (ev.id ∷ seen)) =
        subst (Listed n) (add-first idx ev evs seen b u) l in
      elim both [
        | inl e ↦ (
          0,
          ev,
          sym e ∙ ap (λ j. node j ev) (omega arith),
          record { here = refl; full = b; fresh = refl },
          u,
        )
        | inr r ↦
            let (k, e, p, f, m) = Listed-FirstAt (suc idx) evs (ev.id ∷ seen) n r in
            let parts = or-false (e.id == ev.id) _ m in
            (
              suc k,
              e,
              p ∙ ap (λ j. node j e) (omega arith),
              FirstAt-cons idx ev evs k e f parts.0,
              parts.1,
            )
      ]
]
  where
    apart :
        (ev e : SessionEvent) (seen : List String)
        → (is_blank ev.id ≡ true) ⊎ (mem_text ev.id seen ≡ true)
        → is_blank e.id ≡ false
        → mem_text e.id seen ≡ false
        → e.id == ev.id ≡ false
    apart ev e seen skip full m = elim (Bool-cases (e.id == ev.id)) [
      | inr n ↦ n
      | inl same ↦
          let p = (eq_iff e.id ev.id).0 same in
          elim skip [
            | inl b ↦ absurd (cc (ap is_blank p, b, full))
            | inr u ↦ absurd (cc (ap (λ t. mem_text t seen) p, u, m))
          ]
    ]

FirstAt-Listed :
    (idx : ℕ) (evs : List SessionEvent) (seen : List String) (k : ℕ) (ev : SessionEvent)
    → FirstAt evs k ev
    → mem_text ev.id seen ≡ false
    → Listed (node (idx + k) ev) (occurrences_from idx evs seen)
FirstAt-Listed idx [] seen k ev f m = absurd (cc (f.here))
FirstAt-Listed idx (e ∷ evs) seen zero ev f m =
    let same = FirstAt-head idx e evs ev f in
    subst (Listed (node (idx + 0) ev))
      (sym (
        add-first idx e evs seen (ap (λ (x : SessionEvent). is_blank x.id) same ∙ f.full)
          (ap (λ (x : SessionEvent). mem_text x.id seen) same ∙ m)))
      (inl (ap (node idx) same ∙ ap (λ j. node j ev) (omega arith)))
FirstAt-Listed idx (e ∷ evs) seen (suc k) ev f m =
    let (g, apart) = FirstAt-tail idx e evs k ev f in
    let place : suc idx + k ≡ idx + suc k = omega arith in
    elim (entry-cases e seen) [
      | inl skip ↦ subst (Listed (node (idx + suc k) ev)) (sym (skipped idx e evs seen skip)) (
          subst (λ j. Listed (node j ev) (occurrences_from (suc idx) evs seen)) place
            (FirstAt-Listed (suc idx) evs seen k ev g m))
      | inr (b, u) ↦ subst (Listed (node (idx + suc k) ev)) (sym (add-first idx e evs seen b u)) (
          inr (
            subst (λ j. Listed (node j ev) (occurrences_from (suc idx) evs (e.id ∷ seen))) place
              (FirstAt-Listed (suc idx) evs (e.id ∷ seen) k ev g (rw apart m))))
    ]

module _ (g : Graph) where
  missing_from-kept :
      (n : Node) (ns : List Node) (p : String)
      → n.parent ≡ some p
      → has_id g p ≡ false
      → missing_from g (n ∷ ns) ≡ n ∷ missing_from g ns
  unfolding missing_from
  missing_from-kept n ns p e h = ap (λ o. with_missing g n o (missing_from g ns)) e ∙ rw h refl

  missing_from-rest :
      (n : Node) (ns : List Node)
      → ((n.parent ≡ none) ⊎ ((p : String) × (n.parent ≡ some p) × (has_id g p ≡ true)))
      → missing_from g (n ∷ ns) ≡ missing_from g ns
  unfolding missing_from
  missing_from-rest n ns (inl e) = ap (λ o. with_missing g n o (missing_from g ns)) e
  missing_from-rest n ns (inr (p, e, h)) =
      ap (λ o. with_missing g n o (missing_from g ns)) e ∙ rw h refl

  parent-cases :
      (n : Node)
      → ((n.parent ≡ none) ⊎ ((p : String) × (n.parent ≡ some p) × (has_id g p ≡ true)))
        ⊎ ((p : String) × (n.parent ≡ some p) × (has_id g p ≡ false))
  parent-cases n = elim (Option-cases n.parent) [
    | inl e ↦ inl (inl e)
    | inr (p, e) ↦ elim (Bool-cases (has_id g p)) [
      | inl h ↦ inl (inr (p, e, h))
      | inr h ↦ inr (p, e, h)
    ]
  ]

  Lost : Node → Type 0
  Lost n = (p : String) × (n.parent ≡ some p) × (has_id g p ≡ false)

  missing_from-Listed :
      (n : Node) (ns : List Node) → Listed n (missing_from g ns) → Listed n ns × Lost n
  unfolding Lost
  missing_from-Listed n [] l =
      let none_here : missing_from g [] ≡ [] = unfold missing_from in refl in
      elim (subst (Listed n) none_here l) [ ]
  missing_from-Listed n (m ∷ ns) l = elim (parent-cases m) [
    | inl e ↦
        let r = missing_from-Listed n ns (subst (Listed n) (missing_from-rest m ns e) l) in
        (inr r.0, r.1)
    | inr (p, e, h) ↦
        let both : Listed n (m ∷ missing_from g ns) =
          subst (Listed n) (missing_from-kept m ns p e h) l in
        elim both [
          | inl q ↦ (inl q, subst Lost q (p, e, h))
          | inr r ↦ let t = missing_from-Listed n ns r in (inr t.0, t.1)
        ]
  ]

  Listed-missing_from :
      (n : Node) (ns : List Node) → Listed n ns → Lost n → Listed n (missing_from g ns)
  unfolding Lost
  Listed-missing_from n [] l lost = elim l [ ]
  Listed-missing_from n (m ∷ ns) (inl q) (p, e, h) =
      let from_m : m.parent ≡ some p = ap (λ (x : Node). x.parent) q ∙ e in
      subst (Listed n) (sym (missing_from-kept m ns p from_m h)) (inl q)
  Listed-missing_from n (m ∷ ns) (inr r) lost =
      let later = Listed-missing_from n ns r lost in
      elim (parent-cases m) [
        | inl e ↦ subst (Listed n) (sym (missing_from-rest m ns e)) later
        | inr (p, e, h) ↦ subst (Listed n) (sym (missing_from-kept m ns p e h)) (inr later)
      ]

-- An event is reported as SL004 exactly when it is the first with its id, which is not blank, and
-- names a parent that no event of the session has as an id that is not blank.
pub missing_parents_iff :
    (evs : List SessionEvent) (k : ℕ) (ev : SessionEvent)
    → Listed (node k ev) (missing_parents evs)
      ↔ (FirstAt evs k ev × ((p : String) × (ev.parent_id ≡ some p) × (names_event evs p ≡ false)))
unfolding missing_parents occurrence_graph Lost
missing_parents_iff evs k ev =
    let g = occurrences_from 0 evs [] in
    (
      λ l.
          let (inside, (p, e, h)) = missing_from-Listed g (node k ev) g l in
          let (j, x, q, f, m) = Listed-FirstAt 0 evs [] (node k ev) inside in
          let place : k ≡ j = ap (λ (n : Node). n.index) q ∙ omega arith in
          let event : x ≡ ev = sym (ap (λ (n : Node). n.event) q) in
          (
            subst (λ i. FirstAt evs i ev) (sym place) (subst (FirstAt evs j) event f),
            (p, e, sym (has_id-occurrences 0 evs [] p refl) ∙ h),
          ),
      λ t.
          let (f, (p, e, h)) = t in
          let listed = FirstAt-Listed 0 evs [] k ev f refl in
          Listed-missing_from g (node k ev) g
            (subst (λ i. Listed (node i ev) g) (omega arith) listed)
            (p, e, has_id-occurrences 0 evs [] p refl ∙ h),
    )
